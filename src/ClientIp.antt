-- ===== src/ClientIp.antt =====
-- app/core/client_ip.py: which address a request is taken to come from. The `ipaddress` library is a
-- parameter: its addresses and networks, parsing, printing and membership.
pub mod Laws
mod Examples
use mathlib.Core.List.{reverse}
use billsons_forms.Base.{
  Bool, List, Option, Text, [], any, contains, drop, if◌then◌else◌, lit, map, nat_beq, nat_eq, none,
  not, or_else, some, text_beq, text_eq, ◌&&◌, ◌++◌, ◌==◌, ◌∷◌,
}
use billsons_forms.Strings.{
  Unicode, count_char, or_empty, split_char, split_first, split_last, starts_with, strip,
  truthy_option,
}
use billsons_forms.Http.{Request}

-- `ip_address` (`none` for its ValueError), `str`, and `address in network`.
pub record IpLibrary (Address Network : Type 0) : Type 0 where
  pub ip_address : Text → Option Address
  pub show : Address → Text
  pub is_in : Address → Network → Bool

-- `parsed` of each element, or `none` if any has none.
pub sequence {ℓ} : {A : Type ℓ} → List (Option A) → Option (List A)
sequence [] = some []
sequence (none ∷ xs) = none
sequence (some a ∷ xs) = elim (sequence xs) [ none ↦ none | some rest ↦ some (a ∷ rest) ]

module _ {Address Network : Type 0} (u : Unicode) (lib : IpLibrary Address Network)
    (trusted_proxy_networks : List Network) where
  -- The text that is parsed: the part in brackets, or what stands before the port.
  unfoldable pub ip_candidate : Text → Text
  ip_candidate candidate =
      if starts_with candidate (lit "[") && contains b']' candidate
      then elim (split_first b']' candidate) [ none ↦ [] | some (before, _) ↦ drop 1 before ]
      else if count_char b':' candidate == 1 && contains b'.' candidate
      then elim (split_last b':' candidate) [ none ↦ candidate | some (before, _) ↦ before ]
      else candidate

  unfoldable pub parse_ip : Text → Option Address
  unfolding ip_candidate
  parse_ip value = lib.ip_address (ip_candidate (strip u value))

  unfoldable pub is_trusted : Address → Bool
  is_trusted address = any (lib.is_in address) trusted_proxy_networks

  -- The loop over the reversed chain: the first address that is not trusted.
  pub first_untrusted : List Address → Option Address
  first_untrusted [] = none
  first_untrusted (a ∷ addresses) = if is_trusted a then first_untrusted addresses else some a

  -- `str(chain[0] or peer)`: an address is never false.
  abbrev chain_head : List Address → Address → Address
  chain_head [] peer = peer
  chain_head (a ∷ chain) peer = a

  pub resolve_chain : List Address → Address → Address
  unfolding first_untrusted
  resolve_chain chain peer = elim (first_untrusted (reverse (chain ++ peer ∷ []))) [
    | some address ↦ address
    | none ↦ chain_head chain peer
  ]

  abbrev pub forwarded_for : Text → Option (List Address)
  forwarded_for forwarded = sequence (map parse_ip (split_char b',' forwarded))

  abbrev pub peer_of : Option Text → Option Address
  peer_of none = none
  peer_of (some host) = parse_ip host

  unfoldable pub get_client_ip : Request → Option Text
  unfolding resolve_chain sequence
  get_client_ip request = elim (peer_of request.client_host) [
    | none ↦ none
    | some peer ↦
        if not (is_trusted peer)
        then some (lib.show peer)
        else if truthy_option (request.header (lit "x-forwarded-for"))
        then elim (forwarded_for (or_empty (request.header (lit "x-forwarded-for")))) [
          | none ↦ some (lib.show peer)
          | some chain ↦ some (lib.show (resolve_chain chain peer))
        ]
        else some (lib.show (or_else (parse_ip (or_empty (request.header (lit "x-real-ip")))) peer))
  ]
