-- ===== src/ClientIp/Examples.antt =====
-- Requests through a proxy and around it. Addresses are numbers here, written in decimal, and the one
-- network holds the numbers from 100 on.
use billsons_forms.Base.{
  [], contains, false, if◌then◌else◌, leb, length, lit, nat_eq, none, refl, some, text_beq, text_eq,
  true, ℕ, ◌&&◌, ◌-◌, ◌==◌, ◌∷◌, ◌≡◌,
}
use billsons_forms.Strings.{Unicode, contains_text, count_char, split_char, starts_with, strip}
use billsons_forms.Http.{Request}
use billsons_forms.ClientIp.{IpLibrary, get_client_ip, is_trusted, parse_ip, peer_of, resolve_chain}
use billsons_forms.ClientIp.Laws.{Resolves, resolve_chain-Resolves, untrusted_peer_cannot_forge}

abbrev plain : Unicode
plain = record {
  is_space = λ c. c == 32;
  lower = λ t. t;
  upper = λ t. t;
  is_other = λ c. false;
  digit = λ c. if leb b'0' c && leb c b'9' then some (c - b'0') else none;
}

abbrev numbers : IpLibrary ℕ ℕ
numbers = record { ip_address = λ t. some (length t); show = λ n. n ∷ []; is_in = λ a n. leb n a }

abbrev direct : Request
direct = record { client_host = some (b'1' ∷ []); header = λ _. none; cookie = λ _. none }

abbrev forged : Request
forged = record direct { header = λ _. some (b'1' ∷ b'2' ∷ []) }

client_ip_runs : Unit {0}
unfolding get_client_ip parse_ip is_trusted text_beq starts_with split_char lit strip contains
    contains_text count_char
client_ip_runs = tt

direct_peer : peer_of plain numbers (100 ∷ []) direct.client_host ≡ some 1
unfolding client_ip_runs
direct_peer = refl

untrusted : is_trusted plain numbers (100 ∷ []) 1 ≡ false
unfolding client_ip_runs
untrusted = refl

trusted : is_trusted plain numbers (100 ∷ []) 200 ≡ true
unfolding client_ip_runs
trusted = refl

untrusted_peer_cannot_forge_example :
    (get_client_ip plain numbers (100 ∷ []) direct ≡ some (1 ∷ []))
    × (get_client_ip plain numbers (100 ∷ []) forged ≡ some (1 ∷ []))
untrusted_peer_cannot_forge_example =
    untrusted_peer_cannot_forge plain numbers (100 ∷ []) direct 1 direct_peer untrusted forged refl

resolve_chain-Resolves_example :
    Resolves plain numbers
      (100 ∷ [])
      (7 ∷ 8 ∷ 150 ∷ [])
      200
      (resolve_chain plain numbers (100 ∷ []) (7 ∷ 8 ∷ 150 ∷ []) 200)
resolve_chain-Resolves_example =
    resolve_chain-Resolves plain numbers (100 ∷ []) (7 ∷ 8 ∷ 150 ∷ []) 200 trusted
