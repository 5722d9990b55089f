-- ===== src/ClientIp/Laws.antt =====
-- Forwarded headers count only from trusted proxies, and are read from the right.
use mathlib.Core.List.{reverse, reverse-cons, reverse-append}
use billsons_forms.Base.{
  All, List, Option-cases, [], ap, arith, false, if◌then◌else◌, inl, inr, none, refl, some, subst,
  sym, true, ◌++◌, ◌∙◌, ◌∷◌, ◌≡◌,
}
use billsons_forms.Strings.{Unicode}
use billsons_forms.Http.{Request}
use billsons_forms.ClientIp.{
  chain_head, IpLibrary, first_untrusted, get_client_ip, is_trusted, peer_of, resolve_chain,
}

module _ {Address Network : Type 0} (u : Unicode) (lib : IpLibrary Address Network)
    (networks : List Network) where
  -- A client that connects directly cannot choose its address: unless the peer is a trusted proxy,
  -- the answer is the peer, whatever the headers say.
  pub untrusted_peer_cannot_forge :
      (request : Request) (peer : Address)
      → peer_of u lib networks request.client_host ≡ some peer
      → is_trusted u lib networks peer ≡ false
      → (forged : Request) → forged.client_host ≡ request.client_host
      → (get_client_ip u lib networks request ≡ some (lib.show peer))
        × (get_client_ip u lib networks forged ≡ some (lib.show peer))
  unfolding get_client_ip
  untrusted_peer_cannot_forge request peer e untrusted forged same =
      (ground (arith, e, untrusted), ground (arith, e, untrusted, ap (peer_of u lib networks) same))

  -- Where the answer stands in the chain of addresses.
  pub data Resolves (chain : List Address) (peer answer : Address) : Type 0 where
    hop :
        (before after : List Address)
        → chain ≡ before ++ answer ∷ after
        → is_trusted u lib networks answer ≡ false
        → All (λ a. is_trusted u lib networks a ≡ true) after
        → Resolves chain peer answer
    all_proxies :
        All (λ a. is_trusted u lib networks a ≡ true) chain
        → answer ≡ chain_head u lib networks chain peer
        → Resolves chain peer answer

  first_untrusted-append :
      (xs : List Address) (y : Address)
      → first_untrusted u lib networks (xs ++ y ∷ []) ≡ (elim (first_untrusted u lib networks xs) [
        | some a ↦ some a
        | none ↦ if is_trusted u lib networks y then none else some y
      ])
  unfolding first_untrusted
  first_untrusted-append [] y = refl
  first_untrusted-append (x ∷ xs) y = ground (arith, first_untrusted-append xs y)

  first_untrusted-reverse :
      (x : Address) (xs : List Address)
      → first_untrusted u lib networks (reverse (x ∷ xs))
        ≡ (elim (first_untrusted u lib networks (reverse xs)) [
          | some a ↦ some a
          | none ↦ if is_trusted u lib networks x then none else some x
        ])
  first_untrusted-reverse x xs =
      ap (first_untrusted u lib networks) (reverse-cons x xs)
      ∙ first_untrusted-append (reverse xs) x

  first_untrusted-reverse-none :
      (xs : List Address)
      → first_untrusted u lib networks (reverse xs) ≡ none
      → All (λ a. is_trusted u lib networks a ≡ true) xs
  first_untrusted-reverse-none [] e = tt
  first_untrusted-reverse-none (x ∷ xs) e =
      ground (arith, first_untrusted-reverse x xs, first_untrusted-reverse-none xs)

  first_untrusted-reverse-some :
      (xs : List Address) (a : Address)
      → first_untrusted u lib networks (reverse xs) ≡ some a
      → (before : List Address) × (after : List Address) × (xs ≡ before ++ a ∷ after)
        × (is_trusted u lib networks a ≡ false)
        × All (λ b. is_trusted u lib networks b ≡ true) after
  first_untrusted-reverse-some [] a e = absurd (nothing_in_nothing a e)
    where
      nothing_in_nothing : (a : Address) → first_untrusted u lib networks [] ≡ some a → ⊥
      nothing_in_nothing a e = unfold first_untrusted in cc
  first_untrusted-reverse-some (x ∷ xs) a e =
      elim (Option-cases (first_untrusted u lib networks (reverse xs))) [
        | inl all_trusted ↦
            let x_first : x ≡ a = ground (arith, first_untrusted-reverse x xs) in
            (
              [],
              xs,
              ap (λ y. y ∷ xs) x_first,
              ground (arith, first_untrusted-reverse x xs),
              first_untrusted-reverse-none xs all_trusted,
            )
        | inr (b, found) ↦
            let (before, after, eq, untrusted, trusted) =
              first_untrusted-reverse-some xs a (ground (arith, first_untrusted-reverse x xs)) in
            (x ∷ before, after, ap (λ ys. x ∷ ys) eq, untrusted, trusted)
      ]

  -- Behind a trusted peer the client is the last address of the chain that is no trusted proxy,
  -- everything to its right being one; if all are, it is the first of the chain.
  pub resolve_chain-Resolves :
      (chain : List Address) (peer : Address)
      → is_trusted u lib networks peer ≡ true
      → Resolves chain peer (resolve_chain u lib networks chain peer)
  resolve_chain-Resolves chain peer trusted =
      elim (Option-cases (first_untrusted u lib networks (reverse chain))) [
        | inl nobody ↦
            subst (Resolves chain peer) (sym (at_head nobody))
              (all_proxies (first_untrusted-reverse-none chain nobody) refl)
        | inr (a, found) ↦
            let (before, after, eq, untrusted, proxies) =
              first_untrusted-reverse-some chain a found in
            subst (Resolves chain peer) (sym (at_hop a found))
              (hop before after eq untrusted proxies)
      ]
    where
      skip :
          first_untrusted u lib networks (reverse (chain ++ peer ∷ []))
          ≡ first_untrusted u lib networks (reverse chain)
      skip =
          ap (first_untrusted u lib networks) (reverse-append chain (peer ∷ []))
          ∙ unfold first_untrusted in rw trusted refl

      at_head :
          first_untrusted u lib networks (reverse chain) ≡ none
          → resolve_chain u lib networks chain peer ≡ chain_head u lib networks chain peer
      at_head nobody = unfold resolve_chain in ground (arith, skip, nobody)

      at_hop :
          (a : Address)
          → first_untrusted u lib networks (reverse chain) ≡ some a
          → resolve_chain u lib networks chain peer ≡ a
      at_hop a found = unfold resolve_chain in ground (arith, skip, found)
