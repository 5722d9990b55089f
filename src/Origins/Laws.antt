-- ===== src/Origins/Laws.antt =====
-- The list of allowed origins has no duplicates, and a response allows no origin outside of it.
use billsons_forms.Base.{
  All-append, Bool-cases, In, List, Text, [], arith, contains, false, here, if◌then◌else◌, inl, inr,
  nat_eq, refl, some, subst, sym, text_beq, text_beq_iff, text_eq, there, true, ◌++◌, ◌↔◌, ◌∷◌, ◌≡◌,
}
use billsons_forms.Strings.{Unicode, truthy}
use billsons_forms.Network.{NetworkLibrary, ok}
use billsons_forms.Origins.{
  OriginLibrary, add_sorted, apply_cors, normalize_all, normalize_origin, normalize_origins,
  origin_is_allowed, sorted_set, text_ltb,
}
use billsons_forms.Snapshot.Laws.{AllDistinct, Result-cases}

ok-injective : {A : Type 0} {a b : A} → ok a ≡ ok b → a ≡ b
ok-injective e = cc

pub append-AllDistinct :
    (xs : List Text) (y : Text)
    → contains y xs ≡ false
    → AllDistinct xs
    → AllDistinct (xs ++ y ∷ [])
unfolding contains
append-AllDistinct [] y fresh d = (tt, tt)
append-AllDistinct (x ∷ xs) y fresh d = (
  All-append _ xs (y ∷ []) d.0 (λ e. ground (arith, fresh, text_beq_iff y x, e), tt),
  append-AllDistinct xs y (ground arith) d.1,
)

module _ (u : Unicode) (net : NetworkLibrary) (lib : OriginLibrary) where
  add_origin-AllDistinct :
      (xs : List Text) (y : Text)
      → AllDistinct xs
      → AllDistinct (if contains y xs then xs else xs ++ y ∷ [])
  add_origin-AllDistinct xs y d = elim (Bool-cases (contains y xs)) [
    | inl seen ↦ rw seen d
    | inr fresh ↦ rw fresh (append-AllDistinct xs y fresh d)
  ]

  normalize_all-AllDistinct :
      (result values out : List Text)
      → normalize_all u net lib result values ≡ ok out
      → AllDistinct result
      → AllDistinct out
  unfolding normalize_all
  normalize_all-AllDistinct result [] out e d = subst AllDistinct (ok-injective e) d
  normalize_all-AllDistinct result (value ∷ values) out e d =
      elim (Result-cases (normalize_origin u net lib value)) [
        | inl (o, normal) ↦
            normalize_all-AllDistinct (if contains o result then result else result ++ o ∷ [])
              values out (ground (arith, e, normal)) (add_origin-AllDistinct result o d)
        | inr (message, bad) ↦ absurd (ground (arith, e, bad))
      ]

  -- The origins that are stored, or taken from the form, have no duplicates.
  pub normalize_origins-AllDistinct :
      (values out : List Text) → normalize_origins u net lib values ≡ ok out → AllDistinct out
  normalize_origins-AllDistinct values out e = normalize_all-AllDistinct [] values out e tt

  filled :
      (origin normalized : Text)
      → normalize_origin u net lib origin ≡ ok normalized
      → truthy origin ≡ true
  unfolding normalize_origin
  filled origin normalized e = elim (Bool-cases (truthy origin)) [
    | inl full ↦ full
    | inr bare ↦ absurd (ground (arith, e, bare))
  ]

  allows :
      (origin normalized : Text) (allowed_origins : List Text)
      → apply_cors u net lib (some origin) allowed_origins ≡ some normalized
      → (normalize_origin u net lib origin ≡ ok normalized)
        × (origin_is_allowed u net lib (some origin) allowed_origins ≡ true)
  unfolding apply_cors origin_is_allowed
  allows origin normalized allowed_origins e =
      elim (Result-cases (normalize_origin u net lib origin)) [
        | inl (o, normal) ↦ ground (arith, e, normal)
        | inr (message, bad) ↦ absurd (ground (arith, e, bad))
      ]

  named :
      (origin normalized : Text) (allowed_origins : List Text)
      → (normalize_origin u net lib origin ≡ ok normalized)
        × (origin_is_allowed u net lib (some origin) allowed_origins ≡ true)
      → apply_cors u net lib (some origin) allowed_origins ≡ some normalized
  unfolding apply_cors origin_is_allowed
  named origin normalized allowed_origins (normal, allowed) =
      ground (arith, normal, allowed, filled origin normalized normal)

  -- A response allows an origin exactly where that origin is well formed and may submit, and then
  -- it names the normal form.
  pub apply_cors-origin_is_allowed :
      (origin normalized : Text) (allowed_origins : List Text)
      → (apply_cors u net lib (some origin) allowed_origins ≡ some normalized) ↔ (
          (normalize_origin u net lib origin ≡ ok normalized)
          × (origin_is_allowed u net lib (some origin) allowed_origins ≡ true))
  apply_cors-origin_is_allowed origin normalized allowed_origins =
      (allows origin normalized allowed_origins, named origin normalized allowed_origins)

behind :
    {xs ys : List Text} (w : Text)
    → ((v : Text) → In v xs → In v ys)
    → (v : Text) → In v (w ∷ xs)
    → In v (w ∷ ys)
behind w kept v (here e) = here e
behind w kept v (there i) = there (kept v i)

-- Every value of a set is in its list.
add_sorted-In :
    (value : Text) (values : List Text)
    → In value (add_sorted value values)
      × ((v : Text) → In v values → In v (add_sorted value values))
unfolding add_sorted
add_sorted-In value [] = (here refl, λ v i. there i)
add_sorted-In value (w ∷ values) = elim (Bool-cases (text_beq value w)) [
  | inl same ↦ rw same (here (sym ((text_beq_iff value w).0 same)), λ v i. i)
  | inr other ↦ rw other (elim (Bool-cases (text_ltb value w)) [
    | inl before ↦ rw before (here refl, λ v i. there i)
    | inr after ↦
        rw after (let (added, kept) = add_sorted-In value values in (there added, behind w kept))
  ])
]

-- The set that the `Vary` header is made of has the new value and keeps the others.
pub sorted_set-In : (values : List Text) (v : Text) → In v values → In v (sorted_set values)
unfolding sorted_set
sorted_set-In [] v i = elim i [ ]
sorted_set-In (w ∷ values) v (here e) =
    subst (λ x. In x (add_sorted w (sorted_set values))) e (add_sorted-In w (sorted_set values)).0
sorted_set-In (w ∷ values) v (there i) =
    (add_sorted-In w (sorted_set values)).1 v (sorted_set-In values v i)
