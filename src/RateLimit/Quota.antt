-- ===== src/RateLimit/Quota.antt =====
-- How many calls of one caller a window lets through, whatever calls of others come between.
use billsons_forms.Models.{RateLimitBucket, Table}
use billsons_forms.Base.{
  All, Bool, Bool-cases, List, Text, [], ap, arith, count_where, false, find, find-append,
  find-update_where, find-update_where_other, if◌then◌else◌, inl, inr, leb, min, nat_eq, none, refl,
  some, subst, text_beq_iff, text_beq_refl, text_eq, true, ℕ, ◌&&◌, ◌+◌, ◌-◌, ◌==◌, ◌∷◌, ◌≡◌,
}
use billsons_forms.RateLimit.{
  bump, new_bucket, RateLimitResult, check_rate_limit, matches, upsert, window,
}

-- A call of the limiter.
pub record Call : Type 0 where
  pub scope : Text
  pub identity : Text
  pub limit : ℕ
  pub window_seconds : ℕ
  pub now : ℕ

-- The unique key of a bucket: what is limited, whose requests, and in which window.
pub record Key : Type 0 where
  pub scope : Text
  pub subject_key : Text
  pub window_start : ℕ

module _ (digest : Text → Text) where
  abbrev pub is_key : Key → RateLimitBucket → Bool
  is_key k = matches digest k.scope k.subject_key k.window_start

  -- The requests that the table has counted under a key.
  abbrev pub used : Key → Table RateLimitBucket → ℕ
  used k t = elim (find (is_key k) t.rows) [ none ↦ 0 | some b ↦ b.request_count ]

  pub key_of : Call → Key
  key_of c = record {
    scope = c.scope;
    subject_key = digest c.identity;
    window_start = (window c.now c.window_seconds).0;
  }

  -- The call falls under the key.
  abbrev pub is_call : Key → Call → Bool
  is_call k c =
      c.scope == k.scope
      && digest c.identity == k.subject_key
      && (window c.now c.window_seconds).0 == k.window_start

  abbrev pub check : Table RateLimitBucket → Call → RateLimitResult × Table RateLimitBucket
  check t c = check_rate_limit digest t c.scope c.identity c.limit c.window_seconds c.now

  -- The calls under a key that a sequence of calls lets through.
  unfoldable pub allowed_calls : Key → Table RateLimitBucket → List Call → ℕ
  allowed_calls k t [] = 0
  allowed_calls k t (c ∷ cs) =
      let (r, t') = check t c in (if is_call k c && r.allowed then 1 else 0) + allowed_calls k t' cs

  -- Counting a request of a key adds one to what the key has used.
  used-upsert_self :
      (k : Key) (t : Table RateLimitBucket) (end : ℕ)
      → used k (upsert digest t k.scope k.subject_key k.window_start end).1 ≡ used k t + 1
  unfolding upsert
  used-upsert_self k t end = ground (
    arith,
    find-append (is_key k) t.rows
        (new_bucket digest k.scope k.subject_key k.window_start end t.next_id),
    find-update_where (is_key k) (bump digest end) t.rows (λ b. refl),
    text_beq_refl k.scope,
    text_beq_refl k.subject_key,
  )

  -- The key of a bucket that another key's test finds.
  other_key :
      (k : Key) (scope subject_key : Text) (start : ℕ) (b : RateLimitBucket)
      → (scope == k.scope && subject_key == k.subject_key && start == k.window_start) ≡ false
      → matches digest scope subject_key start b ≡ true
      → is_key k b ≡ false
  other_key k scope subject_key start b ne hit = ground (
    arith,
    text_beq_iff b.scope scope,
    text_beq_iff b.scope k.scope,
    text_beq_iff scope k.scope,
    text_beq_iff b.subject_key subject_key,
    text_beq_iff b.subject_key k.subject_key,
    text_beq_iff subject_key k.subject_key,
  )

  used-upsert_other :
      (k : Key) (t : Table RateLimitBucket) (scope subject_key : Text) (start end : ℕ)
      → (scope == k.scope && subject_key == k.subject_key && start == k.window_start) ≡ false
      → used k (upsert digest t scope subject_key start end).1 ≡ used k t
  unfolding upsert
  used-upsert_other k t scope subject_key start end ne = ground (
    arith,
    find-append (is_key k) t.rows (new_bucket digest scope subject_key start end t.next_id),
    find-update_where_other (matches digest scope subject_key start) (is_key k) (bump digest end)
        t.rows
        (λ b hit. (
          other_key k scope subject_key start b ne hit,
          other_key k scope subject_key start b ne hit,
        )),
  )

  upsert_counts :
      (k : Key) (t : Table RateLimitBucket) (end : ℕ)
      → (upsert digest t k.scope k.subject_key k.window_start end).0 ≡ used k t + 1
  unfolding upsert
  upsert_counts k t end = ground arith

  abbrev call_end : Call → ℕ
  call_end c = (window c.now c.window_seconds).1

  -- A call under the key is answered by what the key has used, and counted.
  pub check_under_key :
      (k : Key) (t : Table RateLimitBucket) (c : Call)
      → is_call k c ≡ true
      → ((check t c).0.allowed ≡ leb (used k t + 1) c.limit) × (used k (check t c).1 ≡ used k t + 1)
  unfolding check_rate_limit
  check_under_key k t c hit =
      let scope : k.scope ≡ c.scope = ground (arith, text_beq_iff c.scope k.scope) in
      let caller : k.subject_key ≡ digest c.identity =
        ground (arith, text_beq_iff (digest c.identity) k.subject_key) in
      let start : k.window_start ≡ (window c.now c.window_seconds).0 = ground arith in
      let table = upsert digest t k.scope k.subject_key k.window_start (call_end c) in
      let same : table
          ≡ upsert digest t c.scope (digest c.identity) (window c.now c.window_seconds).0
              (call_end c) =
        cc in
      (
        subst (λ r. leb r.0 c.limit ≡ leb (used k t + 1) c.limit) same
            (ap (λ n. leb n c.limit) (upsert_counts k t (call_end c))),
        subst (λ r. used k r.1 ≡ used k t + 1) same (used-upsert_self k t (call_end c)),
      )

  check_under_other :
      (k : Key) (t : Table RateLimitBucket) (c : Call)
      → is_call k c ≡ false
      → used k (check t c).1 ≡ used k t
  unfolding check_rate_limit
  check_under_other k t c miss =
      used-upsert_other k t c.scope (digest c.identity) (window c.now c.window_seconds).0
        (call_end c) miss

  -- In any sequence of calls, made by any callers at any times, those that fall under one key are let
  -- through until the key has used its limit: as many as there are, or as the limit still allows.
  pub allowed_calls-min :
      (k : Key) (limit : ℕ) (t : Table RateLimitBucket) (cs : List Call)
      → All (λ c. is_call k c ≡ true → c.limit ≡ limit) cs
      → allowed_calls k t cs ≡ min (limit - used k t) (count_where (is_call k) cs)
  unfolding allowed_calls count_where
  allowed_calls-min k limit t [] h = omega arith
  allowed_calls-min k limit t (c ∷ cs) h = elim (Bool-cases (is_call k c)) [
    | inl hit ↦ ground (
      arith,
      hit,
      h.0 hit,
      check_under_key k t c hit,
      allowed_calls-min k limit (check t c).1 cs h.1,
    )
    | inr miss ↦
        ground (
          arith,
          miss,
          check_under_other k t c miss,
          allowed_calls-min k limit (check t c).1 cs h.1,
        )
  ]
