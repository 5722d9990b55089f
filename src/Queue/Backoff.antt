-- ===== src/Queue/Backoff.antt =====
-- The waiting time before another attempt.
use native.Mathlib.Nat.{pow-suc}
use native.Mathlib.Decide.{dec_lt}
use billsons_forms.Base.{ℕ, zero, suc, ◌-◌, ◌*◌, ◌^◌, ◌≤◌, ◌<◌, ◌≡◌, refl, arith, min, max, ap}
use billsons_forms.Queue.{retry_backoff_seconds}

abbrev capped : ℕ → ℕ
capped k = min 3600 (15 * 2 ^ k)

retry_backoff_seconds-capped : (n : ℕ) → retry_backoff_seconds (suc n) ≡ capped (min n 20)
unfolding retry_backoff_seconds
retry_backoff_seconds-capped n =
    let e : max 0 (min (suc n - 1) 20) ≡ min n 20 = omega arith in ap capped e

pow_pos : (k : ℕ) → 0 < 2 ^ k
pow_pos zero = omega arith
pow_pos (suc k) = omega (arith, pow-suc 2 k, pow_pos k)

capped-min : (n : ℕ) → capped (min (suc n) 20) ≡ min 3600 (2 * capped (min n 20))
capped-min n = elim (dec_lt n 20) [
  | yes h ↦
      let above : min (suc n) 20 ≡ suc n = omega arith in
      let at : min n 20 ≡ n = omega arith in rw (above, at) (omega (arith, pow-suc 2 n))
  | no h ↦
      let above : min (suc n) 20 ≡ 20 = omega arith in
      let at : min n 20 ≡ 20 = omega arith in rw (above, at) refl
]

-- The first wait is 15 seconds, and each further attempt doubles the wait, up to an hour.
pub retry_backoff_seconds-suc :
    (n : ℕ)
    → (retry_backoff_seconds 1 ≡ 15)
      × (retry_backoff_seconds (suc (suc n)) ≡ min 3600 (2 * retry_backoff_seconds (suc n)))
retry_backoff_seconds-suc n = (
  retry_backoff_seconds-capped 0,
  rw (retry_backoff_seconds-capped (suc n), retry_backoff_seconds-capped n) (capped-min n),
)

-- Every wait is between 15 seconds and an hour.
pub retry_backoff_seconds_bounds :
    (n : ℕ) → (15 ≤ retry_backoff_seconds n) × (retry_backoff_seconds n ≤ 3600)
unfolding retry_backoff_seconds
retry_backoff_seconds_bounds n = omega (arith, pow_pos (max 0 (min (n - 1) 20)))
