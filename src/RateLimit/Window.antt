-- ===== src/RateLimit/Window.antt =====
-- Windows: every time lies in its window, windows do not overlap, and waiting as told leaves one.
use billsons_forms.Models.{RateLimitBucket, Table, seconds}
use billsons_forms.Base.{
  Text, arith, inl, inr, refl, ℕ, ◌%◌, ◌*◌, ◌+◌, ◌-◌, ◌/◌, ◌<◌, ◌≡◌, ◌≤◌, ◌⊎◌,
}
use native.Mathlib.Nat.{div-add-mod, mod-lt}
use native.Mathlib.Decide.{dec_lt}
use billsons_forms.RateLimit.{check_rate_limit, window}

-- A time lies in its window, and the window has the length that is asked for.
pub window_contains :
    (now span : ℕ)
    → 0 < span
    → ((window now span).0 ≤ now)
      × (now < (window now span).1)
      × ((window now span).1 ≡ (window now span).0 + seconds span)
unfolding window
window_contains now span h = (omega arith, omega (arith, mod-lt (now / 1000000) h), refl)

-- The start of the window, in whole seconds.
abbrev start : ℕ → ℕ → ℕ
start epoch span = epoch - epoch % span

start-mul : (epoch span : ℕ) → start epoch span ≡ span * (epoch / span)
start-mul epoch span = omega (arith, div-add-mod epoch span)

div_mono : (p q span : ℕ) → 0 < span → p ≤ q → ¬ (q / span < p / span)
div_mono p q span h le lt =
    grind (arith, div-add-mod p span, div-add-mod q span, mod-lt q h, mod-lt p h)

starts_apart :
    (p q span : ℕ) → 0 < span → p ≤ q → (p / span ≡ q / span) ⊎ (start p span + span ≤ start q span)
starts_apart p q span h le = elim (dec_lt (p / span) (q / span)) [
  | yes lt ↦ inr (grind (arith, start-mul p span, start-mul q span))
  | no ge ↦ inl (omega (arith, div_mono p q span h le))
]

-- Two times have the same window, or one's window ends before the other's begins.
pub windows_disjoint :
    (a b span : ℕ)
    → 0 < span
    → a ≤ b
    → (window a span ≡ window b span) ⊎ ((window a span).1 ≤ (window b span).0)
unfolding window
windows_disjoint a b span h le =
    elim (starts_apart (a / 1000000) (b / 1000000) span h (omega arith)) [
      | inl same ↦ inl (ground (arith, start-mul (a / 1000000) span, start-mul (b / 1000000) span))
      | inr apart ↦ inr (omega (arith, apart))
    ]

-- A caller who waits as long as the answer says finds a later window; the wait is at least a second
-- and at most a second more than the window is long.
pub retry_after_suffices :
    (digest : Text → Text) (t : Table RateLimitBucket) (scope identity : Text) (limit span now : ℕ)
    → 0 < span
    → let r = (check_rate_limit digest t scope identity limit span now).0 in
      (1 ≤ r.retry_after)
      × (r.retry_after ≤ span + 1)
      × ((window now span).1 ≤ now + seconds r.retry_after)
unfolding check_rate_limit
retry_after_suffices digest t scope identity limit span now h =
    omega (arith, window_contains now span h)
