-- ===== src/RateLimit/Portable.antt =====
-- The limiter that re-reads a table until its commit holds answers as the atomic statement does.
use billsons_forms.Models.{RateLimitBucket, Table}
use billsons_forms.Base.{List, Text, [], arith, ℕ, ◌∷◌, ◌≡◌}
use billsons_forms.RateLimit.{check_rate_limit, check_rate_limit_portable, upsert}

-- The table that the attempt whose commit holds has read.
abbrev pub final_table {ℓ} : {A : Type ℓ} → List A → A → A
final_table [] t = t
final_table (u ∷ us) t = final_table us u

-- However many commits fail before one holds, the answer is that of the atomic statement on the
-- table as it was at the last attempt.
pub portable-eq-upsert :
    (digest : Text → Text) (conflicts : List (Table RateLimitBucket)) (t : Table RateLimitBucket)
    (scope identity : Text) (limit span now : ℕ)
    → (check_rate_limit_portable digest conflicts t scope identity limit span now).0
      ≡ (check_rate_limit digest (final_table conflicts t) scope identity limit span now).0
unfolding check_rate_limit_portable check_rate_limit upsert
portable-eq-upsert digest [] t scope identity limit span now = ground arith
portable-eq-upsert digest (u ∷ us) t scope identity limit span now =
    portable-eq-upsert digest us u scope identity limit span now
