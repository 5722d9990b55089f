-- ===== src/RateLimit/Examples.antt =====
-- The limiter at work: three calls of one client in a window of a minute with two allowed.
use billsons_forms.Base.{
  List, Text, [], arith, count_where, find, min, refl, text_beq, update_where, ℕ, ◌+◌, ◌-◌, ◌∷◌,
  ◌≡◌, ◌≤◌,
}
use billsons_forms.Models.{RateLimitBucket, Table, empty, seconds}
use billsons_forms.RateLimit.{check_rate_limit, check_rate_limit_portable, upsert, window}
use billsons_forms.RateLimit.Window.{retry_after_suffices}
use billsons_forms.RateLimit.Quota.{Call, Key, allowed_calls, allowed_calls-min, is_call, used}
use billsons_forms.RateLimit.Portable.{portable-eq-upsert}

abbrev same_text : Text → Text
same_text t = t

abbrev call_at : ℕ → Text → Call
call_at now who = record {
  scope = 102 ∷ [];
  identity = who;
  limit = 2;
  window_seconds = 60;
  now = now;
}

abbrev minute : Key
minute = record { scope = 102 ∷ []; subject_key = 49 ∷ []; window_start = seconds 60 }

abbrev calls : List Call
calls =
    call_at (seconds 60) (49 ∷ [])
    ∷ call_at (seconds 61) (50 ∷ [])
    ∷ call_at (seconds 90) (49 ∷ [])
    ∷ call_at (seconds 119) (49 ∷ [])
    ∷ call_at (seconds 120) (49 ∷ [])
    ∷ []

limiter_runs : Unit {0}
unfolding check_rate_limit upsert window find update_where count_where text_beq allowed_calls
limiter_runs = tt

third_refused : allowed_calls same_text minute empty calls ≡ 2
unfolding limiter_runs
third_refused = refl

calls_under_minute : count_where (is_call same_text minute) calls ≡ 3
unfolding limiter_runs
calls_under_minute = refl

allowed_calls-min_example :
    allowed_calls same_text minute empty calls
    ≡ min (2 - used same_text minute empty) (count_where (is_call same_text minute) calls)
allowed_calls-min_example =
    allowed_calls-min same_text minute 2 empty calls
      (λ _. refl, (λ _. refl, (λ _. refl, (λ _. refl, (λ _. refl, tt)))))

retry_after_suffices_example :
    let r = (check_rate_limit same_text empty [] [] 2 60 (seconds 61)).0 in
    (1 ≤ r.retry_after)
    × (r.retry_after ≤ 60 + 1)
    × ((window (seconds 61) 60).1 ≤ seconds 61 + seconds r.retry_after)
retry_after_suffices_example =
    retry_after_suffices same_text empty [] [] 2 60 (seconds 61) (omega arith)

abbrev committed : Table RateLimitBucket
committed = (check_rate_limit same_text empty (102 ∷ []) (49 ∷ []) 2 60 (seconds 60)).1

portable-eq-upsert_example :
    (check_rate_limit_portable same_text
      (committed ∷ [])
      empty
      (102 ∷ [])
      (49 ∷ [])
      2
      60
      (seconds 61)).0
    ≡ (check_rate_limit same_text committed (102 ∷ []) (49 ∷ []) 2 60 (seconds 61)).0
portable-eq-upsert_example =
    portable-eq-upsert same_text (committed ∷ []) empty (102 ∷ []) (49 ∷ []) 2 60 (seconds 61)
