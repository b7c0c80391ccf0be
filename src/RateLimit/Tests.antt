-- ===== src/RateLimit/Tests.antt =====
-- Tests of the token buckets, and the theorems at concrete inputs.
use postbag.Common.{ℕ, ◌+◌, ◌*◌, ◌-◌, ◌≤◌, ◌<◌, ◌≡◌, refl, List, [], ◌∷◌, arith}
use postbag.RateLimit.Buckets.{Rate, Bucket, Limiter, sweep, consume}
use postbag.RateLimit.Levels.{level}
use postbag.RateLimit.Bound.{Call, allowed, last_time, allowed_bound, sweep_fills}

-- Three codes for an address in ten minutes.
abbrev codes_rate : Rate
codes_rate = record { num = 3; den = 10; burst = 3 }

abbrev fresh : Limiter
fresh = record { buckets = []; last_sweep = 0 }

abbrev call : ℕ → Call
call t = record { rate = codes_rate; key = 7; at = t }

abbrev calls : List Call
calls = call 100 ∷ call 200 ∷ call 300 ∷ call 400 ∷ call 200400 ∷ []

test_allowed : allowed 7 calls fresh ≡ 4
unfolding allowed consume sweep
test_allowed = refl

allowed_bound_example : allowed 7 calls fresh * 600000 ≤ 1800000 + (last_time 100 calls - 100) * 3
allowed_bound_example =
    allowed_bound codes_rate 7 100 calls fresh (omega arith) (record { keys = tt; past = tt })
      (omega arith) ((λ e. refl), ((λ e. refl), ((λ e. refl), ((λ e. refl), ((λ e. refl), tt)))))

-- One submission each minute, in bursts of up to a hundred.
abbrev form_rate : Rate
form_rate = record { num = 1; den = 1; burst = 100 }

abbrev spent : Bucket
spent = record { key = 7; tokens = 0; updated_at = 1000 }

sweep_fills_example :
    (level form_rate 7 700000 (sweep 700000 (record { buckets = spent ∷ []; last_sweep = 1000 }))
      ≡ 6000000)
    × (level form_rate 7 700000 (record { buckets = spent ∷ []; last_sweep = 1000 }) < 6000000)
sweep_fills_example =
    sweep_fills form_rate 7 700000 spent 1000 refl (omega arith) (omega arith) (omega arith)
