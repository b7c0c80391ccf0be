-- ===== src/Delivery/Backoff.antt =====
-- packages/core/src/backoff.ts. The random number and the jitter ratio are fractions, and the
-- time is rounded from the exact value where the code computes in doubles.
use postbag.Common.{ℕ, ◌+◌, ◌-◌, ◌*◌, ◌/◌, ◌^◌, Option, none, min, get_or_else}
use postbag.Delivery.Types.{DestinationType, webhook, email, telegram, other}

-- `num / den`
pub record Fraction : Type 0 where
  pub num : ℕ
  pub den : ℕ

pub record BackoffOptions : Type 0 where
  pub base : Option ℕ
  pub max : Option ℕ
  pub jitter_ratio : Option Fraction

abbrev pub default_base_ms : ℕ
default_base_ms = 30000

abbrev pub default_max_ms : ℕ
default_max_ms = 6 * 60 * 60 * 1000

abbrev pub default_jitter_ratio : Fraction
default_jitter_ratio = record { num = 1; den = 5 }

abbrev pub defaults : BackoffOptions
defaults = record { base = none; max = none; jitter_ratio = none }

unfoldable pub delay_ms : ℕ → BackoffOptions → ℕ
delay_ms attempts o =
    min (get_or_else o.base default_base_ms * 2 ^ attempts) (get_or_else o.max default_max_ms)

-- `Math.round(delay + delay * ratio * (random * 2 - 1))`, with `Math.round(x) = floor(x + 1/2)`;
-- the random number is cut to at most 1.
unfoldable pub jittered : ℕ → Fraction → Fraction → ℕ
jittered delay ratio random =
    (2
        * (delay
            * ((ratio.den - ratio.num) * random.den + 2 * (ratio.num * min random.num random.den)))
      + ratio.den * random.den)
    / (2 * ratio.den * random.den)

unfoldable pub next_attempt_at : ℕ → ℕ → BackoffOptions → Fraction → ℕ
next_attempt_at attempts now o random =
    now + jittered (delay_ms attempts o) (get_or_else o.jitter_ratio default_jitter_ratio) random

unfoldable pub max_attempts_for : DestinationType → ℕ
max_attempts_for webhook = 10
max_attempts_for email = 8
max_attempts_for telegram = 8
max_attempts_for (other t) = 8
