-- ===== src/Delivery/Waits.antt =====
-- How long a failed delivery waits.
use native.Mathlib.Nat.{div-add-mod, mod-lt, mul-le-mul_left, pow-suc, mul_assoc}
use postbag.Common.{ℕ, suc, ◌+◌, ◌-◌, ◌*◌, ◌/◌, ◌%◌, ◌^◌, ◌≤◌, ◌<◌, ◌≡◌, min, get_or_else, arith}
use postbag.Delivery.Backoff.{
  Fraction, BackoffOptions, default_base_ms, default_jitter_ratio, defaults, delay_ms, jittered,
  next_attempt_at,
}

cancel : (x y d : ℕ) → 0 < d → x * d ≤ y * d → x ≤ y
cancel x y d h k = grind arith

cancel_lt : (x y d : ℕ) → x * d < y * d → x < y
cancel_lt x y d k = grind arith

-- Rounded division by `w * d` of a number between `l * d` and `u * d`.
rounded :
    (n w d l u : ℕ)
    → 0 < w
    → 0 < d
    → l * d ≤ n
    → n ≤ u * d
    → (l < w * (n / (w * d)) + w) × (w * (n / (w * d)) ≤ u)
rounded n w d l u h k a b =
    let e = div-add-mod n (w * d) in
    let m : n % (w * d) < w * d = mod-lt n (grind arith) in
    (
      cancel_lt l (w * (n / (w * d)) + w) d (omega (arith, e, m, a)),
      cancel (w * (n / (w * d))) u d k (omega (arith, e, b)),
    )

-- The number that is rounded, with `a + num ≡ den` and a random number `m` of `d`.
numerator_bounds :
    (delay a num den m d : ℕ)
    → a + num ≡ den
    → m ≤ d
    → ((2 * (a * delay) + den) * d ≤ 2 * (delay * (a * d + 2 * (num * m))) + den * d)
      × (2 * (delay * (a * d + 2 * (num * m))) + den * d ≤ (2 * ((den + num) * delay) + den) * d)
numerator_bounds delay a num den m d e h = (omega arith, rw (← e) (omega (arith, scaled)))
  where
    scaled : delay * (num * m) ≤ delay * (num * d)
    scaled = mul-le-mul_left delay (mul-le-mul_left num h)

-- The spread around the delay is the jitter ratio of it, up to the rounding by half a millisecond.
jittered_bounds :
    (delay : ℕ) (ratio random : Fraction)
    → 0 < ratio.den
    → ratio.num ≤ ratio.den
    → 0 < random.den
    → (2 * ((ratio.den - ratio.num) * delay)
        < 2 * ratio.den * jittered delay ratio random + ratio.den)
      × (2 * ratio.den * jittered delay ratio random
          ≤ 2 * ((ratio.den + ratio.num) * delay) + ratio.den)
unfolding jittered
jittered_bounds delay ratio random h k l =
    let b =
      numerator_bounds delay (ratio.den - ratio.num) ratio.num ratio.den (min random.num random.den)
        random.den (omega arith) (omega arith) in
    let r = rounded _ (2 * ratio.den) random.den _ _ (omega arith) l b.0 b.1 in
    (omega (arith, r.0), r.1)

pub delay_ms_mono :
    (attempts : ℕ) (o : BackoffOptions) → delay_ms attempts o ≤ delay_ms (suc attempts) o
unfolding delay_ms
delay_ms_mono attempts o =
    rw pow-suc (omega (arith, mul_assoc (get_or_else o.base default_base_ms) (2 ^ attempts) 2))

-- With the default options the wait is within a fifth of the delay, up to rounding, whatever the
-- random number; it never passes 7.2 hours; and the delay does not fall with the attempts.
pub next_attempt_at_bounds :
    (attempts now : ℕ) (random : Fraction)
    → 0 < random.den
    → let delay = delay_ms attempts defaults in
      let next = next_attempt_at attempts now defaults random in
      (10 * now + 8 * delay < 10 * next + 5)
      × (10 * next ≤ 10 * now + 12 * delay + 5)
      × (next ≤ now + 25920000)
      × (delay ≤ delay_ms (suc attempts) defaults)
unfolding next_attempt_at
next_attempt_at_bounds attempts now random h =
    let b =
      jittered_bounds (delay_ms attempts defaults) default_jitter_ratio random (omega arith)
        (omega arith) h in
    let c = capped attempts in
    (omega (arith, b.0), omega (arith, b.1), omega (arith, b.1, c), delay_ms_mono attempts defaults)
  where
    capped : (attempts : ℕ) → delay_ms attempts defaults ≤ 21600000
    capped attempts = unfold delay_ms in omega arith
