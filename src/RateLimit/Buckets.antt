-- ===== src/RateLimit/Buckets.antt =====
-- apps/server/src/lib/rateLimit.ts. Tokens are counted exactly, in fractions of a token, where the
-- code computes in doubles: a rate of num / den tokens each minute adds `num` of 60000 * den parts
-- of a token each millisecond.
use postbag.Common.{
  ℕ, ◌+◌, ◌*◌, ◌-◌, Bool, true, false, not, Option, none, some, List, ◌∷◌, ◌==◌, ltb, if◌then◌else◌,
  min, find, keep,
}
use postbag.Routing.Types.{Key}

-- The arguments `perMinute` and `burst` of a call.
pub record Rate : Type 0 where
  pub num : ℕ
  pub den : ℕ
  pub burst : ℕ

-- The parts of a token, and those of a full bucket.
abbrev pub part : Rate → ℕ
part r = 60000 * r.den

abbrev pub full : Rate → ℕ
full r = r.burst * part r

pub record Bucket : Type 0 where
  pub key : Key
  pub tokens : ℕ
  pub updated_at : ℕ

pub record Limiter : Type 0 where
  pub buckets : List Bucket
  pub last_sweep : ℕ

abbrev pub has_name : Key → Bucket → Bool
has_name k b = b.key == k

-- `buckets.set(key, bucket)`; the order of the map is never observed.
abbrev pub put : Bucket → List Bucket → List Bucket
put b buckets = b ∷ keep (λ (c : Bucket). not (has_name b.key c)) buckets

abbrev pub is_recent : ℕ → Bucket → Bool
is_recent now b = not (ltb (10 * 60000) (now - b.updated_at))

unfoldable pub sweep : ℕ → Limiter → Limiter
sweep now l =
    if ltb (now - l.last_sweep) 60000
    then l
    else record { buckets = keep (is_recent now) l.buckets; last_sweep = now }

-- The bucket of a key, filled up until now.
abbrev pub refilled : Rate → Key → ℕ → Option Bucket → Bucket
refilled r k now none = record { key = k; tokens = full r; updated_at = now }
refilled r k now (some b) = record {
  key = k;
  tokens = min (full r) (b.tokens + (now - b.updated_at) * r.num);
  updated_at = now;
}

abbrev pub spend : Rate → Bucket → Limiter → Limiter × Bool
spend r b l =
    if ltb b.tokens (part r)
    then (record l { buckets = put b l.buckets }, false)
    else (record l { buckets = put (record b { tokens = b.tokens - part r }) l.buckets }, true)

unfoldable pub consume : Rate → Key → ℕ → Limiter → Limiter × Bool
unfolding sweep
consume r k now l =
    let swept = sweep now l in spend r (refilled r k now (find (has_name k) swept.buckets)) swept
