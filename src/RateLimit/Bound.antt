-- ===== src/RateLimit/Bound.antt =====
-- How many calls `consume` allows within a time.
use native.Mathlib.Nat.{le_refl}
use postbag.Common.{
  ℕ, ◌+◌, ◌*◌, ◌-◌, ◌≤◌, ◌<◌, ◌≡◌, refl, sym, ap, ◌∙◌, subst, Bool, true, false, ◌&&◌, Option, none,
  some, List, [], ◌∷◌, ◌==◌, ==_iff, ltb, leb, if◌then◌else◌, arith, inl, inr, Bool-cases, min,
  find, All,
}
use postbag.Routing.Types.{Key}
use postbag.RateLimit.Buckets.{
  Rate, part, full, Bucket, Limiter, has_name, put, is_recent, sweep, refilled, spend, consume,
}
use postbag.RateLimit.Levels.{
  IsSound, level_of, level, find-put_other, level-sweep, sweep-IsSound, put-IsSound,
}

refilled_lem :
    (r : Rate) (k : Key) (now : ℕ) (o : Option Bucket)
    → ((refilled r k now o).tokens ≡ level_of r now o)
      × ((refilled r k now o).key ≡ k)
      × ((refilled r k now o).updated_at ≡ now)
refilled_lem r k now none = (refl, refl, refl)
refilled_lem r k now (some b) = (refl, refl, refl)

level_full : (r : Rate) (now : ℕ) (o : Option Bucket) → level_of r now o ≤ full r
level_full r now none = le_refl _
level_full r now (some b) = omega arith

level-put :
    (r : Rate) (now : ℕ) (b : Bucket) (l : Limiter)
    → b.updated_at ≡ now
    → b.tokens ≤ full r
    → level r b.key now (record l { buckets = put b l.buckets }) ≡ b.tokens
level-put r now b l h e =
    let z : now - b.updated_at ≡ 0 = omega (arith, h) in
    rw ((==_iff b.key b.key).1 refl, z) (omega (arith, e))

-- The answer to a call, and the level it leaves.
abbrev Spent : Rate → Key → ℕ → ℕ → Limiter × Bool → Type 0
Spent r k now before o =
    (o.1 ≡ leb (part r) before) × (level r k now o.0 + (if o.1 then part r else 0) ≡ before)

spend_lem :
    (r : Rate) (now : ℕ) (b : Bucket) (l : Limiter)
    → b.updated_at ≡ now
    → b.tokens ≤ full r
    → Spent r b.key now b.tokens (spend r b l)
spend_lem r now b l h e = elim (Bool-cases (ltb b.tokens (part r))) [
  | inl f ↦ let p = level-put r now b l h e in rw f (ground arith, omega (arith, p))
  | inr f ↦
      let enough : part r ≤ b.tokens = ground arith in
      let p = level-put r now (record b { tokens = b.tokens - part r }) l h (omega (arith, e)) in
      rw f (ground arith, omega (arith, p, enough))
]

-- A call is allowed exactly when the key's level holds a token, which it then takes.
pub consume_lem :
    (r : Rate) (k : Key) (now : ℕ) (l : Limiter)
    → full r ≤ 600000 * r.num
    → IsSound now l
    → ((consume r k now l).1 ≡ leb (part r) (level r k now l))
      × (level r k now (consume r k now l).0 + (if (consume r k now l).1 then part r else 0)
          ≡ level r k now l)
unfolding consume
consume_lem r k now l h v =
    let o = find (has_name k) (sweep now l).buckets in
    let b = refilled r k now o in
    let (t, n, u) = refilled_lem r k now o in
    let s =
      spend_lem r now b (sweep now l) u (subst (λ z. z ≤ full r) (sym t) (level_full r now o)) in
    let same = t ∙ level-sweep r k now l h v.keys in
    subst (λ z. Spent r k now z (spend r b (sweep now l))) same
      (subst (λ z. Spent r z now b.tokens (spend r b (sweep now l))) n s)

find-spend :
    (s : Rate) (b : Bucket) (k : Key) (l : Limiter)
    → (b.key == k) ≡ false
    → find (has_name k) (spend s b l).0.buckets ≡ find (has_name k) l.buckets
find-spend s b k l h = elim (Bool-cases (ltb b.tokens (part s))) [
  | inl f ↦ rw f (find-put_other b k l.buckets h)
  | inr f ↦ rw f (find-put_other (record b { tokens = b.tokens - part s }) k l.buckets h)
]

spend-IsSound :
    (s : Rate) (now : ℕ) (b : Bucket) (l : Limiter)
    → b.updated_at ≡ now
    → IsSound now l
    → IsSound now (spend s b l).0
spend-IsSound s now b l h v = elim (Bool-cases (ltb b.tokens (part s))) [
  | inl f ↦ rw f (put-IsSound now b l (omega (arith, h)) v)
  | inr f ↦ rw f (put-IsSound now (record b { tokens = b.tokens - part s }) l (omega (arith, h)) v)
]

consume_other :
    (r s : Rate) (k j : Key) (now : ℕ) (l : Limiter)
    → full r ≤ 600000 * r.num
    → IsSound now l
    → (j == k) ≡ false
    → level r k now (consume s j now l).0 ≡ level r k now l
unfolding consume
consume_other r s k j now l h v ne =
    let b = refilled s j now (find (has_name j) (sweep now l).buckets) in
    let (_, n, _) = refilled_lem s j now (find (has_name j) (sweep now l).buckets) in
    ap (level_of r now) (find-spend s b k (sweep now l) (ap (λ z. z == k) n ∙ ne))
    ∙ level-sweep r k now l h v.keys

consume-IsSound :
    (r : Rate) (k : Key) (now : ℕ) (l : Limiter) → IsSound now l → IsSound now (consume r k now l).0
unfolding consume
consume-IsSound r k now l v =
    let (_, _, u) = refilled_lem r k now (find (has_name k) (sweep now l).buckets) in
    spend-IsSound r now _ (sweep now l) u (sweep-IsSound now l v)

later_past :
    (now later : ℕ) (bs : List Bucket)
    → now ≤ later
    → All (λ (b : Bucket). b.updated_at ≤ now) bs
    → All (λ (b : Bucket). b.updated_at ≤ later) bs
later_past now later [] h v = tt
later_past now later (b ∷ bs) h v = (omega (arith, h, v.0), later_past now later bs h v.1)

filled_up :
    (r : Rate) (now later tokens updated : ℕ)
    → updated ≤ now
    → now ≤ later
    → min (full r) (tokens + (later - updated) * r.num)
      ≤ min (full r) (tokens + (now - updated) * r.num) + (later - now) * r.num
filled_up r now later tokens updated u h =
    let e : later - updated ≡ (now - updated) + (later - now) = omega arith in
    omega (arith, ap (λ (t : ℕ). t * r.num) e)

-- Time adds at most its rate.
level_later :
    (r : Rate) (k : Key) (now later : ℕ) (bs : List Bucket)
    → All (λ (b : Bucket). b.updated_at ≤ now) bs
    → now ≤ later
    → level_of r later (find (has_name k) bs)
      ≤ level_of r now (find (has_name k) bs) + (later - now) * r.num
level_later r k now later [] v h = omega arith
level_later r k now later (b ∷ bs) v h = elim (Bool-cases (has_name k b)) [
  | inl e ↦ rw e (filled_up r now later b.tokens b.updated_at v.0 h)
  | inr e ↦ rw e (level_later r k now later bs v.1 h)
]

pub record Call : Type 0 where
  pub rate : Rate
  pub key : Key
  pub at : ℕ

-- How many of the calls for a key are allowed.
unfoldable pub allowed : Key → List Call → Limiter → ℕ
allowed k [] l = 0
allowed k (c ∷ calls) l =
    (if (c.key == k) && (consume c.rate c.key c.at l).1 then 1 else 0)
    + allowed k calls (consume c.rate c.key c.at l).0

-- The calls come in the order of their times, the first not before `t`.
abbrev pub Follow : ℕ → List Call → Type 0
Follow t [] = Unit
Follow t (c ∷ calls) = (t ≤ c.at) × Follow c.at calls

abbrev pub last_time : ℕ → List Call → ℕ
last_time t [] = t
last_time t (c ∷ calls) = last_time c.at calls

-- The calls for the key have one rate.
abbrev pub Rated : Rate → Key → List Call → Type 0
Rated r k calls = All (λ (c : Call). c.key ≡ k → c.rate ≡ r) calls

last_time_mono : (t : ℕ) (calls : List Call) → Follow t calls → t ≤ last_time t calls
last_time_mono t [] f = omega arith
last_time_mono t (c ∷ calls) f = omega (arith, f.0, last_time_mono c.at calls f.1)

one_call :
    (r : Rate) (k : Key) (c : Call) (l : Limiter)
    → full r ≤ 600000 * r.num
    → IsSound c.at l
    → (c.key ≡ k → c.rate ≡ r)
    → level r k c.at (consume c.rate c.key c.at l).0
        + (if (c.key == k) && (consume c.rate c.key c.at l).1 then part r else 0)
      ≡ level r k c.at l
one_call r k c l h v a = elim (Bool-cases (c.key == k)) [
  | inl e ↦
      let f : c.key ≡ k = (==_iff c.key k).0 e in
      let p : level r k c.at (consume c.rate c.key c.at l).0
            + (if (consume c.rate c.key c.at l).1 then part r else 0)
          ≡ level r k c.at l =
        subst
          (λ (s : Rate).
            level r k c.at (consume s c.key c.at l).0
              + (if (consume s c.key c.at l).1 then part r else 0)
            ≡ level r k c.at l)
          (sym (a f))
          (subst
            (λ (j : Key).
              level r k c.at (consume r j c.at l).0 + (if (consume r j c.at l).1 then part r else 0)
              ≡ level r k c.at l)
            (sym f) (consume_lem r k c.at l h v).1) in
      rw e p
  | inr e ↦ rw e (omega (arith, consume_other r c.rate k c.key c.at l h v e))
]

combine :
    (b : Bool) (count p after before start first rest all n : ℕ)
    → count * p ≤ after + rest * n
    → after + (if b then p else 0) ≡ before
    → before ≤ start + first * n
    → all ≡ first + rest
    → ((if b then 1 else 0) + count) * p ≤ start + all * n
combine true count p after before start first rest all n h k l m =
    omega (arith, h, k, l, ap (λ (z : ℕ). z * n) m)
combine false count p after before start first rest all n h k l m =
    omega (arith, h, k, l, ap (λ (z : ℕ). z * n) m)

bound_from :
    (r : Rate) (k : Key) (t : ℕ) (calls : List Call) (l : Limiter)
    → full r ≤ 600000 * r.num
    → IsSound t l
    → Follow t calls
    → Rated r k calls
    → allowed k calls l * part r ≤ level r k t l + (last_time t calls - t) * r.num
unfolding allowed
bound_from r k t [] l h v f a = omega arith
bound_from r k t (c ∷ calls) l h v f a =
    let w : IsSound c.at l = record {
      keys = v.keys;
      past = later_past t c.at l.buckets f.0 v.past;
    } in
    let next = (consume c.rate c.key c.at l).0 in
    combine ((c.key == k) && (consume c.rate c.key c.at l).1) (allowed k calls next) (part r)
      (level r k c.at next) (level r k c.at l) (level r k t l) (c.at - t)
      (last_time c.at calls - c.at) (last_time c.at calls - t) r.num
      (bound_from r k c.at calls next h (consume-IsSound c.rate c.key c.at l w) f.1 a.1)
      (one_call r k c l h w a.0) (level_later r k t c.at l.buckets v.past f.0)
      (omega (arith, f.0, last_time_mono c.at calls f.1))

-- Where ten minutes refill a bucket, the calls allowed for a key within a time are no more than the
-- burst and what the rate adds in that time, whatever calls for other keys, sweeps and refusals
-- come between, provided the calls come in the order of their times.
pub allowed_bound :
    (r : Rate) (k : Key) (t : ℕ) (calls : List Call) (l : Limiter)
    → full r ≤ 600000 * r.num
    → IsSound t l
    → Follow t calls
    → Rated r k calls
    → allowed k calls l * part r ≤ full r + (last_time t calls - t) * r.num
allowed_bound r k t calls l h v f a =
    omega (arith, bound_from r k t calls l h v f a, level_full r t (find (has_name k) l.buckets))

-- Where ten minutes do not refill a bucket, the sweep fills an idle one at once: the key's level is
-- the full burst, which was not reached yet.
pub sweep_fills :
    (r : Rate) (k : Key) (now : ℕ) (b : Bucket) (swept : ℕ)
    → b.key ≡ k
    → 600000 < now - b.updated_at
    → 60000 ≤ now - swept
    → b.tokens + (now - b.updated_at) * r.num < full r
    → (level r k now (sweep now (record { buckets = b ∷ []; last_sweep = swept })) ≡ full r)
      × (level r k now (record { buckets = b ∷ []; last_sweep = swept }) < full r)
unfolding sweep
sweep_fills r k now b swept e idle due low =
    let f : has_name k b ≡ true = (==_iff b.key k).1 e in
    let g : ltb (now - swept) 60000 ≡ false = ground arith in
    let i : is_recent now b ≡ false = ground arith in (rw (g, i) refl, rw f (omega (arith, low)))
