-- ===== src/RateLimit/Levels.antt =====
-- The level of a key: the parts of a token that a call would find. Sweeping and calls for other keys
-- leave it, a call for the key takes a token off it, and time adds the rate.
use postbag.Common.{
  ℕ, ◌+◌, ◌*◌, ◌-◌, ◌≤◌, ◌<◌, ◌≡◌, refl, sym, ap, ◌∙◌, Bool, true, false, not, Option, none, some,
  List, [], ◌∷◌, ◌==◌, ==_iff, ltb, arith, ◌⊎◌, inl, inr, Bool-cases, min, find, find-none,
  find_sound, keep, All, UniqueKeys, UniqueKeys-keep, has_key, All-keep,
}
use postbag.Routing.Types.{Key}
use postbag.RateLimit.Buckets.{Rate, full, Bucket, Limiter, has_name, put, is_recent, sweep}

abbrev pub bucket_key : Bucket → ℕ
bucket_key b = b.key

-- At most one bucket for each key, none of which was touched after `now`.
pub record IsSound (now : ℕ) (l : Limiter) : Type 0 where
  pub keys : UniqueKeys bucket_key l.buckets
  pub past : All (λ (b : Bucket). b.updated_at ≤ now) l.buckets

abbrev pub level_of : Rate → ℕ → Option Bucket → ℕ
level_of r now none = full r
level_of r now (some b) = min (full r) (b.tokens + (now - b.updated_at) * r.num)

abbrev pub level : Rate → Key → ℕ → Limiter → ℕ
level r k now l = level_of r now (find (has_name k) l.buckets)

find_kept :
    (p : Bucket → Bool) (k : Key) (bs : List Bucket) (b : Bucket)
    → find (has_name k) bs ≡ some b
    → p b ≡ true
    → find (has_name k) (keep p bs) ≡ some b
find_kept p k [] b h e = cc
find_kept p k (c ∷ bs) b h e = elim (Bool-cases (has_name k c)) [
  | inl f ↦ let g : c ≡ b = ground arith in rw (ap p g ∙ e) (rw f (ap some g))
  | inr f ↦
      let ih = find_kept p k bs b (rw f at h) e in
      elim (Bool-cases (p c)) [ inl t ↦ rw t (rw f ih) | inr t ↦ rw t ih ]
]

find_lost :
    (p : Bucket → Bool) (k : Key) (bs : List Bucket)
    → find (has_name k) bs ≡ none
    → find (has_name k) (keep p bs) ≡ none
find_lost p k [] h = refl
find_lost p k (c ∷ bs) h = ground (arith, find_lost p k bs)

find_dropped :
    (p : Bucket → Bool) (k : Key) (bs : List Bucket) (b : Bucket)
    → UniqueKeys bucket_key bs
    → find (has_name k) bs ≡ some b
    → p b ≡ false
    → find (has_name k) (keep p bs) ≡ none
find_dropped p k [] b u h e = cc
find_dropped p k (c ∷ bs) b u h e = elim (Bool-cases (has_name k c)) [
  | inl f ↦
      let g : c ≡ b = ground arith in
      let k_is : c.key ≡ k = (==_iff c.key k).0 f in
      rw (ap p g ∙ e)
        (find_lost p k bs (find-none (has_name k) bs (ap (has_key bucket_key bs) (sym k_is) ∙ u.0)))
  | inr f ↦
      let ih = find_dropped p k bs b u.1 (rw f at h) e in
      elim (Bool-cases (p c)) [ inl t ↦ rw t (rw f ih) | inr t ↦ rw t ih ]
]

Option-choice : (o : Option Bucket) → ((b : Bucket) × (o ≡ some b)) ⊎ (o ≡ none)
Option-choice none = inr refl
Option-choice (some b) = inl (b, refl)

pub find-put_other :
    (b : Bucket) (k : Key) (bs : List Bucket)
    → (b.key == k) ≡ false
    → find (has_name k) (put b bs) ≡ find (has_name k) bs
find-put_other b k bs h = rw h (elim (Option-choice (find (has_name k) bs)) [
  | inl (c, e) ↦
      find_kept (λ (c : Bucket). not (has_name b.key c)) k bs c e
        (other c (find_sound (has_name k) bs c e))
      ∙ sym e
  | inr e ↦ find_lost (λ (c : Bucket). not (has_name b.key c)) k bs e ∙ sym e
])
  where
    other : (c : Bucket) → has_name k c ≡ true → not (has_name b.key c) ≡ true
    other c f = ground arith

-- An idle bucket is full, if the burst is refilled within ten minutes.
idle_full :
    (r : Rate) (now tokens updated : ℕ)
    → full r ≤ 600000 * r.num
    → 600000 < now - updated
    → min (full r) (tokens + (now - updated) * r.num) ≡ full r
idle_full r now tokens updated h d =
    let e : now - updated ≡ 600000 + ((now - updated) - 600000) = omega arith in
    omega (arith, h, ap (λ (t : ℕ). t * r.num) e)

-- The sweep forgets only what a new bucket would be like.
pub level-sweep :
    (r : Rate) (k : Key) (now : ℕ) (l : Limiter)
    → full r ≤ 600000 * r.num
    → UniqueKeys bucket_key l.buckets
    → level r k now (sweep now l) ≡ level r k now l
unfolding sweep
level-sweep r k now l h u = elim (Bool-cases (ltb (now - l.last_sweep) 60000)) [
  | inl e ↦ rw e refl
  | inr e ↦ rw e (elim (Option-choice (find (has_name k) l.buckets)) [
    | inl (b, f) ↦ elim (Bool-cases (is_recent now b)) [
      | inl t ↦ ap (level_of r now) (find_kept (is_recent now) k l.buckets b f t ∙ sym f)
      | inr t ↦
          ap (level_of r now) (find_dropped (is_recent now) k l.buckets b u f t)
          ∙ (sym (idle_full r now b.tokens b.updated_at h (ground arith))
              ∙ sym (ap (level_of r now) f))
    ]
    | inr f ↦ ap (level_of r now) (find_lost (is_recent now) k l.buckets f ∙ sym f)
  ])
]

pub sweep-IsSound : (now : ℕ) (l : Limiter) → IsSound now l → IsSound now (sweep now l)
unfolding sweep
sweep-IsSound now l v = elim (Bool-cases (ltb (now - l.last_sweep) 60000)) [
  | inl e ↦ rw e v
  | inr e ↦ rw e (record {
    keys = UniqueKeys-keep bucket_key (is_recent now) l.buckets v.keys;
    past = All-keep (λ (b : Bucket). b.updated_at ≤ now) (is_recent now) l.buckets v.past;
  })
]

pub put-IsSound :
    (now : ℕ) (b : Bucket) (l : Limiter)
    → b.updated_at ≤ now
    → IsSound now l
    → IsSound now (record l { buckets = put b l.buckets })
put-IsSound now b l h v = record {
  keys = (
    no_name l.buckets,
    UniqueKeys-keep bucket_key (λ (c : Bucket). not (has_name b.key c)) l.buckets v.keys,
  );
  past = (
    h,
    All-keep (λ (b : Bucket). b.updated_at ≤ now) (λ (c : Bucket). not (has_name b.key c)) l.buckets
        v.past,
  );
}
  where
    no_name :
        (bs : List Bucket)
        → has_key bucket_key (keep (λ (c : Bucket). not (has_name b.key c)) bs) b.key ≡ false
    no_name [] = refl
    no_name (c ∷ bs) = ground (arith, no_name bs)
