-- ===== src/Submission/Depth.antt =====
-- Which values `normalizeValue` refuses.
use postbag.Common.{
  ℕ, suc, ◌+◌, ◌≤◌, ◌<◌, max, ◌≡◌, refl, ap, subst, sym, Bool, true, false, ◌&&◌, ltb, leb, arith,
}
use postbag.Errors.{ErrorCode, Result, err, ok, ◌>>=◌, ◌>>◌, throw_if, payload_too_large}
use postbag.Json.Values.{
  Value, Items, Fields, null, bool, num, str, arr, obj, nil, item, end, field,
}
use postbag.Submission.Normalize.{
  normalize_value, normalize_items, normalize_fields, assign_new, max_depth,
}

-- The levels of a value; a value without values inside has one.
unfoldable mutual
  pub height : Value → ℕ
  height null = 1
  height (bool b) = 1
  height (num n) = 1
  height (str s) = 1
  height (arr xs) = suc (height_items xs)
  height (obj fs) = suc (height_fields fs)

  pub height_items : Items → ℕ
  height_items nil = 0
  height_items (item x xs) = max (height x) (height_items xs)

  pub height_fields : Fields → ℕ
  height_fields end = 0
  height_fields (field k v fs) = max (height v) (height_fields fs)

-- A call returns where the test holds, and throws `payload_too_large` where it does not.
abbrev Settled : {A : Type 0} → Bool → Result A → Type 0
Settled true (ok a) = Unit
Settled true (err e) = ⊥
Settled false (ok a) = ⊥
Settled false (err e) = e ≡ payload_too_large

true≢false : true ≡ false → ⊥
true≢false e = cc

Settled-guard :
    {A : Type 0} (t b : Bool) (r : Result A)
    → (t ≡ true → b ≡ false)
    → (t ≡ false → Settled b r)
    → Settled b (throw_if t payload_too_large >> r)
Settled-guard true true r h k = let e : true ≡ false = h refl in absurd (true≢false e)
Settled-guard true false r h k = refl
Settled-guard false b r h k = k refl

Settled-map :
    {A B : Type 0} (b : Bool) (f : A → B) (r : Result A)
    → Settled b r
    → Settled b (r >>= (λ a. ok (f a)))
Settled-map true f (ok a) h = h
Settled-map true f (err e) h = h
Settled-map false f (ok a) h = h
Settled-map false f (err e) h = h

Settled-both :
    {A B C : Type 0} (a b : Bool) (f : A → B → C) (r : Result A) (q : Result B)
    → Settled a r
    → Settled b q
    → Settled (a && b) (r >>= (λ x. q >>= (λ y. ok (f x y))))
Settled-both true b f (ok x) q h k = Settled-map b (f x) q k
Settled-both true b f (err e) q h k = absurd h
Settled-both false b f (ok x) q h k = absurd h
Settled-both false b f (err e) q h k = h

leb-max : (d a b : ℕ) → leb (d + max a b) 13 ≡ (leb (d + a) 13 && leb (d + b) 13)
leb-max d a b = ground arith

leaf-Settled :
    (v : Value) (d : ℕ)
    → Settled (leb (d + 1) 13) (throw_if (ltb max_depth d) payload_too_large >> ok v)
leaf-Settled v d =
    Settled-guard (ltb max_depth d) (leb (d + 1) 13) (ok v) (λ h. ground arith)
      (λ h. let e : true ≡ leb (d + 1) 13 = ground arith in subst (λ b. Settled b (ok v)) e tt)

deeper :
    {A : Type 0} (d n : ℕ) (r : Result A)
    → (d ≤ 12 → Settled (leb (suc d + n) 13) r)
    → Settled (leb (d + suc n) 13) (throw_if (ltb max_depth d) payload_too_large >> r)
deeper d n r h =
    let e : suc d + n ≡ d + suc n = omega arith in
    Settled-guard (ltb max_depth d) (leb (d + suc n) 13) r (λ h. ground arith)
      (λ k. subst (λ m. Settled (leb m 13) r) e (h (ground arith)))

empty-Settled : {A : Type 0} (a : A) (d : ℕ) → d ≤ 13 → Settled (leb (d + 0) 13) (ok a)
empty-Settled a d l =
    let e : true ≡ leb (d + 0) 13 = ground arith in subst (λ b. Settled b (ok a)) e tt

mutual
  unfolding normalize_value height

  normalize_value-Settled :
      (v : Value) (d : ℕ) → Settled (leb (d + height v) 13) (normalize_value v d)
  normalize_value-Settled null d = leaf-Settled null d
  normalize_value-Settled (bool b) d = leaf-Settled (bool b) d
  normalize_value-Settled (num n) d = leaf-Settled (num n) d
  normalize_value-Settled (str s) d = leaf-Settled _ d
  normalize_value-Settled (arr xs) d =
      deeper d (height_items xs) _
        (λ l. Settled-map _ arr _ (normalize_items-Settled xs (suc d) (omega (arith, l))))
  normalize_value-Settled (obj fs) d =
      deeper d (height_fields fs) _
        (λ l. Settled-map _ obj _ (normalize_fields-Settled fs (suc d) (omega (arith, l))))

  normalize_items-Settled :
      (xs : Items) (d : ℕ) → d ≤ 13 → Settled (leb (d + height_items xs) 13) (normalize_items xs d)
  normalize_items-Settled nil d l = empty-Settled nil d l
  normalize_items-Settled (item x xs) d l =
      subst (λ b. Settled b (normalize_items (item x xs) d))
        (sym (leb-max d (height x) (height_items xs)))
        (Settled-both _ _ item _ _ (normalize_value-Settled x d) (normalize_items-Settled xs d l))

  normalize_fields-Settled :
      (fs : Fields) (d : ℕ)
      → d ≤ 13
      → Settled (leb (d + height_fields fs) 13) (normalize_fields fs d)
  normalize_fields-Settled end d l = empty-Settled end d l
  normalize_fields-Settled (field k v fs) d l =
      subst (λ b. Settled b (normalize_fields (field k v fs) d))
        (sym (leb-max d (height v) (height_fields fs)))
        (Settled-both _ _ (assign_new k) _ _ (normalize_value-Settled v d)
          (normalize_fields-Settled fs d l))

returned : {A : Type 0} (r : Result A) → Settled true r → (a : A) × (r ≡ ok a)
returned (ok a) h = (a, refl)
returned (err e) h = absurd h

refused : {A : Type 0} (r : Result A) → Settled false r → r ≡ err payload_too_large
refused (ok a) h = absurd h
refused (err e) h = ap err h

-- `normalizeValue` returns exactly for the values whose levels, counted from the depth it is called
-- with, go no deeper than twelve; any other value is refused with `payload_too_large`.
pub normalize_value-height :
    (v : Value) (d : ℕ)
    → (d + height v ≤ max_depth + 1 → (w : Value) × (normalize_value v d ≡ ok w))
      × (max_depth + 1 < d + height v → normalize_value v d ≡ err payload_too_large)
normalize_value-height v d = (
  λ h.
      let e : leb (d + height v) 13 ≡ true = ground arith in
      returned _ (subst (λ b. Settled b (normalize_value v d)) e (normalize_value-Settled v d)),
  λ h.
      let e : leb (d + height v) 13 ≡ false = ground arith in
      refused _ (subst (λ b. Settled b (normalize_value v d)) e (normalize_value-Settled v d)),
)

-- No other error is thrown.
pub normalize_value-err :
    (v : Value) (d : ℕ) (e : ErrorCode) → normalize_value v d ≡ err e → e ≡ payload_too_large
normalize_value-err v d e h =
    code (leb (d + height v) 13)
      (subst (Settled (leb (d + height v) 13)) h (normalize_value-Settled v d))
  where
    code : (b : Bool) → Settled {A = Value} b (err e) → e ≡ payload_too_large
    code true k = absurd k
    code false k = k
