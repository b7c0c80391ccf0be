-- ===== src/Common/Lists.antt =====
-- Lists measured and indexed by native numbers, and predicates over them by recursion.
use Prim.Native.Nat.{ℕ, zero, suc, ◌+◌, ◌≤◌, min}
use mathlib.Core.Path.{◌∙◌, ◌≡◌, refl, ap, subst, sym}
use mathlib.Core.Logic.{◌⊎◌, inl, inr}
use mathlib.Core.Bool.{Bool, true, false, ◌&&◌, ◌||◌}
use mathlib.Core.List.{List, [], ◌∷◌, ◌++◌}
use mathlib.Core.Option.{Option, none, some}
use native.Mathlib.Omega.{arith}
use postbag.Common.Tests.{if◌then◌else◌, Bool-cases}

module _ {ℓ} {A : Type ℓ} where
  abbrev pub length : List A → ℕ
  length [] = 0
  length (x ∷ xs) = suc (length xs)

  abbrev pub take : ℕ → List A → List A
  take zero xs = []
  take (suc n) [] = []
  take (suc n) (x ∷ xs) = x ∷ take n xs

  abbrev pub drop : ℕ → List A → List A
  drop zero xs = xs
  drop (suc n) [] = []
  drop (suc n) (x ∷ xs) = drop n xs

  abbrev pub get_elem? : List A → ℕ → Option A
  get_elem? [] i = none
  get_elem? (x ∷ xs) zero = some x
  get_elem? (x ∷ xs) (suc i) = get_elem? xs i

  -- `Array.prototype.some` and `every`
  abbrev pub any : (A → Bool) → List A → Bool
  any p [] = false
  any p (x ∷ xs) = p x || any p xs

  abbrev pub all : (A → Bool) → List A → Bool
  all p [] = true
  all p (x ∷ xs) = p x && all p xs

  -- `Array.prototype.filter`, on a Boolean test
  abbrev pub keep : (A → Bool) → List A → List A
  keep p [] = []
  keep p (x ∷ xs) = if p x then x ∷ keep p xs else keep p xs

  -- `Array.prototype.find`; also a query with `limit(1)`
  abbrev pub find : (A → Bool) → List A → Option A
  find p [] = none
  find p (x ∷ xs) = if p x then some x else find p xs

  -- `update … set … where`
  abbrev pub modify : (A → Bool) → (A → A) → List A → List A
  modify p f [] = []
  modify p f (x ∷ xs) = (if p x then f x else x) ∷ modify p f xs

  -- `count()`
  abbrev pub count_of : (A → Bool) → List A → ℕ
  count_of p [] = 0
  count_of p (x ∷ xs) = (if p x then 1 else 0) + count_of p xs

  abbrev pub All {κ} : (A → Type κ) → List A → Type κ
  All P [] = Unit
  All P (x ∷ xs) = P x × All P xs

  -- Membership with its position kept.
  abbrev pub Any : (A → Type 0) → List A → Type 0
  Any P [] = ⊥
  Any P (x ∷ xs) = P x ⊎ Any P xs

  pub length-append : (xs ys : List A) → length (xs ++ ys) ≡ length xs + length ys
  length-append [] ys = omega arith
  length-append (x ∷ xs) ys = omega (arith, length-append xs ys)

  pub length-take : (n : ℕ) (xs : List A) → length (take n xs) ≡ min n (length xs)
  length-take zero xs = omega arith
  length-take (suc n) [] = omega arith
  length-take (suc n) (x ∷ xs) = omega (arith, length-take n xs)

  pub take-append-drop : (n : ℕ) (xs : List A) → take n xs ++ drop n xs ≡ xs
  take-append-drop zero xs = refl
  take-append-drop (suc n) [] = refl
  take-append-drop (suc n) (x ∷ xs) = ap (λ r. x ∷ r) (take-append-drop n xs)

  pub take-length : (xs ys : List A) → take (length xs) (xs ++ ys) ≡ xs
  take-length [] ys = refl
  take-length (x ∷ xs) ys = ap (λ r. x ∷ r) (take-length xs ys)

  -- What stands behind the separator `x`.
  pub drop-length : (xs ys : List A) (x : A) → drop (suc (length xs)) (xs ++ (x ∷ ys)) ≡ ys
  drop-length [] ys x = refl
  drop-length (z ∷ xs) ys x = drop-length xs ys x

  pub length-keep : (p : A → Bool) (xs : List A) → length (keep p xs) ≤ length xs
  length-keep p [] = omega arith
  length-keep p (x ∷ xs) = ground (arith, length-keep p xs)

  pub length-modify : (p : A → Bool) (f : A → A) (xs : List A) → length (modify p f xs) ≡ length xs
  length-modify p f [] = refl
  length-modify p f (x ∷ xs) = ap suc (length-modify p f xs)

  pub any-append : (p : A → Bool) (xs ys : List A) → any p (xs ++ ys) ≡ (any p xs || any p ys)
  any-append p [] ys = refl
  any-append p (x ∷ xs) ys = ground (arith, any-append p xs ys)

  -- An invariant of each row survives an update that keeps it on the rows that the update meets.
  pub All-modify {κ} :
      {P : A → Type κ} (p : A → Bool) (f : A → A)
      → ((x : A) → p x ≡ true → P x → P (f x))
      → (xs : List A) → All P xs
      → All P (modify p f xs)
  All-modify p f k [] h = tt
  All-modify {P = P} p f k (x ∷ xs) h = (here (Bool-cases (p x)), All-modify p f k xs h.1)
    where
      here : ((p x ≡ true) ⊎ (p x ≡ false)) → P (if p x then f x else x)
      here (inl e) = rw e (k x e h.0)
      here (inr e) = rw e h.0

  pub All-keep {κ} : (P : A → Type κ) (p : A → Bool) (xs : List A) → All P xs → All P (keep p xs)
  All-keep P p [] h = tt
  All-keep P p (x ∷ xs) h = here (Bool-cases (p x)) (All-keep P p xs h.1)
    where
      here : ((p x ≡ true) ⊎ (p x ≡ false)) → All P (keep p xs) → All P (keep p (x ∷ xs))
      here (inl e) r = rw e (h.0, r)
      here (inr e) r = rw e r

  pub All-append {κ} : (P : A → Type κ) (xs ys : List A) → All P xs → All P ys → All P (xs ++ ys)
  All-append P [] ys h k = k
  All-append P (x ∷ xs) ys h k = (h.0, All-append P xs ys h.1 k)

  pub find_sound : (p : A → Bool) (xs : List A) (x : A) → find p xs ≡ some x → p x ≡ true
  find_sound p [] x h = cc
  find_sound p (y ∷ ys) x h = ground (arith, find_sound p ys x)

module _ {A : Type 0} where
  -- The first row that an update meets is the first one still.
  pub find-modify :
      (p : A → Bool) (f : A → A)
      → ((a : A) → p a ≡ true → p (f a) ≡ true)
      → (xs : List A) (a : A) → find p xs ≡ some a
      → find p (modify p f xs) ≡ some (f a)
  find-modify p f k [] a h = cc
  find-modify p f k (x ∷ xs) a h = elim (Bool-cases (p x)) [
    | inl e ↦ let g : x ≡ a = ground arith in rw (e, k x e) (ap (λ z. some (f z)) g)
    | inr e ↦ rw (e, e) (find-modify p f k xs a (rw e at h))
  ]

-- Membership of rows, with its position, and what the list functions keep of it.
module _ {A : Type 0} where
  abbrev pub Has : A → List A → Type 0
  Has a xs = Any (λ x. x ≡ a) xs

  pub Has-take : (n : ℕ) (xs : List A) (a : A) → Has a (take n xs) → Has a xs
  Has-take zero xs a h = absurd h
  Has-take (suc n) [] a h = absurd h
  Has-take (suc n) (x ∷ xs) a (inl e) = inl e
  Has-take (suc n) (x ∷ xs) a (inr h) = inr (Has-take n xs a h)

  pub Has-keep : (p : A → Bool) (xs : List A) (a : A) → Has a (keep p xs) → Has a xs × (p a ≡ true)
  Has-keep p [] a h = absurd h
  Has-keep p (x ∷ xs) a h = elim (Bool-cases (p x)) [
    | inl e ↦ elim (kept e h) [
      | inl f ↦ (inl f, subst (λ z. p z ≡ true) f e)
      | inr k ↦ let r = Has-keep p xs a k in (inr r.0, r.1)
    ]
    | inr e ↦ let r = Has-keep p xs a (dropped e h) in (inr r.0, r.1)
  ]
    where
      kept :
          p x ≡ true
          → Has a (if p x then x ∷ keep p xs else keep p xs)
          → (x ≡ a) ⊎ Has a (keep p xs)
      kept e k = rw e at k

      dropped : p x ≡ false → Has a (if p x then x ∷ keep p xs else keep p xs) → Has a (keep p xs)
      dropped e k = rw e at k

  pub All-Has {κ} : (P : A → Type κ) (xs : List A) (a : A) → All P xs → Has a xs → P a
  All-Has P [] a h m = absurd m
  All-Has P (x ∷ xs) a h (inl e) = subst P e h.0
  All-Has P (x ∷ xs) a h (inr m) = All-Has P xs a h.1 m

  pub All-of-Has {κ} : (P : A → Type κ) (xs : List A) → ((a : A) → Has a xs → P a) → All P xs
  All-of-Has P [] f = tt
  All-of-Has P (x ∷ xs) f = (f x (inl refl), All-of-Has P xs (λ a m. f a (inr m)))

  pub any-Has : (p : A → Bool) (xs : List A) → any p xs ≡ true → (a : A) × Has a xs × (p a ≡ true)
  any-Has p [] h = cc
  any-Has p (x ∷ xs) h = elim (Bool-cases (p x)) [
    | inl e ↦ (x, inl refl, e)
    | inr e ↦ let r = any-Has p xs (ground arith) in (r.0, inr r.1, r.2)
  ]

  pub Has-any : (p : A → Bool) (xs : List A) (a : A) → Has a xs → p a ≡ true → any p xs ≡ true
  Has-any p [] a m h = absurd m
  Has-any p (x ∷ xs) a (inl e) h = let k = subst (λ z. p z ≡ true) (sym e) h in ground arith
  Has-any p (x ∷ xs) a (inr m) h = ground (arith, Has-any p xs a m h)

  pub modify_ext :
      (p q : A → Bool) (f : A → A) (xs : List A)
      → ((a : A) → Has a xs → p a ≡ q a)
      → modify p f xs ≡ modify q f xs
  modify_ext p q f [] h = refl
  modify_ext p q f (x ∷ xs) h =
      ap (λ (b : Bool). (if b then f x else x) ∷ modify p f xs) (h x (inl refl))
      ∙ ap (λ (r : List A). (if q x then f x else x) ∷ r) (modify_ext p q f xs (λ a m. h a (inr m)))

  -- An update keeps the rows that it does not meet.
  pub Has-unmodified :
      (p : A → Bool) (f : A → A) (xs : List A) (a : A)
      → Has a xs
      → p a ≡ false
      → Has a (modify p f xs)
  Has-unmodified p f [] a m h = absurd m
  Has-unmodified p f (x ∷ xs) a (inl e) h =
      let g : p x ≡ false = subst (λ z. p z ≡ false) (sym e) h in inl (rw g e)
  Has-unmodified p f (x ∷ xs) a (inr m) h = inr (Has-unmodified p f xs a m h)

  pub Has-modify :
      (p : A → Bool) (f : A → A) (xs : List A) (a : A)
      → Has a (modify p f xs)
      → (x : A) × Has x xs × (((p x ≡ true) × (a ≡ f x)) ⊎ ((p x ≡ false) × (a ≡ x)))
  Has-modify p f [] a h = absurd h
  Has-modify p f (x ∷ xs) a (inl e) = elim (Bool-cases (p x)) [
    | inl t ↦ (x, inl refl, inl (t, sym (rw t at e)))
    | inr t ↦ (x, inl refl, inr (t, sym (rw t at e)))
  ]
  Has-modify p f (x ∷ xs) a (inr m) = let (y, n, k) = Has-modify p f xs a m in (y, inr n, k)

  pub Has-append : (xs ys : List A) (a : A) → Has a (xs ++ ys) → Has a xs ⊎ Has a ys
  Has-append [] ys a h = inr h
  Has-append (x ∷ xs) ys a (inl e) = inl (inl e)
  Has-append (x ∷ xs) ys a (inr m) = elim (Has-append xs ys a m) [
    | inl k ↦ inl (inr k)
    | inr k ↦ inr k
  ]
