-- ===== src/Common/Keys.antt =====
-- Rows with a primary key: no two rows of a table have one key, and updates and deletions keep it.
use mathlib.Core.Option.{none, some}
use Prim.Native.Nat.{ℕ, ◌+◌}
use mathlib.Core.Path.{◌≡◌, refl, ap, subst, sym, ◌∙◌}
use mathlib.Core.Logic.{◌⊎◌, inl, inr}
use mathlib.Core.Bool.{Bool, true, false}
use mathlib.Core.List.{List, [], ◌∷◌, ◌++◌}
use native.Mathlib.Omega.{arith}
use postbag.Common.Tests.{◌==◌, if◌then◌else◌, Bool-cases, ==_iff}
use postbag.Common.Lists.{any, keep, modify, find, count_of, Has, Has-any, any-append}

module _ {A : Type 0} (key : A → ℕ) where
  abbrev pub has_key : List A → ℕ → Bool
  has_key xs k = any (λ x. key x == k) xs

  abbrev pub UniqueKeys : List A → Type 0
  UniqueKeys [] = Unit
  UniqueKeys (x ∷ xs) = (has_key xs (key x) ≡ false) × UniqueKeys xs

  pub no_key : (xs : List A) (k : ℕ) (a : A) → has_key xs k ≡ false → Has a xs → key a ≡ k → ⊥
  no_key xs k a f m e = cc (Has-any (λ x. key x == k) xs a m ((==_iff (key a) k).1 e), f)

  pub unique_key :
      (xs : List A) (a b : A) → UniqueKeys xs → Has a xs → Has b xs → key a ≡ key b → a ≡ b
  unique_key [] a b u m n e = absurd m
  unique_key (x ∷ xs) a b u (inl p) (inl q) e = sym p ∙ q
  unique_key (x ∷ xs) a b u (inl p) (inr n) e =
      absurd (no_key xs (key x) b u.0 n (sym e ∙ ap key (sym p)))
  unique_key (x ∷ xs) a b u (inr m) (inl q) e =
      absurd (no_key xs (key x) a u.0 m (e ∙ ap key (sym q)))
  unique_key (x ∷ xs) a b u (inr m) (inr n) e = unique_key xs a b u.1 m n e

  pub has_key-modify :
      (p : A → Bool) (f : A → A)
      → ((a : A) → key (f a) ≡ key a)
      → (xs : List A) (k : ℕ) → has_key (modify p f xs) k ≡ has_key xs k
  has_key-modify p f h [] k = refl
  has_key-modify p f h (x ∷ xs) k = ground (arith, h x, has_key-modify p f h xs k)

  pub UniqueKeys-modify :
      (p : A → Bool) (f : A → A)
      → ((a : A) → key (f a) ≡ key a)
      → (xs : List A) → UniqueKeys xs
      → UniqueKeys (modify p f xs)
  UniqueKeys-modify p f h [] u = tt
  UniqueKeys-modify p f h (x ∷ xs) u = (
    has_key-modify p f h xs _ ∙ ap (has_key xs) (same (Bool-cases (p x))) ∙ u.0,
    UniqueKeys-modify p f h xs u.1,
  )
    where
      same : ((p x ≡ true) ⊎ (p x ≡ false)) → key (if p x then f x else x) ≡ key x
      same (inl e) = rw e (h x)
      same (inr e) = rw e

  pub has_key-keep :
      (p : A → Bool) (xs : List A) (k : ℕ) → has_key xs k ≡ false → has_key (keep p xs) k ≡ false
  has_key-keep p [] k h = refl
  has_key-keep p (x ∷ xs) k h = ground (arith, has_key-keep p xs k)

  pub UniqueKeys-keep : (p : A → Bool) (xs : List A) → UniqueKeys xs → UniqueKeys (keep p xs)
  UniqueKeys-keep p [] u = tt
  UniqueKeys-keep p (x ∷ xs) u = elim (Bool-cases (p x)) [
    | inl e ↦ rw e (has_key-keep p xs (key x) u.0, UniqueKeys-keep p xs u.1)
    | inr e ↦ rw e (UniqueKeys-keep p xs u.1)
  ]

  pub UniqueKeys-append :
      (xs : List A) (a : A)
      → UniqueKeys xs
      → has_key xs (key a) ≡ false
      → UniqueKeys (xs ++ (a ∷ []))
  UniqueKeys-append [] a u h = (refl, tt)
  UniqueKeys-append (x ∷ xs) a u h =
      (rw any-append (ground arith), UniqueKeys-append xs a u.1 (ground arith))

module _ {A : Type 0} where
  pub count_of-append :
      (p : A → Bool) (xs ys : List A) → count_of p (xs ++ ys) ≡ count_of p xs + count_of p ys
  count_of-append p [] ys = omega arith
  count_of-append p (x ∷ xs) ys = omega (arith, count_of-append p xs ys)

  -- A deletion that spares what is counted does not change the count.
  pub count_of-keep :
      (p q : A → Bool)
      → ((a : A) → p a ≡ true → q a ≡ true)
      → (xs : List A) → count_of p (keep q xs) ≡ count_of p xs
  count_of-keep p q h [] = refl
  count_of-keep p q h (x ∷ xs) = ground (arith, h x, count_of-keep p q h xs)

  pub count_of-none : (p : A → Bool) (xs : List A) → any p xs ≡ false → count_of p xs ≡ 0
  count_of-none p [] h = refl
  count_of-none p (x ∷ xs) h = ground (arith, count_of-none p xs)

  pub find-none : (p : A → Bool) (xs : List A) → any p xs ≡ false → find p xs ≡ none
  find-none p [] h = refl
  find-none p (x ∷ xs) h = ground (arith, find-none p xs)

  pub find-Has : (p : A → Bool) (xs : List A) (a : A) → find p xs ≡ some a → Has a xs × (p a ≡ true)
  find-Has p [] a h = cc
  find-Has p (x ∷ xs) a h = elim (Bool-cases (p x)) [
    | inl e ↦ let f : x ≡ a = ground arith in (inl f, subst (λ z. p z ≡ true) f e)
    | inr e ↦ let (m, t) = find-Has p xs a (rw e at h) in (inr m, t)
  ]

  pub Has-keep_of : (p : A → Bool) (xs : List A) (a : A) → Has a xs → p a ≡ true → Has a (keep p xs)
  Has-keep_of p [] a m h = absurd m
  Has-keep_of p (x ∷ xs) a (inl e) h = rw (subst (λ z. p z ≡ true) (sym e) h) (inl e)
  Has-keep_of p (x ∷ xs) a (inr m) h = elim (Bool-cases (p x)) [
    | inl e ↦ rw e (inr (Has-keep_of p xs a m h))
    | inr e ↦ rw e (Has-keep_of p xs a m h)
  ]
