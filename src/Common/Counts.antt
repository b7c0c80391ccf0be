-- ===== src/Common/Counts.antt =====
-- What an update or a deletion of the row under one key does to a count.
use Prim.Native.Nat.{ℕ, ◌+◌}
use mathlib.Core.Path.{◌≡◌, refl, subst, sym}
use mathlib.Core.Logic.{inl, inr}
use mathlib.Core.Bool.{Bool, false, not}
use mathlib.Core.List.{List, [], ◌∷◌}
use native.Mathlib.Omega.{arith}
use postbag.Common.Tests.{◌==◌, if◌then◌else◌, Bool-cases, ==_iff}
use postbag.Common.Lists.{keep, modify, count_of, Has}
use postbag.Common.Keys.{has_key, UniqueKeys, no_key}

module _ {A : Type 0} (key : A → ℕ) (p : A → Bool) where
  keep_absent :
      (k : ℕ) (xs : List A) → has_key key xs k ≡ false → keep (λ x. not (key x == k)) xs ≡ xs
  keep_absent k [] h = refl
  keep_absent k (x ∷ xs) h = ground (arith, keep_absent k xs)

  modify_absent :
      (k : ℕ) (f : A → A) (xs : List A)
      → has_key key xs k ≡ false
      → modify (λ x. key x == k) f xs ≡ xs
  modify_absent k f [] h = refl
  modify_absent k f (x ∷ xs) h = ground (arith, modify_absent k f xs)

  -- A deletion takes away one row, if it counted.
  pub count_of-without :
      (t : A) (xs : List A)
      → UniqueKeys key xs
      → Has t xs
      → count_of p (keep (λ x. not (key x == key t)) xs) + (if p t then 1 else 0) ≡ count_of p xs
  count_of-without t [] u m = absurd m
  count_of-without t (x ∷ xs) u (inl e) =
      subst
        (λ z.
          count_of p (keep (λ x. not (key x == key z)) (x ∷ xs)) + (if p z then 1 else 0)
          ≡ count_of p (x ∷ xs))
        e (rw ((==_iff (key x) (key x)).1 refl, keep_absent (key x) xs u.0) (omega arith))
  count_of-without t (x ∷ xs) u (inr m) = elim (Bool-cases (key x == key t)) [
    | inl f ↦ absurd (no_key key xs (key x) t u.0 m (sym ((==_iff (key x) (key t)).0 f)))
    | inr f ↦ rw f (omega (arith, count_of-without t xs u.1 m))
  ]

  -- An update changes the count by what it makes of its row.
  pub count_of-updated :
      (f : A → A) (t : A) (xs : List A)
      → UniqueKeys key xs
      → Has t xs
      → count_of p (modify (λ x. key x == key t) f xs) + (if p t then 1 else 0)
        ≡ count_of p xs + (if p (f t) then 1 else 0)
  count_of-updated f t [] u m = absurd m
  count_of-updated f t (x ∷ xs) u (inl e) =
      subst
        (λ z.
          count_of p (modify (λ x. key x == key z) f (x ∷ xs)) + (if p z then 1 else 0)
          ≡ count_of p (x ∷ xs) + (if p (f z) then 1 else 0))
        e (rw ((==_iff (key x) (key x)).1 refl, modify_absent (key x) f xs u.0) (omega arith))
  count_of-updated f t (x ∷ xs) u (inr m) = elim (Bool-cases (key x == key t)) [
    | inl g ↦ absurd (no_key key xs (key x) t u.0 m (sym ((==_iff (key x) (key t)).0 g)))
    | inr g ↦ rw g (omega (arith, count_of-updated f t xs u.1 m))
  ]
