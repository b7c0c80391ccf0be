-- ===== src/Core/ConstantTime.antt =====
-- The comparison in constant time is equality.
use native.Mathlib.Decide.{ℕ_discrete}
use Prim.Native.Nat.{bit_or, bit_xor, digits, differ, bit_or-bitwise, bit_xor-bitwise}
use postbag.Common.{
  ℕ, zero, suc, ◌+◌, ◌/◌, ◌%◌, ◌≤◌, ◌<◌, max, ◌≡◌, refl, sym, ap, ◌∙◌, true, List, [], ◌∷◌, ==_iff,
  arith, length, ◌↔◌,
}
use postbag.Core.Signing.{byte_at, difference_from, constant_time_equal}

differ_zero : (x y : ℕ) → differ x y ≡ 0 → x ≡ y
differ_zero zero y h = sym h
differ_zero (suc x) zero h = absurd (omega arith)
differ_zero (suc x) (suc y) h = ap suc (differ_zero x y h)

differ_same : (x : ℕ) → differ x x ≡ 0
differ_same zero = refl
differ_same (suc x) = differ_same x

xor_digits_zero : (n a b : ℕ) → a ≤ n → digits (λ b. b) differ n a b ≡ 0 → a ≡ b
xor_digits_zero zero a b l h = omega arith
xor_digits_zero (suc n) zero b l h = sym h
xor_digits_zero (suc n) (suc a) b l h =
    let d = differ_zero (suc a % 2) (b % 2) (omega arith) in
    let q = xor_digits_zero n (suc a / 2) (b / 2) (omega arith) (omega arith) in omega arith

xor_digits_same : (n a : ℕ) → a ≤ n → digits (λ b. b) differ n a a ≡ 0
xor_digits_same zero a l = omega arith
xor_digits_same (suc n) zero l = refl
xor_digits_same (suc n) (suc a) l =
    omega (arith, xor_digits_same n (suc a / 2) (omega arith), differ_same (suc a % 2))

or_digits_zero : (n a b : ℕ) → a ≤ n → digits (λ b. b) max n a b ≡ 0 → (a ≡ 0) × (b ≡ 0)
or_digits_zero zero a b l h = (omega arith, h)
or_digits_zero (suc n) zero b l h = (refl, h)
or_digits_zero (suc n) (suc a) b l h =
    let q = or_digits_zero n (suc a / 2) (b / 2) (omega arith) (omega arith) in absurd (omega arith)

xor_zero : (a b : ℕ) → bit_xor a b ≡ 0 → a ≡ b
xor_zero a b h = xor_digits_zero a a b (omega arith) (sym (bit_xor-bitwise a b) ∙ h)

xor_same : (a : ℕ) → bit_xor a a ≡ 0
xor_same a = bit_xor-bitwise a a ∙ xor_digits_same a a (omega arith)

or_zero : (a b : ℕ) → bit_or a b ≡ 0 → (a ≡ 0) × (b ≡ 0)
or_zero a b h = or_digits_zero a a b (omega arith) (sym (bit_or-bitwise a b) ∙ h)

-- No difference was found, so there was none.
difference_zero :
    (left right : List ℕ) (count index d : ℕ)
    → difference_from left right count index d ≡ 0
    → (d ≡ 0) × ((i : ℕ) → index ≤ i → i < index + count → byte_at left i ≡ byte_at right i)
unfolding difference_from
difference_zero left right zero index d h = (h, λ i l k. absurd (omega arith))
difference_zero left right (suc count) index d h =
    let (o, rest) = difference_zero left right count (suc index) _ h in
    let (z, x) = or_zero d (bit_xor (byte_at left index) (byte_at right index)) o in
    (
      z,
      λ i l k. elim (ℕ_discrete i index) [
        | yes e ↦ rw e (xor_zero _ _ x)
        | no n ↦ rest i (omega arith) (omega arith)
      ],
    )

difference_same : (s : List ℕ) (count index : ℕ) → difference_from s s count index 0 ≡ 0
unfolding difference_from
difference_same s zero index = refl
difference_same s (suc count) index =
    rw (xor_same (byte_at s index)) (difference_same s count (suc index))

same_bytes :
    (s t : List ℕ)
    → length s ≡ length t
    → ((i : ℕ) → i < length s → byte_at s i ≡ byte_at t i)
    → s ≡ t
same_bytes [] [] l h = refl
same_bytes [] (y ∷ t) l h = absurd (omega arith)
same_bytes (x ∷ s) [] l h = absurd (omega arith)
same_bytes (x ∷ s) (y ∷ t) l h =
    let first : x ≡ y = h 0 (omega arith) in
    let rest : s ≡ t = same_bytes s t (omega arith) (λ i k. h (suc i) (omega arith)) in
    λ i. first i ∷ rest i

-- The comparison that looks at every byte answers whether the two texts are equal.
pub constant_time_equal_iff :
    (left right : List ℕ) → (constant_time_equal left right ≡ true) ↔ (left ≡ right)
unfolding constant_time_equal
constant_time_equal_iff left right = (
  λ h.
      let (l, bytes) = difference_zero left right _ 0 _ ((==_iff _ 0).0 h) in
      let m = xor_zero (length left) (length right) l in
      same_bytes left right m (λ i k. bytes i (omega arith) (omega arith)),
  λ e. (==_iff _ 0).1 (
      rw e (
        ap (difference_from right right (max (length right) (length right)) 0)
          (xor_same (length right))
        ∙ difference_same right (max (length right) (length right)) 0)),
)
