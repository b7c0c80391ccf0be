-- ===== src/Common/Texts.antt =====
-- Texts as lists of UTF-16 code units, with the string methods that the program uses.
use Prim.Native.Nat.{ℕ, suc}
use Prim.Native.Char.{code}
use Prim.Native.String.{String}
use mathlib.Core.Path.{◌≡◌, refl}
use mathlib.Core.Logic.{◌↔◌, ◌⊎◌, inl, inr}
use mathlib.Core.Bool.{Bool, true, false, ◌&&◌, ◌||◌}
use mathlib.Core.List.{List, [], ◌∷◌, ◌++◌}
use mathlib.Core.Option.{Option, none, some}
use native.Mathlib.Omega.{arith}
use postbag.Common.Lists.{length}
use postbag.Common.Tests.{◌==◌, if◌then◌else◌, leb, Bool-cases}

abbrev pub Text : Type 0
Text = List ℕ

-- The code units of a literal.
abbrev pub codes : String → Text
codes String.[] = []
codes (String.◌∷◌ c s) = code c ∷ codes s

-- `===` on strings
abbrev pub teq : Text → Text → Bool
teq [] [] = true
teq [] (y ∷ ys) = false
teq (x ∷ xs) [] = false
teq (x ∷ xs) (y ∷ ys) = (x == y) && teq xs ys

pub teq_sound : (s t : Text) → teq s t ≡ true → s ≡ t
teq_sound [] [] h = refl
teq_sound [] (y ∷ ys) h = cc
teq_sound (x ∷ xs) [] h = cc
teq_sound (x ∷ xs) (y ∷ ys) h = ground (arith, teq_sound xs ys)

pub teq_refl : (s : Text) → teq s s ≡ true
teq_refl [] = refl
teq_refl (x ∷ xs) = ground (arith, teq_refl xs)

pub teq_iff : (s t : Text) → (teq s t ≡ true) ↔ (s ≡ t)
teq_iff s t = (teq_sound s t, λ e. rw e (teq_refl t))

-- Two texts are equal by the test, or the test is false.
pub teq-cases : (s t : Text) → ((s ≡ t) × (teq s t ≡ true)) ⊎ (teq s t ≡ false)
teq-cases s t = elim (Bool-cases (teq s t)) [ inl e ↦ inl (teq_sound s t e, e) | inr e ↦ inr e ]

-- `s.indexOf(c)` for one code unit, with -1 as `none`
abbrev pub index_of : ℕ → Text → Option ℕ
index_of c [] = none
index_of c (x ∷ xs) =
    if x == c then some 0 else elim (index_of c xs) [ none ↦ none | some i ↦ some (suc i) ]

-- `s.lastIndexOf(c)`
abbrev pub last_index_of : ℕ → Text → Option ℕ
last_index_of c [] = none
last_index_of c (x ∷ xs) = elim (last_index_of c xs) [
  | some i ↦ some (suc i)
  | none ↦ if x == c then some 0 else none
]

none_in_tail :
    (c x : ℕ) (s : Text) → index_of c (x ∷ s) ≡ none → ((x == c) ≡ false) × (index_of c s ≡ none)
none_in_tail c x s h = ground arith

-- The first separator stands behind a text without one.
pub index_of-separator :
    (c : ℕ) (s t : Text) → index_of c s ≡ none → index_of c (s ++ (c ∷ t)) ≡ some (length s)
index_of-separator c [] t h = ground arith
index_of-separator c (x ∷ s) t h =
    let (a, b) = none_in_tail c x s h in rw (a, index_of-separator c s t b) refl

-- `s.split(c)` for one code unit
abbrev pub split : ℕ → Text → List Text
split c [] = [] ∷ []
split c (x ∷ xs) = elim (split c xs) [
  | [] ↦ (x ∷ []) ∷ []
  | w ∷ ws ↦ if x == c then [] ∷ w ∷ ws else (x ∷ w) ∷ ws
]

abbrev pub starts_with : Text → Text → Bool
starts_with [] s = true
starts_with (p ∷ ps) [] = false
starts_with (p ∷ ps) (x ∷ xs) = (x == p) && starts_with ps xs

-- What `String.prototype.trim` and `\s` take for white space: line ends, spaces and the byte order mark.
abbrev pub is_space : ℕ → Bool
is_space c =
    (leb 9 c && leb c 13)
    || (c == 32)
    || (c == 160)
    || (c == 5760)
    || (leb 8192 c && leb c 8202)
    || (c == 8232)
    || (c == 8233)
    || (c == 8239)
    || (c == 8287)
    || (c == 12288)
    || (c == 65279)

abbrev pub trim_start : Text → Text
trim_start [] = []
trim_start (x ∷ xs) = if is_space x then trim_start xs else x ∷ xs

abbrev pub trim_end : Text → Text
trim_end [] = []
trim_end (x ∷ xs) = elim (trim_end xs) [
  | [] ↦ if is_space x then [] else x ∷ []
  | y ∷ ys ↦ x ∷ y ∷ ys
]

-- `s.trim()`
abbrev pub trim : Text → Text
trim s = trim_end (trim_start s)
