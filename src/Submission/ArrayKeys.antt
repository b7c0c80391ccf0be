-- ===== src/Submission/ArrayKeys.antt =====
-- `arrayKey` of packages/core/src/submission.ts: `/^(.*)\[(\d*)\]$/`, and maps that keep the order
-- of insertion.
use Prim.Native.Nat.{◌*◌, ◌-◌}
use postbag.Common.{
  ℕ, suc, ◌+◌, Bool, ◌&&◌, ◌||◌, Option, none, some, List, [], ◌∷◌, Text, any, take, drop, leb,
  ◌==◌, if◌then◌else◌, last_index_of,
}

pub record ArrayKey : Type 0 where
  pub base : Text
  pub index : Option ℕ

abbrev is_digit : ℕ → Bool
is_digit c = leb b'0' c && leb c b'9'

-- What `.` does not match.
abbrev is_line_end : ℕ → Bool
is_line_end c = (c == 10) || (c == 13) || (c == 0x2028) || (c == 0x2029)

-- `(\d*)\]$`: the digits up to the bracket that ends the text.
abbrev digits_to_end : Text → Option Text
digits_to_end [] = none
digits_to_end (c ∷ []) = if c == b']' then some [] else none
digits_to_end (c ∷ d ∷ s) =
    if is_digit c
    then elim (digits_to_end (d ∷ s)) [ none ↦ none | some digits ↦ some (c ∷ digits) ]
    else none

-- `Number.parseInt(digits, 10)`, which is exact below 2 ^ 53
abbrev parse_int : ℕ → Text → ℕ
parse_int so_far [] = so_far
parse_int so_far (c ∷ digits) = parse_int (10 * so_far + (c - b'0')) digits

-- `rawIndex === "" ? null : Number.parseInt(rawIndex, 10)`
abbrev index_text : Text → Option ℕ
index_text [] = none
index_text (c ∷ digits) = some (parse_int 0 (c ∷ digits))

abbrev with_base : Text → Option Text → Option ArrayKey
with_base base none = none
with_base [] (some digits) = none
with_base (c ∷ base) (some digits) =
    if any is_line_end (c ∷ base)
    then none
    else some (record { base = c ∷ base; index = index_text digits })

unfoldable pub array_key : Text → Option ArrayKey
array_key key = elim (last_index_of b'[' key) [
  | none ↦ none
  | some i ↦ with_base (take i key) (digits_to_end (drop (suc i) key))
]

-- `Map` with keys that `same` compares: a new key stands last, a set key keeps its place.
module _ {K V : Type 0} (same : K → K → Bool) where
  abbrev pub map_get : List (K × V) → K → Option V
  map_get [] k = none
  map_get ((j, v) ∷ m) k = if same j k then some v else map_get m k

  abbrev pub map_set : List (K × V) → K → V → List (K × V)
  map_set [] k v = (k, v) ∷ []
  map_set ((j, w) ∷ m) k v = if same j k then (j, v) ∷ m else (j, w) ∷ map_set m k v
