-- ===== src/Submission/Normalize.antt =====
-- `normalizeBody` of packages/core/src/submission.ts. A JSON value has no cycles, so that `seen`
-- never refuses one, and it stands for what `JSON.parse` or a decoded form gives.
use postbag.Common.{
  ℕ, suc, ◌+◌, Bool, true, false, ◌&&◌, none, some, List, [], ◌∷◌, Text, codes, teq, any, length,
  map, ltb, leb, ◌==◌, if◌then◌else◌, trim, get_or_else,
}
use postbag.Errors.{Result, err, ok, ◌>>=◌, ◌>>◌, throw_if, payload_too_large}
use postbag.Json.Values.{
  Value, Items, Fields, null, bool, num, str, arr, obj, nil, item, end, field, entries, from_list,
}
use postbag.Json.Assign.{is_proto, assign}
use postbag.Json.Print.{stringify}
use postbag.Submission.ArrayKeys.{ArrayKey, array_key, map_get, map_set}

abbrev pub max_depth : ℕ
max_depth = 12

abbrev pub max_fields : ℕ
max_fields = 1000

abbrev pub max_bytes : ℕ
max_bytes = 1000000

-- `CONTROL_FIELDS`
abbrev pub control_fields : List Text
control_fields =
    codes "_redirect"
    ∷ codes "_gotcha"
    ∷ codes "_idempotency"
    ∷ codes "_subject"
    ∷ codes "_test"
    ∷ []

abbrev pub is_control_field : Text → Bool
is_control_field key = any (λ f. teq f key) control_fields

-- An assignment where no property of that name is set: `Object.entries` has each name once.
abbrev pub assign_new : Text → Value → Fields → Fields
assign_new key v fs = if is_proto key then fs else field key v fs

unfoldable mutual
  pub normalize_value : Value → ℕ → Result Value
  normalize_value null depth = throw_if (ltb max_depth depth) payload_too_large >> ok null
  normalize_value (bool b) depth = throw_if (ltb max_depth depth) payload_too_large >> ok (bool b)
  normalize_value (num n) depth = throw_if (ltb max_depth depth) payload_too_large >> ok (num n)
  normalize_value (str s) depth =
      throw_if (ltb max_depth depth) payload_too_large >> ok (str (trim s))
  normalize_value (arr xs) depth = do
    throw_if (ltb max_depth depth) payload_too_large
    ys ← normalize_items xs (suc depth)
    ok (arr ys)
  normalize_value (obj fs) depth = do
    throw_if (ltb max_depth depth) payload_too_large
    gs ← normalize_fields fs (suc depth)
    ok (obj gs)

  pub normalize_items : Items → ℕ → Result Items
  normalize_items nil depth = ok nil
  normalize_items (item x xs) depth = do
    y ← normalize_value x depth
    ys ← normalize_items xs depth
    ok (item y ys)

  pub normalize_fields : Fields → ℕ → Result Fields
  normalize_fields end depth = ok end
  normalize_fields (field k v fs) depth = do
    w ← normalize_value v depth
    gs ← normalize_fields fs depth
    ok (assign_new k w gs)

pub record NormalizedBody : Type 0 where
  pub fields : Fields
  pub control : Fields

-- The variables of the loop.
pub record Sorting : Type 0 where
  pub body : NormalizedBody
  pub indexed_arrays : List (Text × List (ℕ × Value))

abbrev pub set_data : Sorting → Text → Value → Sorting
set_data s key v = record s { body = record s.body { fields = assign s.body.fields key v } }

abbrev pub set_control : Sorting → Text → Value → Sorting
set_control s key v = record s { body = record s.body { control = assign s.body.control key v } }

-- `existing.set(index, value)` and `indexedArrays.set(base, existing)`
abbrev pub set_indexed : Sorting → ArrayKey → Value → Sorting
set_indexed s k v =
    let existing = get_or_else (map_get teq s.indexed_arrays k.base) [] in
    let index = get_or_else k.index (length existing) in
    record s {
      indexed_arrays = map_set teq s.indexed_arrays k.base (map_set ◌==◌ existing index v);
    }

abbrev pub set_array_key : Sorting → ArrayKey → Value → Sorting
set_array_key s k (arr xs) = elim k.index [
  | none ↦ set_data s k.base (arr xs)
  | some i ↦ set_indexed s k (arr xs)
]
set_array_key s k null = set_indexed s k null
set_array_key s k (bool b) = set_indexed s k (bool b)
set_array_key s k (num n) = set_indexed s k (num n)
set_array_key s k (str t) = set_indexed s k (str t)
set_array_key s k (obj fs) = set_indexed s k (obj fs)

-- One round of the loop, behind `normalizeValue`.
unfoldable pub sort_entry : Sorting → Text → Value → Sorting
unfolding assign array_key
sort_entry s key v =
    if is_control_field key
    then set_control s key v
    else elim (array_key key) [ none ↦ set_data s key v | some k ↦ set_array_key s k v ]

unfoldable pub sort_entries : Sorting → List (Text × Value) → Result Sorting
unfolding sort_entry normalize_value
sort_entries s [] = ok s
sort_entries s ((key, raw) ∷ es) = do
  v ← normalize_value raw 1
  sort_entries (sort_entry s key v) es

-- `[...values.entries()].sort(([left], [right]) => left - right)`, which is stable
abbrev pub insert_by_index : ℕ × Value → List (ℕ × Value) → List (ℕ × Value)
insert_by_index (i, v) [] = (i, v) ∷ []
insert_by_index (i, v) ((j, w) ∷ rest) =
    if leb i j then (i, v) ∷ (j, w) ∷ rest else (j, w) ∷ insert_by_index (i, v) rest

abbrev pub sort_by_index : List (ℕ × Value) → List (ℕ × Value)
sort_by_index [] = []
sort_by_index (p ∷ rest) = insert_by_index p (sort_by_index rest)

abbrev pub ordered_values : List (ℕ × Value) → Value
ordered_values values = arr (from_list (map (λ p. p.1) (sort_by_index values)))

-- `for (const [key, values] of indexedArrays) data[key] = …`
unfoldable pub add_arrays : Fields → List (Text × List (ℕ × Value)) → Fields
unfolding assign
add_arrays fields [] = fields
add_arrays fields ((key, values) ∷ rest) =
    add_arrays (assign fields key (ordered_values values)) rest

-- The bytes that `TextEncoder` gives for UTF-16 code units.
unit_bytes : ℕ → ℕ
unit_bytes c = if ltb c 0x80 then 1 else if ltb c 0x800 then 2 else 3

is_pair : ℕ → ℕ → Bool
is_pair c d = leb 0xd800 c && ltb c 0xdc00 && leb 0xdc00 d && ltb d 0xe000

unfoldable pub utf8_length : Text → ℕ
unfolding unit_bytes is_pair
utf8_length [] = 0
utf8_length (c ∷ []) = unit_bytes c
utf8_length (c ∷ d ∷ s) = elim (is_pair c d) [
  | true ↦ 4 + utf8_length s
  | false ↦ unit_bytes c + utf8_length (d ∷ s)
]

-- `JSON.stringify(normalized)`
unfoldable pub body_text : NormalizedBody → Text
unfolding stringify
body_text b =
    stringify
      (obj (field (codes "data") (obj b.fields) (field (codes "control") (obj b.control) end)))

abbrev pub empty_body : NormalizedBody
empty_body = record { fields = end; control = end }

unfoldable pub finish : Sorting → Result NormalizedBody
unfolding add_arrays body_text utf8_length
finish s =
    let normalized : NormalizedBody = record s.body {
      fields = add_arrays s.body.fields s.indexed_arrays;
    } in
    throw_if (ltb max_bytes (utf8_length (body_text normalized))) payload_too_large >> ok normalized

unfoldable pub normalize_body : Value → Result NormalizedBody
unfolding sort_entries finish
normalize_body (obj input) = do
  throw_if (ltb max_fields (length (entries input))) payload_too_large
  sorted ← sort_entries (record { body = empty_body; indexed_arrays = [] }) (entries input)
  finish sorted
normalize_body null = err payload_too_large
normalize_body (bool b) = err payload_too_large
normalize_body (num n) = err payload_too_large
normalize_body (str s) = err payload_too_large
normalize_body (arr xs) = err payload_too_large
