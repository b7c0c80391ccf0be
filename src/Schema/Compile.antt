-- ===== src/Schema/Compile.antt =====
-- `compileSchema` and `validateAgainstSchema` of packages/core/src/schema.ts. `ajv.compile` is an
-- argument, which gives a validator or throws; that ajv refuses an `$id` that it has met, and the
-- problems that a validator lists, are left out.
use Prim.Native.Nat.{bit_xor, ◌*◌, ◌/◌, ◌%◌, ◌^◌}
use postbag.Common.{
  ℕ, suc, zero, Bool, false, ◌&&◌, ◌||◌, not, Option, none, some, List, [], ◌∷◌, ◌++◌, Text, codes,
  teq, all, length, ltb, leb, ◌==◌, if◌then◌else◌, starts_with,
}
use postbag.Errors.{Result, err, ok, ◌>>=◌, validation_failed}
use postbag.Json.Values.{
  Value, Items, Fields, null, bool, num, str, arr, obj, nil, item, end, field, own,
}
use postbag.Json.Assign.{is_proto}
use postbag.Json.Print.{stringify, hex_digit}
use postbag.Mapping.Validate.{text_le}

-- A name that is an array index: a decimal below 2 ^ 32 - 1 without leading zeros.
abbrev is_digit : ℕ → Bool
is_digit c = leb b'0' c && leb c b'9'

-- Decimals without leading zeros go by their length first.
abbrev shorter_or_le : Text → Text → Bool
shorter_or_le k j = ltb (length k) (length j) || ((length k == length j) && text_le k j)

is_index : Text → Bool
is_index [] = false
is_index (c ∷ []) = is_digit c
is_index (c ∷ d ∷ k) =
    all is_digit (c ∷ d ∷ k) && not (c == b'0') && shorter_or_le (c ∷ d ∷ k) (codes "4294967294")

-- The order in which an object has properties that were assigned in the order of `sort()`: indices
-- by their number, and the other names behind them.
comes_before : Text → Text → Bool
unfolding is_index
comes_before k j =
    if is_index k then not (is_index j) || shorter_or_le k j else not (is_index j) && text_le k j

-- `sorted[key] = …`: an assignment to `__proto__` makes no property.
insert_field : Text → Value → Fields → Fields
unfolding comes_before
insert_field k v end = field k v end
insert_field k v (field j w fs) =
    if comes_before k j then field k v (field j w fs) else field j w (insert_field k v fs)

unfoldable mutual
  unfolding insert_field

  pub stable_value : Value → Value
  stable_value null = null
  stable_value (bool b) = bool b
  stable_value (num n) = num n
  stable_value (str s) = str s
  stable_value (arr xs) = arr (stable_items xs)
  stable_value (obj fs) = obj (stable_fields fs)

  pub stable_items : Items → Items
  stable_items nil = nil
  stable_items (item x xs) = item (stable_value x) (stable_items xs)

  pub stable_fields : Fields → Fields
  stable_fields end = end
  stable_fields (field k v fs) =
      let rest = stable_fields fs in
      if is_proto k then rest else insert_field k (stable_value v) rest

-- `hash ^= text.charCodeAt(index); hash = Math.imul(hash, 16_777_619)`, as an unsigned number
unfoldable pub hash_from : ℕ → Text → ℕ
hash_from hash [] = hash
hash_from hash (c ∷ text) = hash_from (bit_xor hash c * 16777619 % 2 ^ 32) text

-- `toString(16).padStart(8, "0")`
abbrev hex_digits : ℕ → ℕ → Text → Text
hex_digits zero n so_far = so_far
hex_digits (suc places) n so_far = hex_digits places (n / 16) (hex_digit (n % 16) ∷ so_far)

unfoldable pub stable_hash : Value → Text
unfolding stable_value hash_from stringify hex_digit
stable_hash v = hex_digits 8 (hash_from 2166136261 (stringify (stable_value v))) []

abbrev is_remote : Option Value → Bool
is_remote (some (str s)) = not (starts_with (codes "#") s)
is_remote none = false
is_remote (some null) = false
is_remote (some (bool b)) = false
is_remote (some (num n)) = false
is_remote (some (arr xs)) = false
is_remote (some (obj fs)) = false

unfoldable mutual
  pub has_remote_reference : Value → Bool
  has_remote_reference (arr xs) = any_item xs
  has_remote_reference (obj fs) = is_remote (own (codes "$ref") fs) || any_field fs
  has_remote_reference null = false
  has_remote_reference (bool b) = false
  has_remote_reference (num n) = false
  has_remote_reference (str s) = false

  pub any_item : Items → Bool
  any_item nil = false
  any_item (item x xs) = has_remote_reference x || any_item xs

  pub any_field : Fields → Bool
  any_field end = false
  any_field (field k v fs) = has_remote_reference v || any_field fs

-- `compiledSchemas`
abbrev pub Compiled : Type 0 → Type 0
Compiled V = List (Text × V)

module _ {V : Type 0} where
  abbrev pub cached : Text → Compiled V → Option V
  cached key [] = none
  cached key ((k, v) ∷ rest) = if teq k key then some v else cached key rest

  -- `compiledSchemas.set(key, compiled)`, where the key is new.
  abbrev pub keep_compiled : Text → Compiled V → Result V → Compiled V × Result V
  keep_compiled key schemas (ok v) = (schemas ++ ((key, v) ∷ []), ok v)
  keep_compiled key schemas (err e) = (schemas, err e)

  abbrev pub cached_or_compile : Text → Compiled V → Option V → Result V → Compiled V × Result V
  cached_or_compile key schemas (some v) compiled = (schemas, ok v)
  cached_or_compile key schemas none compiled = keep_compiled key schemas compiled

  unfoldable pub compile_schema : (Fields → Result V) → Fields → Compiled V → Compiled V × Result V
  compile_schema ajv_compile json_schema schemas =
      if has_remote_reference (obj json_schema)
      then (schemas, err validation_failed)
      else let key = stable_hash (obj json_schema) in
        cached_or_compile key schemas (cached key schemas) (ajv_compile json_schema)

abbrev pub validated :
    Value → Compiled (Value → Bool) × Result (Value → Bool) → Compiled (Value → Bool) × Result Bool
validated v (schemas, compiled) = (schemas, compiled >>= λ validate. ok (validate v))

-- The validity that `validateAgainstSchema` gives.
unfoldable pub validate_against_schema :
    (Fields → Result (Value → Bool))
    → Value
    → Fields
    → Compiled (Value → Bool)
    → Compiled (Value → Bool) × Result Bool
unfolding compile_schema
validate_against_schema ajv_compile v json_schema schemas =
    validated v (compile_schema ajv_compile json_schema schemas)
