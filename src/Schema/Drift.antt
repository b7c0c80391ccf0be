-- ===== src/Schema/Drift.antt =====
-- `detectDrift` of packages/core/src/schema.ts. A schema is an object; the reads of its properties
-- are those of `Json.Read`.
use postbag.Common.{
  ℕ, Bool, true, false, ◌&&◌, ◌||◌, not, Option, none, some, List, [], ◌∷◌, ◌++◌, Text, codes, teq,
  any, ◌==◌, if◌then◌else◌, starts_with,
}
use postbag.Json.Values.{
  Value, Fields, null, bool, num, str, arr, obj, end, field, item_list, is_infinite,
}
use postbag.Json.Read.{Found, missing, value, method, prototype, read}
use postbag.Mapping.Validate.{text_le, strings, strings_of, sort_texts, is_record_found}

pub data DriftKind : Type 0 where
  new_field missing_field type_change : DriftKind

-- The details: the types that the schema expects and the one that is there.
pub record DriftFinding : Type 0 where
  pub kind : DriftKind
  pub path : Text
  pub expected : List Text
  pub actual : Option Text

abbrev includes_unit : ℕ → Text → Bool
includes_unit c s = any (λ x. x == c) s

-- `e+`, as in the text of a number from 1e21 on
abbrev has_plus_exponent : Text → Bool
has_plus_exponent [] = false
has_plus_exponent (c ∷ s) = starts_with (codes "e+") (c ∷ s) || has_plus_exponent s

-- `Number.isInteger`, read off the text of the number: `1.5e+300` is an integer, `1.5`, `1e-7`
-- and `Infinity` are none.
unfoldable pub is_integer : Text → Bool
is_integer n =
    not (is_infinite n)
    && (has_plus_exponent n || not (includes_unit b'.' n || includes_unit b'e' n))

unfoldable pub value_type : Value → Text
unfolding is_integer
value_type null = codes "null"
value_type (arr xs) = codes "array"
value_type (num n) = if is_integer n then codes "integer" else codes "number"
value_type (bool b) = codes "boolean"
value_type (str s) = codes "string"
value_type (obj fs) = codes "object"

abbrev types_in : Found → List Text
types_in (value (str s)) = s ∷ []
types_in (value (arr xs)) = strings (item_list xs)
types_in (value null) = []
types_in (value (bool b)) = []
types_in (value (num n)) = []
types_in (value (obj fs)) = []
types_in missing = []
types_in method = []
types_in prototype = []

unfoldable pub allowed_types : Found → List Text
unfolding read
allowed_types schema = types_in (read schema (codes "type"))

abbrev pub has_text : Text → List Text → Bool
has_text t ts = any (teq t) ts

abbrev pub no_types : List Text → Bool
no_types [] = true
no_types (t ∷ ts) = false

unfoldable pub compatible : List Text → Text → Bool
compatible expected actual =
    no_types expected
    || has_text actual expected
    || (teq actual (codes "integer") && has_text (codes "number") expected)

abbrev pub child_path : Text → Text → Text
child_path [] key = key
child_path (c ∷ prefix) key = (c ∷ prefix) ++ (b'.' ∷ key)

-- `isRecord(schema["properties"]) ? schema["properties"] : {}`
abbrev record_or_empty : Found → Found
record_or_empty (value (obj fs)) = value (obj fs)
record_or_empty prototype = prototype
record_or_empty (value null) = value (obj end)
record_or_empty (value (bool b)) = value (obj end)
record_or_empty (value (num n)) = value (obj end)
record_or_empty (value (str s)) = value (obj end)
record_or_empty (value (arr xs)) = value (obj end)
record_or_empty missing = value (obj end)
record_or_empty method = value (obj end)

unfoldable pub properties_of : Found → Found
unfolding read
properties_of schema = record_or_empty (read schema (codes "properties"))

-- The order of `Object.keys(data).sort()`, in which the fields' findings are pushed.
abbrev pub insert_findings :
    Text × List DriftFinding → List (Text × List DriftFinding) → List (Text × List DriftFinding)
insert_findings (k, f) [] = (k, f) ∷ []
insert_findings (k, f) ((j, g) ∷ rest) =
    if text_le k j then (k, f) ∷ (j, g) ∷ rest else (j, g) ∷ insert_findings (k, f) rest

abbrev pub sort_findings : List (Text × List DriftFinding) → List (Text × List DriftFinding)
sort_findings [] = []
sort_findings (p ∷ rest) = insert_findings p (sort_findings rest)

abbrev pub pushed : List (Text × List DriftFinding) → List DriftFinding
pushed [] = []
pushed ((k, f) ∷ rest) = f ++ pushed rest

-- `data[key] === undefined`: a name that every object inherits is never undefined.
abbrev pub is_missing : Found → Bool
is_missing missing = true
is_missing (value v) = false
is_missing method = false
is_missing prototype = false

unfoldable pub missing_fields : Fields → List Text → Text → List DriftFinding
unfolding read
missing_fields fields [] prefix = []
missing_fields fields (key ∷ required) prefix =
    let rest = missing_fields fields required prefix in
    if is_missing (read (value (obj fields)) key)
    then record { kind = missing_field; path = child_path prefix key; expected = []; actual = none }
      ∷ rest
    else rest

unfoldable pub required_of : Found → List Text
unfolding read
required_of schema = sort_texts (strings_of (read schema (codes "required")))

-- A field without a schema, or of another type than the schema's.
unfoldable pub inspect_leaf : Value → Found → Text → List DriftFinding
unfolding value_type allowed_types compatible
inspect_leaf v schema path =
    if is_record_found schema
    then (if compatible (allowed_types schema) (value_type v)
        then []
        else record {
          kind = type_change;
          path = path;
          expected = allowed_types schema;
          actual = some (value_type v);
        }
          ∷ [])
    else record { kind = new_field; path = path; expected = []; actual = some (value_type v) } ∷ []

unfoldable mutual
  unfolding value_type allowed_types compatible missing_fields required_of read inspect_leaf
      properties_of

  -- The findings of one field, whose schema is `schema`.
  pub inspect_value : Value → Found → Text → List DriftFinding
  inspect_value null schema path = inspect_leaf null schema path
  inspect_value (bool b) schema path = inspect_leaf (bool b) schema path
  inspect_value (num n) schema path = inspect_leaf (num n) schema path
  inspect_value (str s) schema path = inspect_leaf (str s) schema path
  inspect_value (arr xs) schema path = inspect_leaf (arr xs) schema path
  inspect_value (obj fs) schema path =
      let inside = inspect_fields fs (properties_of schema) path in
      let missed = missing_fields fs (required_of schema) path in
      if is_record_found schema && compatible (allowed_types schema) (value_type (obj fs))
      then pushed (sort_findings inside) ++ missed
      else inspect_leaf (obj fs) schema path

  pub inspect_fields : Fields → Found → Text → List (Text × List DriftFinding)
  inspect_fields end properties prefix = []
  inspect_fields (field key v fs) properties prefix =
      (key, inspect_value v (read properties key) (child_path prefix key))
      ∷ inspect_fields fs properties prefix

unfoldable pub inspect_drift : Fields → Found → Text → List DriftFinding
unfolding inspect_fields properties_of missing_fields required_of
inspect_drift fields schema prefix =
    pushed (sort_findings (inspect_fields fields (properties_of schema) prefix))
    ++ missing_fields fields (required_of schema) prefix

-- What is no record is one finding, at `$`.
abbrev pub no_object : List DriftFinding
no_object =
    record { kind = type_change; path = codes "$"; expected = codes "object" ∷ []; actual = none }
    ∷ []

unfoldable pub detect_drift : Value → Fields → List DriftFinding
unfolding inspect_drift
detect_drift (obj fields) schema = inspect_drift fields (value (obj schema)) []
detect_drift null schema = no_object
detect_drift (bool b) schema = no_object
detect_drift (num n) schema = no_object
detect_drift (str s) schema = no_object
detect_drift (arr xs) schema = no_object
