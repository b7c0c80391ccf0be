-- ===== src/Mapping/Validate.antt =====
-- `validateMapping` of packages/core/src/mapping.ts.
use postbag.Common.{
  Bool, true, false, ◌&&◌, ◌||◌, not, Option, none, some, List, [], ◌∷◌, Text, codes, teq, split,
  keep, ltb, ◌==◌, if◌then◌else◌, is_none,
}
use postbag.Json.Values.{Value, Fields, null, bool, num, str, arr, obj, item_list}
use postbag.Json.Read.{Found, missing, value, method, prototype, read}
use postbag.Mapping.Apply.{Mapping, MappingEntry}

-- The order of `sort()` on strings.
abbrev pub text_le : Text → Text → Bool
text_le [] t = true
text_le (c ∷ s) [] = false
text_le (c ∷ s) (d ∷ t) = ltb c d || ((c == d) && text_le s t)

abbrev pub insert_text : Text → List Text → List Text
insert_text s [] = s ∷ []
insert_text s (t ∷ ts) = if text_le s t then s ∷ t ∷ ts else t ∷ insert_text s ts

abbrev pub sort_texts : List Text → List Text
sort_texts [] = []
sort_texts (s ∷ ss) = insert_text s (sort_texts ss)

-- `filter((item): item is string => typeof item === "string")`
abbrev pub strings : List Value → List Text
strings [] = []
strings (str s ∷ vs) = s ∷ strings vs
strings (null ∷ vs) = strings vs
strings (bool b ∷ vs) = strings vs
strings (num n ∷ vs) = strings vs
strings (arr xs ∷ vs) = strings vs
strings (obj fs ∷ vs) = strings vs

abbrev pub strings_of : Found → List Text
strings_of (value (arr xs)) = strings (item_list xs)
strings_of (value null) = []
strings_of (value (bool b)) = []
strings_of (value (num n)) = []
strings_of (value (str s)) = []
strings_of (value (obj fs)) = []
strings_of missing = []
strings_of method = []
strings_of prototype = []

unfoldable pub required_fields : Fields → List Text
unfolding read
required_fields schema = sort_texts (strings_of (read (value (obj schema)) (codes "required")))

abbrev pub is_record_found : Found → Bool
is_record_found (value (obj fs)) = true
is_record_found (value null) = false
is_record_found (value (bool b)) = false
is_record_found (value (num n)) = false
is_record_found (value (str s)) = false
is_record_found (value (arr xs)) = false
is_record_found prototype = true
is_record_found missing = false
is_record_found method = false

unfoldable pub has_path : Found → List Text → Bool
unfolding read
has_path current [] = is_record_found current
has_path current (segment ∷ path) =
    let properties = read current (codes "properties") in
    is_record_found current && is_record_found properties && has_path (read properties segment) path

unfoldable pub schema_has_path : Fields → Text → Bool
unfolding has_path
schema_has_path schema path = has_path (value (obj schema)) (split b'.' path)

abbrev pub entry_of : Text → Mapping → Option MappingEntry
entry_of k [] = none
entry_of k ((target, entry) ∷ mapping) = if teq target k then some entry else entry_of k mapping

-- `formSchema === undefined || schemaHasPath(formSchema, entry.from)`
abbrev pub may_have : Option Fields → Text → Bool
may_have none path = true
may_have (some schema) path = schema_has_path schema path

abbrev pub lacks_source : Option Fields → MappingEntry → Option Text → Bool
lacks_source form_schema entry none = is_none entry.const_value && is_none entry.default_value
lacks_source form_schema entry (some path) =
    not (may_have form_schema path) && is_none entry.default_value

-- What `mapping[field]` inherits has neither `const` nor `default`, and counts as missing too.
abbrev pub lacks_entry : Option Fields → Option MappingEntry → Bool
lacks_entry form_schema none = true
lacks_entry form_schema (some entry) = entry.has_expr || lacks_source form_schema entry entry.from

pub data MappingStatus : Type 0 where
  valid incomplete : MappingStatus

pub record MappingValidation : Type 0 where
  pub status : MappingStatus
  pub missing : List Text

abbrev pub status_of : List Text → MappingStatus
status_of [] = valid
status_of (k ∷ ks) = incomplete

unfoldable pub validate_mapping : Mapping → Fields → Option Fields → MappingValidation
unfolding required_fields schema_has_path
validate_mapping mapping stream_schema form_schema =
    let missing =
      keep (λ k. lacks_entry form_schema (entry_of k mapping)) (required_fields stream_schema) in
    record { status = status_of missing; missing = missing }
