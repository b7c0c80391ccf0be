-- ===== src/Schema/Tests.antt =====
-- Drift at examples, and the theorem at one.
use postbag.Common.{◌≡◌, ◌↔◌, refl, [], ◌∷◌, Text, codes, map, if◌then◌else◌}
use postbag.Errors.{Result, ok, err, validation_failed}
use postbag.Json.Values.{Fields, num, str, arr, obj, nil, item, end, field}
use postbag.Schema.Drift.{DriftFinding, new_field, missing_field, type_change, detect_drift}
use postbag.Schema.Compile.{stable_hash, has_remote_reference, compile_schema}
use postbag.Schema.Cache.{after_calls, first_with, found_or_compiled, compile_schema-first_with}
use postbag.Schema.Conformance.{HasShape, detect_drift-HasShape}

abbrev order_schema : Fields
order_schema =
    field (codes "properties")
      (obj (
        field (codes "total") (obj (field (codes "type") (str (codes "number")) end))
          (field (codes "name") (obj (field (codes "type") (str (codes "string")) end)) end)))
      (field (codes "required") (arr (item (str (codes "name")) nil)) end)

abbrev order : Fields
order = field (codes "total") (num (codes "12")) (field (codes "name") (str (codes "Ada")) end)

-- Findings of fields come in the order of their names, and missing names behind them.
abbrev wrong_order : Fields
wrong_order = field (codes "vat") (num (codes "1.5")) (field (codes "total") (str (codes "12")) end)

fits : detect_drift (obj order) order_schema ≡ []
unfolding detect_drift
fits = refl

drifts :
    map (λ (f : DriftFinding). f.kind) (detect_drift (obj wrong_order) order_schema)
    ≡ type_change ∷ new_field ∷ missing_field ∷ []
unfolding detect_drift
drifts = refl

detect_drift-HasShape_example :
    (detect_drift (obj order) order_schema ≡ []) ↔ HasShape (obj order) order_schema
detect_drift-HasShape_example = detect_drift-HasShape (obj order) order_schema

-- Two schemas with one hash: `{"required":["eusuiu"]}` and `{"required":["aeahha"]}`.
abbrev requires : Text → Fields
requires name = field (codes "required") (arr (item (str name) nil)) end

abbrev first_schema : Fields
first_schema = requires (codes "eusuiu")

abbrev second_schema : Fields
second_schema = requires (codes "aeahha")

-- A validator that is the schema it was compiled from.
abbrev compile_to_itself : Fields → Result Fields
compile_to_itself schema = ok schema

same_hash : stable_hash (obj first_schema) ≡ stable_hash (obj second_schema)
unfolding stable_hash
same_hash = refl

-- After the first schema the second one gets the first one's validator.
shared :
    (compile_schema compile_to_itself second_schema
      (after_calls compile_to_itself (first_schema ∷ []) [])).1
    ≡ ok first_schema
unfolding compile_schema after_calls stable_hash has_remote_reference
shared = refl

compile_schema-first_with_example :
    (compile_schema compile_to_itself second_schema
      (after_calls compile_to_itself (first_schema ∷ []) [])).1
    ≡ (if has_remote_reference (obj second_schema)
        then err validation_failed
        else found_or_compiled compile_to_itself second_schema
            (first_with compile_to_itself (stable_hash (obj second_schema)) (first_schema ∷ [])))
compile_schema-first_with_example =
    compile_schema-first_with compile_to_itself (first_schema ∷ []) second_schema
