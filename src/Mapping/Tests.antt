-- ===== src/Mapping/Tests.antt =====
-- A mapping at a concrete submission, and the theorems at examples.
use postbag.Common.{false, Option, none, some, [], ◌∷◌, Text, codes, Bool}
use postbag.Errors.{ok, Result}
use postbag.Json.Values.{Value, Fields, str, arr, item, nil, obj, end, field}
use postbag.Mapping.Apply.{MappingEntry, Mapping, MappingResult}

abbrev from_path : Text → Option Value → MappingEntry
from_path path default = record {
  from = some path;
  const_value = none;
  has_expr = false;
  default_value = default;
}

-- `email` from a nested field, `source` constant, `phone` from a field that is not there.
abbrev lead : Mapping
lead =
    (codes "email", from_path (codes "contact.mail") none)
    ∷ (
      codes "source",
      record {
        from = none;
        const_value = some (str (codes "site"));
        has_expr = false;
        default_value = none;
      },
    )
    ∷ (codes "phone", from_path (codes "tel") none)
    ∷ []

abbrev sent : Fields
sent =
    field (codes "contact") (obj (field (codes "mail") (str (codes "a@b.example")) end))
      (field (codes "note") (str (codes "hi")) end)

abbrev mapped : MappingResult
mapped = record {
  payload =
      field (codes "email") (str (codes "a@b.example"))
        (field (codes "source") (str (codes "site")) end);
  extras = field (codes "note") (str (codes "hi")) end;
}

-- A schema that compiles, and that the payload does not meet.
abbrev checked : Value → Result Bool
checked v = ok false

abbrev schema : Fields
schema =
    field (codes "required") (arr (item (str (codes "phone")) (item (str (codes "email")) nil))) end
