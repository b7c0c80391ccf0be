-- ===== src/Mapping/Payload.antt =====
-- What a payload holds, and what a valid mapping says of it.
use postbag.Common.{◌≡◌, Option, none, some, [], ◌∷◌, Text}
use postbag.Json.Values.{Value, Fields}
use postbag.Mapping.Apply.{Mapping, MappingEntry, target_value, or_default, at_path, chosen}
use postbag.Mapping.Validate.{entry_of}

-- No target stands twice.
abbrev pub NoRepeat : Mapping → Type 0
NoRepeat [] = Unit
NoRepeat ((target, entry) ∷ mapping) = (entry_of target mapping ≡ none) × NoRepeat mapping

-- What a payload has at a target, with the value before the mapping as the other case.
abbrev set_by : Fields → Option Value → Option MappingEntry → Option Value
set_by fields before none = before
set_by fields before (some entry) = or_default (target_value fields entry) before

abbrev pub of_entry : Fields → Option MappingEntry → Option Value
of_entry fields none = none
of_entry fields (some entry) = target_value fields entry

-- The path that an entry reads, where the submission has nothing for it.
abbrev pub Unfilled : Fields → Option MappingEntry → Type 0
Unfilled fields none = ⊥
Unfilled fields (some entry) =
    (path : Text) × (entry.from ≡ some path)
    × (chosen (at_path fields path) entry.default_value ≡ none)
