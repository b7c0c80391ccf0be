-- ===== src/Mapping/Apply.antt =====
-- `applyMapping` of packages/core/src/mapping.ts. `validate` is `validateAgainstSchema` under the stream's
-- schema, which may throw; the problems that it finds are left out: the caller that stores a payload
-- does not read them. A value that has no JSON text, `undefined` or a
-- function, is no field of the payload, which is stored as JSON.
use postbag.Common.{Bool, not, Option, none, some, List, [], ◌∷◌, Text, teq, any, split, keep, ◌++◌}
use postbag.Errors.{Result, ok, ◌>>=◌, ◌>>◌, throw_if, expressions_not_enabled}
use postbag.Json.Values.{Value, Fields, null, bool, num, str, arr, obj, end, entries, from_entries}
use postbag.Json.Read.{Found, missing, value, method, prototype, from_value}
use postbag.Json.Assign.{assign}

-- `has_expr` is `expr !== undefined`.
pub record MappingEntry : Type 0 where
  pub from : Option Text
  pub const_value : Option Value
  pub has_expr : Bool
  pub default_value : Option Value

-- `Object.entries(mapping)`
abbrev pub Mapping : Type 0
Mapping = List (Text × MappingEntry)

unfoldable pub at_path : Fields → Text → Found
unfolding from_value
at_path fields path = from_value (value (obj fields)) (split b'.' path)

-- `value === undefined || value === null || value === "" ? entry.default : value`
abbrev pub chosen : Found → Option Value → Option Value
chosen missing default = default
chosen method default = none
chosen prototype default = some (obj end)
chosen (value null) default = default
chosen (value (bool b)) default = some (bool b)
chosen (value (num n)) default = some (num n)
chosen (value (str [])) default = default
chosen (value (str (c ∷ s))) default = some (str (c ∷ s))
chosen (value (arr xs)) default = some (arr xs)
chosen (value (obj fs)) default = some (obj fs)

abbrev pub or_default : Option Value → Option Value → Option Value
or_default none default = default
or_default (some v) default = some v

abbrev pub taken : Fields → Option Text → Option Value → Option Value → Option Value
taken fields (some path) const_value default = chosen (at_path fields path) default
taken fields none const_value default = or_default const_value default

-- What `payload[target]` is set to.
unfoldable pub target_value : Fields → MappingEntry → Option Value
unfolding at_path
target_value fields entry = taken fields entry.from entry.const_value entry.default_value

abbrev pub set_target : Fields → Text → Option Value → Fields
set_target payload target none = payload
set_target payload target (some v) = assign payload target v

unfoldable pub map_entries : Fields → Mapping → Fields → Result Fields
unfolding target_value assign
map_entries fields [] payload = ok payload
map_entries fields ((target, entry) ∷ mapping) payload =
    throw_if entry.has_expr expressions_not_enabled
    >> map_entries fields mapping (set_target payload target (target_value fields entry))

-- `entry.from.split(".")[0]`
abbrev pub root : Option Text → List Text
root none = []
root (some path) = elim (split b'.' path) [ [] ↦ [] | segment ∷ rest ↦ segment ∷ [] ]

abbrev pub mapped_roots : Mapping → List Text
mapped_roots [] = []
mapped_roots ((target, entry) ∷ mapping) = root entry.from ++ mapped_roots mapping

pub record MappingResult : Type 0 where
  pub payload : Fields
  pub extras : Fields

abbrev pub extra_fields : Fields → Mapping → Fields
extra_fields fields mapping =
    from_entries (keep (λ e. not (any (teq e.0) (mapped_roots mapping))) (entries fields))

unfoldable pub apply_mapping :
    (validate : Value → Result Bool) → Fields → Mapping → Result MappingResult
unfolding map_entries
apply_mapping validate fields mapping = do
  payload ← map_entries fields mapping end
  _ ← validate (obj payload)
  ok (record { payload = payload; extras = extra_fields fields mapping })
