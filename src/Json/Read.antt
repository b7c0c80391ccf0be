-- ===== src/Json/Read.antt =====
-- Reads of properties by name, as in `fromValue` of packages/core/src/template.ts and `atPath` of
-- packages/core/src/mapping.ts.
use postbag.Common.{Bool, Option, none, some, List, [], ◌∷◌, Text, codes, teq, any, if◌then◌else◌}
use postbag.Json.Values.{Value, null, bool, num, str, arr, obj, own}

-- What a read of a property gives: nothing, a JSON value, a method that every object inherits, or,
-- for `__proto__`, the prototype that holds these methods.
pub data Found : Type 0 where
  missing : Found
  value : Value → Found
  method : Found
  prototype : Found

-- The methods of `Object.prototype`.
is_method : Text → Bool
is_method k = any (teq k) (
    codes "constructor"
    ∷ codes "hasOwnProperty"
    ∷ codes "isPrototypeOf"
    ∷ codes "propertyIsEnumerable"
    ∷ codes "toLocaleString"
    ∷ codes "toString"
    ∷ codes "valueOf"
    ∷ codes "__defineGetter__"
    ∷ codes "__defineSetter__"
    ∷ codes "__lookupGetter__"
    ∷ codes "__lookupSetter__"
    ∷ [])

-- What an object has that does not own the property.
inherited : Text → Found → Found
unfolding is_method
inherited k proto =
    if is_method k then method else if teq k (codes "__proto__") then proto else missing

owned_or : Found → Option Value → Found
owned_or other none = other
owned_or other (some v) = value v

-- `isRecord(current)` and `current[segment]`: what is no record gives `undefined`.
unfoldable pub read : Found → Text → Found
unfolding inherited owned_or
read (value (obj fs)) k = owned_or (inherited k prototype) (own k fs)
read (value null) k = missing
read (value (bool b)) k = missing
read (value (num n)) k = missing
read (value (str s)) k = missing
read (value (arr xs)) k = missing
read prototype k = inherited k (value null)
read method k = missing
read missing k = missing

unfoldable pub from_value : Found → List Text → Found
unfolding read
from_value current [] = current
from_value current (segment ∷ path) = from_value (read current segment) path
