-- ===== src/Json/Values.antt =====
-- The values of JSON.parse, with `isRecord` and `Array.isArray`. The fields of an object stand in
-- the order that `Object.entries` gives, and no name stands twice.
use postbag.Common.{
  Bool, true, false, Option, none, some, List, [], ◌∷◌, Text, codes, teq, ◌||◌, if◌then◌else◌,
}

mutual
  pub data Value : Type 0 where
    null : Value
    bool : Bool → Value
    num : (printed : Text) → Value
    str : Text → Value
    arr : Items → Value
    obj : Fields → Value

  pub data Items : Type 0 where
    nil : Items
    item : Value → Items → Items

  pub data Fields : Type 0 where
    end : Fields
    field : Text → Value → Fields → Fields

-- A number beyond the range of doubles, as `JSON.parse("1e999")` gives it.
abbrev pub is_infinite : Text → Bool
is_infinite n = teq n (codes "Infinity") || teq n (codes "-Infinity")

-- `typeof value === "object" && value !== null && !Array.isArray(value)`
abbrev pub is_record : Value → Bool
is_record (obj fs) = true
is_record null = false
is_record (bool b) = false
is_record (num n) = false
is_record (str s) = false
is_record (arr xs) = false

-- `Object.entries`
abbrev pub entries : Fields → List (Text × Value)
entries end = []
entries (field k v fs) = (k, v) ∷ entries fs

-- `Object.fromEntries` on names that stand once.
abbrev pub from_entries : List (Text × Value) → Fields
from_entries [] = end
from_entries ((k, v) ∷ es) = field k v (from_entries es)

abbrev pub item_list : Items → List Value
item_list nil = []
item_list (item x xs) = x ∷ item_list xs

abbrev pub from_list : List Value → Items
from_list [] = nil
from_list (x ∷ xs) = item x (from_list xs)

-- An own property of an object.
abbrev pub own : Text → Fields → Option Value
own k end = none
own k (field j v fs) = if teq j k then some v else own k fs
