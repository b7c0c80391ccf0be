-- ===== src/Json/Print.antt =====
-- `JSON.stringify` without indentation.
use Prim.Native.Nat.{◌-◌, ◌/◌, ◌%◌}
use postbag.Common.{
  ℕ, ◌+◌, Bool, true, false, ◌&&◌, ◌||◌, [], ◌∷◌, ◌++◌, Text, codes, ltb, leb, ◌==◌, if◌then◌else◌,
}
use postbag.Json.Values.{
  Value, Items, Fields, null, bool, num, str, arr, obj, nil, item, end, field, is_infinite,
}

unfoldable pub hex_digit : ℕ → ℕ
hex_digit d = if ltb d 10 then b'0' + d else (b'a' + d - 10)

-- `\uXXXX` for a code unit
unicode_escape : ℕ → Text
unfolding hex_digit
unicode_escape c =
    codes "\\u"
    ++ (hex_digit (c / 4096 % 16)
        ∷ hex_digit (c / 256 % 16)
        ∷ hex_digit (c / 16 % 16)
        ∷ hex_digit (c % 16)
        ∷ [])

is_high : ℕ → Bool
is_high c = leb 0xd800 c && ltb c 0xdc00

is_low : ℕ → Bool
is_low c = leb 0xdc00 c && ltb c 0xe000

-- A code unit that is no half of a surrogate pair.
quote_unit : ℕ → Text
unfolding unicode_escape
quote_unit c =
    if c == 34
    then codes "\\\""
    else if c == 92
    then codes "\\\\"
    else if c == 8
    then codes "\\b"
    else if c == 9
    then codes "\\t"
    else if c == 10
    then codes "\\n"
    else if c == 12
    then codes "\\f"
    else if c == 13
    then codes "\\r"
    else if ltb c 32
    then unicode_escape c
    else c ∷ []

-- A surrogate without its other half is escaped.
quoted : Text → Text
unfolding quote_unit unicode_escape is_high is_low
quoted [] = []
quoted (c ∷ []) = if is_high c || is_low c then unicode_escape c else quote_unit c
quoted (c ∷ d ∷ s) = elim (is_high c && is_low d) [
  | true ↦ c ∷ d ∷ quoted s
  | false ↦ (if is_high c || is_low c then unicode_escape c else quote_unit c) ++ quoted (d ∷ s)
]

unfoldable pub quote : Text → Text
unfolding quoted
quote s = 34 ∷ (quoted s ++ (34 ∷ []))

unfoldable mutual
  unfolding quote

  pub stringify : Value → Text
  stringify null = codes "null"
  stringify (bool true) = codes "true"
  stringify (bool false) = codes "false"
  stringify (num n) = if is_infinite n then codes "null" else n
  stringify (str s) = quote s
  stringify (arr nil) = codes "[]"
  stringify (arr (item x xs)) = b'[' ∷ (stringify x ++ (stringify_items xs ++ (b']' ∷ [])))
  stringify (obj end) = codes "{}"
  stringify (obj (field k v fs)) =
      b'{' ∷ (quote k ++ (b':' ∷ (stringify v ++ (stringify_fields fs ++ (b'}' ∷ [])))))

  pub stringify_items : Items → Text
  stringify_items nil = []
  stringify_items (item x xs) = b',' ∷ (stringify x ++ stringify_items xs)

  pub stringify_fields : Fields → Text
  stringify_fields end = []
  stringify_fields (field k v fs) =
      b',' ∷ (quote k ++ (b':' ∷ (stringify v ++ stringify_fields fs)))
