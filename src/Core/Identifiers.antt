-- ===== src/Core/Identifiers.antt =====
-- packages/core/src/ids.ts. The blocks of `getRandomValues` are an argument: each is the list of
-- bytes that one call fills in, and `none` says that more blocks are wanted.
use postbag.Common.{
  ℕ, suc, ◌*◌, ◌/◌, ◌%◌, Bool, ◌||◌, not, Option, none, some, List, [], ◌∷◌, ◌++◌, ◌==◌, ltb, leb,
  if◌then◌else◌, length, drop, take, any, all, get_elem?, Text, codes, teq, index_of,
}

abbrev pub id_prefixes : List Text
id_prefixes =
    codes "org"
    ∷ codes "usr"
    ∷ codes "key"
    ∷ codes "prj"
    ∷ codes "fm"
    ∷ codes "fs"
    ∷ codes "sb"
    ∷ codes "st"
    ∷ codes "ss"
    ∷ codes "src"
    ∷ codes "ds"
    ∷ codes "rt"
    ∷ codes "dl"
    ∷ codes "dg"
    ∷ codes "ev"
    ∷ codes "dr"
    ∷ codes "wh"
    ∷ codes "whd"
    ∷ codes "fsd"
    ∷ codes "fl"
    ∷ codes "pg"
    ∷ codes "pgr"
    ∷ codes "be"
    ∷ codes "iv"
    ∷ []

abbrev pub id_alphabet : Text
id_alphabet = codes "23456789abcdefghjkmnpqrstuvwxyz"

abbrev pub id_length : ℕ
id_length = 12

-- `Math.floor(256 / ID_ALPHABET.length) * ID_ALPHABET.length`
abbrev pub random_ceiling : ℕ
random_ceiling = (256 / length id_alphabet) * length id_alphabet

abbrev pub underscore : ℕ
underscore = 95

abbrev pub is_id_prefix : Text → Bool
is_id_prefix value = any (λ prefix. teq prefix value) id_prefixes

-- What one byte appends: nothing where the byte is rejected.
unfoldable pub character_of : ℕ → Option ℕ
character_of byte =
    if leb random_ceiling byte then none else get_elem? id_alphabet (byte % length id_alphabet)

abbrev pub append_character : Text → Option ℕ → Text
append_character value none = value
append_character value (some c) = value ++ (c ∷ [])

-- One block of random bytes, left as soon as the value is long enough.
unfoldable pub fill : List ℕ → Text → Text
fill [] value = value
fill (byte ∷ bytes) value =
    let next = append_character value (character_of byte) in
    let rest = fill bytes next in if length next == id_length then next else rest

-- The loop over the blocks.
unfoldable pub random_value : List (List ℕ) → Text → Option Text
random_value [] value = if ltb (length value) id_length then none else some value
random_value (block ∷ blocks) value =
    let rest = random_value blocks (fill block value) in
    if ltb (length value) id_length then rest else some value

abbrev pub with_prefix : Text → Option Text → Option Text
with_prefix prefix none = none
with_prefix prefix (some value) = some (prefix ++ (underscore ∷ value))

unfoldable pub new_id : Text → List (List ℕ) → Option Text
new_id prefix blocks = with_prefix prefix (random_value blocks [])

pub record ParsedId : Type 0 where
  pub prefix : Text
  pub value : Text

abbrev pub in_alphabet : ℕ → Bool
in_alphabet c = any (λ a. a == c) id_alphabet

abbrev pub parse_at : Option ℕ → Text → Option ParsedId
parse_at none id = none
parse_at (some separator) id =
    if ltb separator 1
    then none
    else if not (is_id_prefix (take separator id))
        || not (length (drop (suc separator) id) == id_length)
    then none
    else if all in_alphabet (drop (suc separator) id)
    then some (record { prefix = take separator id; value = drop (suc separator) id })
    else none

unfoldable pub parse_id : Text → Option ParsedId
parse_id id = parse_at (index_of underscore id) id
