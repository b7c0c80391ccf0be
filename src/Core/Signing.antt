-- ===== src/Core/Signing.antt =====
-- packages/core/src/signing.ts. HMAC-SHA-256 is a parameter, from a secret and a message to bytes.
-- The texts compared in constant time are hexadecimal, one byte for each character.
use Prim.Native.Nat.{bit_or, bit_xor}
use postbag.Common.{
  ℕ, zero, suc, ◌+◌, ◌*◌, ◌-◌, ◌/◌, ◌%◌, max, Bool, false, ◌&&◌, ◌||◌, not, Option, none, some,
  List, [], ◌∷◌, ◌++◌, ◌==◌, ltb, leb, if◌then◌else◌, length, all, get_elem?, get_or_else, Text,
  codes,
}

abbrev pub hex_digit : ℕ → ℕ
hex_digit n = if ltb n 10 then 48 + n else 87 + n

-- `byte.toString(16).padStart(2, "0")` of each byte
abbrev pub hex : List ℕ → Text
hex [] = []
hex (byte ∷ bytes) = hex_digit (byte / 16) ∷ hex_digit (byte % 16) ∷ hex bytes

-- A number in a template string, before `rest`.
unfoldable pub decimal_from : ℕ → ℕ → Text → Text
decimal_from zero n rest = (48 + n % 10) ∷ rest
decimal_from (suc fuel) n rest =
    let more = decimal_from fuel (n / 10) ((48 + n % 10) ∷ rest) in
    if ltb n 10 then (48 + n % 10) ∷ rest else more

abbrev pub decimal : ℕ → Text → Text
decimal n rest = decimal_from n n rest

abbrev pub byte_at : List ℕ → ℕ → ℕ
byte_at bytes index = get_or_else (get_elem? bytes index) 0

-- The loop from `index`, with `count` rounds to go.
unfoldable pub difference_from : List ℕ → List ℕ → ℕ → ℕ → ℕ → ℕ
difference_from left right zero index difference = difference
difference_from left right (suc count) index difference =
    difference_from left right count (suc index)
      (bit_or difference (bit_xor (byte_at left index) (byte_at right index)))

unfoldable pub constant_time_equal : List ℕ → List ℕ → Bool
constant_time_equal left right =
    difference_from left right (max (length left) (length right)) 0
      (bit_xor (length left) (length right))
    == 0

abbrev pub is_digit : ℕ → Bool
is_digit c = leb 48 c && leb c 57

-- `[a-f0-9]`
abbrev pub is_hex : ℕ → Bool
is_hex c = (leb 97 c && leb c 102) || is_digit c

-- The text behind a given beginning.
abbrev pub after : Text → Text → Option Text
after [] s = some s
after (p ∷ ps) [] = none
after (p ∷ ps) (c ∷ s) = if c == p then after ps s else none

-- The value of the digits at the front, and what stands behind them.
unfoldable pub read_digits : ℕ → Text → ℕ × Text
read_digits value [] = (value, [])
read_digits value (c ∷ s) =
    let more = read_digits (value * 10 + (c - 48)) s in if is_digit c then more else (value, c ∷ s)

-- `(\d+)` with its number
abbrev pub read_number : Text → Option (ℕ × Text)
read_number [] = none
read_number (c ∷ s) = if is_digit c then some (read_digits 0 (c ∷ s)) else none

pub record Header : Type 0 where
  pub timestamp : ℕ
  pub supplied : Text

abbrev pub with_supplied : ℕ → Option Text → Option Header
with_supplied timestamp none = none
with_supplied timestamp (some s) =
    if (length s == 64) && all is_hex s
    then some (record { timestamp = timestamp; supplied = s })
    else none

abbrev pub with_timestamp : Option (ℕ × Text) → Option Header
with_timestamp none = none
with_timestamp (some (timestamp, s)) = with_supplied timestamp (after (codes ",v1=") s)

abbrev pub header_behind : Option Text → Option Header
header_behind none = none
header_behind (some s) = with_timestamp (read_number s)

-- The match of `/^t=(\d+),v1=([a-f0-9]{64})$/`. The timestamp is exact, while `Number.parseInt` rounds
-- one above 2 ^ 53, as no clock in seconds shows.
unfoldable pub parse_header : Text → Option Header
parse_header s = header_behind (after (codes "t=") s)

-- `Math.abs(now - timestamp)`
abbrev pub distance : ℕ → ℕ → ℕ
distance now timestamp = (now - timestamp) + (timestamp - now)

module _ (hmac : Text → Text → List ℕ) where
  unfoldable pub signature_hex : Text → ℕ → Text → Text
  signature_hex secret timestamp body = hex (hmac secret (decimal timestamp (codes "." ++ body)))

  unfoldable pub sign_webhook : Text → ℕ → Text → Text
  sign_webhook secret timestamp body =
      codes "t=" ++ decimal timestamp (codes ",v1=" ++ signature_hex secret timestamp body)

  abbrev pub verify_header : Text → Text → (now tolerance : ℕ) → Option Header → Bool
  verify_header secret body now tolerance none = false
  verify_header secret body now tolerance (some header) =
      not (ltb tolerance (distance now header.timestamp))
      && constant_time_equal header.supplied (signature_hex secret header.timestamp body)

  -- The options are given: `now` in seconds, and a tolerance of 300 by default.
  unfoldable pub verify_webhook_signature : Text → Text → Text → (now tolerance : ℕ) → Bool
  verify_webhook_signature secret signature_header body now tolerance =
      verify_header secret body now tolerance (parse_header signature_header)
