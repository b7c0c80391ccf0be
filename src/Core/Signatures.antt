-- ===== src/Core/Signatures.antt =====
-- What a webhook's receiver may conclude from `verifyWebhookSignature`.
use postbag.Common.{
  ℕ, zero, suc, ◌+◌, ◌*◌, ◌-◌, ◌/◌, ◌%◌, ◌≤◌, ◌<◌, ◌≡◌, refl, ap, ◌∙◌, true, Option, none, some,
  List, [], ◌∷◌, ◌++◌, ltb, leb, arith, inl, inr, Bool-cases, length, all, All, Text, codes, ◌↔◌,
}
use postbag.Core.Signing.{
  hex_digit, hex, decimal_from, decimal, is_digit, is_hex, read_digits, read_number, Header,
  with_supplied, with_timestamp, parse_header, distance, signature_hex, sign_webhook, verify_header,
  verify_webhook_signature,
}
use postbag.Core.ConstantTime.{constant_time_equal_iff}

digit_lem : (n : ℕ) → is_digit (48 + n % 10) ≡ true
digit_lem n = let h : n % 10 < 10 = omega arith in ground arith

one_digit :
    (v n m : ℕ) (rest : Text)
    → v * 10 + n % 10 ≡ m
    → read_digits v ((48 + n % 10) ∷ rest) ≡ read_digits m rest
unfolding read_digits
one_digit v n m rest h =
    let e : v * 10 + ((48 + n % 10) - 48) ≡ m = omega (arith, h) in rw (digit_lem n, e) refl

read_digits-decimal :
    (fuel n : ℕ) (rest : Text)
    → n ≤ fuel
    → read_digits 0 (decimal_from fuel n rest) ≡ read_digits n rest
unfolding decimal_from
read_digits-decimal zero n rest h = one_digit 0 n n rest (omega (arith, h))
read_digits-decimal (suc fuel) n rest h = elim (Bool-cases (ltb n 10)) [
  | inl e ↦ rw e (one_digit 0 n n rest (ground arith))
  | inr e ↦ rw e (
      read_digits-decimal fuel (n / 10) ((48 + n % 10) ∷ rest) (ground arith)
      ∙ one_digit (n / 10) n n rest (omega arith))
]

read_number-decimal :
    (fuel n : ℕ) (rest : Text)
    → read_number (decimal_from fuel n rest) ≡ some (read_digits 0 (decimal_from fuel n rest))
unfolding decimal_from
read_number-decimal zero n rest = rw (digit_lem n) refl
read_number-decimal (suc fuel) n rest = elim (Bool-cases (ltb n 10)) [
  | inl e ↦ rw e (rw (digit_lem n) refl)
  | inr e ↦ rw e (read_number-decimal fuel (n / 10) ((48 + n % 10) ∷ rest))
]

length-hex : (bytes : List ℕ) → length (hex bytes) ≡ 2 * length bytes
length-hex [] = refl
length-hex (b ∷ bytes) = omega (arith, length-hex bytes)

hex_digit_lem : (n : ℕ) → n < 16 → is_hex (hex_digit n) ≡ true
hex_digit_lem n h = ground arith

hex_lem : (bytes : List ℕ) → All (λ b. b < 256) bytes → all is_hex (hex bytes) ≡ true
hex_lem [] h = refl
hex_lem (b ∷ bytes) h =
    rw (hex_digit_lem (b / 16) (omega (arith, h.0)), hex_digit_lem (b % 16) (omega arith))
      (hex_lem bytes h.1)

abbrev with_comma : Text → Text
with_comma s = codes ",v1=" ++ s

read_header_number :
    (n : ℕ) (s : Text) → read_number (decimal n (with_comma s)) ≡ some (n, with_comma s)
unfolding read_digits
read_header_number n s =
    read_number-decimal n n (with_comma s)
    ∙ ap some (read_digits-decimal n n (with_comma s) (omega arith))

supplied_lem :
    (n : ℕ) (s : Text)
    → length s ≡ 64
    → all is_hex s ≡ true
    → with_supplied n (some s) ≡ some (record { timestamp = n; supplied = s })
supplied_lem n s h k = rw (h, k) refl

module _ (hmac : Text → Text → List ℕ) where
  -- The hash has 32 bytes.
  abbrev pub Hashes : Type 0
  Hashes =
      (secret message : Text)
      → (length (hmac secret message) ≡ 32) × All (λ b. b < 256) (hmac secret message)

  parse_header-sign :
      (secret : Text) (timestamp : ℕ) (body : Text)
      → Hashes
      → parse_header (sign_webhook hmac secret timestamp body)
        ≡ some
            (record { timestamp = timestamp; supplied = signature_hex hmac secret timestamp body })
  unfolding parse_header sign_webhook signature_hex
  parse_header-sign secret timestamp body h =
      let mac : List ℕ = hmac secret (decimal timestamp (codes "." ++ body)) in
      let (l, b) = h secret (decimal timestamp (codes "." ++ body)) in
      ap with_timestamp (read_header_number timestamp (hex mac))
      ∙ supplied_lem timestamp (hex mac) (length-hex mac ∙ omega (arith, l)) (hex_lem mac b)

  -- A signature of the same secret and body verifies exactly when its timestamp is within the tolerance.
  pub verify-sign :
      (secret : Text) (timestamp : ℕ) (body : Text) (now tolerance : ℕ)
      → Hashes
      → verify_webhook_signature hmac secret
          (sign_webhook hmac secret timestamp body)
          body
          now
          tolerance
        ≡ leb (distance now timestamp) tolerance
  unfolding verify_webhook_signature
  verify-sign secret timestamp body now tolerance h =
      let s : Text = signature_hex hmac secret timestamp body in
      rw (parse_header-sign secret timestamp body h, (constant_time_equal_iff s s).1 refl)
        (ground arith)

  -- A header verifies exactly when it reads as a timestamp within the tolerance and the signature
  -- of that timestamp and the body under the secret.
  pub verify_iff :
      (secret header body : Text) (now tolerance : ℕ)
      → (verify_webhook_signature hmac secret header body now tolerance ≡ true) ↔ (
          (h : Header) × (parse_header header ≡ some h)
          × (distance now h.timestamp ≤ tolerance)
          × (h.supplied ≡ signature_hex hmac secret h.timestamp body))
  unfolding verify_webhook_signature
  verify_iff secret header body now tolerance = (
    taken (parse_header header) refl,
    λ r. ap (verify_header hmac secret body now tolerance) r.1 ∙ holds r.0 r.2 r.3,
  )
    where
      holds :
          (h : Header)
          → distance now h.timestamp ≤ tolerance
          → h.supplied ≡ signature_hex hmac secret h.timestamp body
          → verify_header hmac secret body now tolerance (some h) ≡ true
      holds h d e =
          let c =
            (constant_time_equal_iff h.supplied (signature_hex hmac secret h.timestamp body)).1 e in
          ground arith

      taken :
          (o : Option Header)
          → parse_header header ≡ o
          → verify_header hmac secret body now tolerance o ≡ true
          → (h : Header) × (parse_header header ≡ some h)
            × (distance now h.timestamp ≤ tolerance)
            × (h.supplied ≡ signature_hex hmac secret h.timestamp body)
      taken none e t = cc
      taken (some h) e t = (
        h,
        e,
        (ground arith),
        (constant_time_equal_iff h.supplied (signature_hex hmac secret h.timestamp body)).0
            (ground arith),
      )
