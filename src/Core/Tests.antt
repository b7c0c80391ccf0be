-- ===== src/Core/Tests.antt =====
-- Tests of the modules of packages/core, and the theorems at concrete inputs.
use postbag.Common.{
  ℕ, ◌%◌, ◌≤◌, ◌≡◌, refl, true, none, some, List, [], ◌∷◌, arith, length, all, Text, codes, ◌↔◌,
}
use postbag.Core.Mailbox.{normalize_mailbox}
use postbag.Core.Addresses.{IsAddress}
use postbag.Core.Identifiers.{
  id_length, new_id, in_alphabet, parse_id, character_of, fill, random_value,
}
use postbag.Core.FreshIds.{parse_id-new_id}
use postbag.Core.Signing.{Header, distance, parse_header, signature_hex, verify_webhook_signature}
use postbag.Core.Signatures.{Hashes, verify_iff}

test_gmail : normalize_mailbox (codes " A.f.Fahim+x@googlemail.com ") ≡ codes "affahim@gmail.com"
unfolding normalize_mailbox
test_gmail = refl

test_other : normalize_mailbox (codes "First.Last+a+b@example.com") ≡ codes "first.last@example.com"
unfolding normalize_mailbox
test_other = refl

test_no_address : normalize_mailbox (codes "eric@") ≡ codes "eric@"
unfolding normalize_mailbox
test_no_address = refl

abbrev tagged : IsAddress (codes "Eric+x") (codes "gmail.com")
tagged = record { trimmed = refl; local_given = refl; domain_given = refl; one_domain = refl }

abbrev plain : IsAddress (codes "Eric") (codes "gmail.com")
plain = record { trimmed = refl; local_given = refl; domain_given = refl; one_domain = refl }

abbrev block : List ℕ
block = 255 ∷ 0 ∷ 1 ∷ 2 ∷ 3 ∷ 4 ∷ 5 ∷ 6 ∷ 7 ∷ 8 ∷ 9 ∷ 10 ∷ 250 ∷ 42 ∷ 43 ∷ []

test_new_id : new_id (codes "fm") (block ∷ []) ≡ some (codes "fm_23456789abcd")
unfolding new_id random_value fill character_of
test_new_id = refl

test_parse_id : parse_id (codes "xx_23456789abcd") ≡ none
unfolding parse_id
test_parse_id = refl

parse_id-new_id_example :
    (id value : Text) × (new_id (codes "fm") (block ∷ []) ≡ some id)
    × (parse_id id ≡ some (record { prefix = codes "fm"; value = value }))
    × (length value ≡ id_length)
    × (all in_alphabet value ≡ true)
parse_id-new_id_example = parse_id-new_id (codes "fm") (block ∷ []) refl (omega arith)

-- A hash of 32 bytes that depends on the length of the message.
abbrev toy_hmac : Text → Text → List ℕ
toy_hmac secret message =
    (length message % 256)
    ∷ 1
    ∷ 2
    ∷ 3
    ∷ 4
    ∷ 5
    ∷ 6
    ∷ 7
    ∷ 8
    ∷ 9
    ∷ 10
    ∷ 11
    ∷ 12
    ∷ 13
    ∷ 14
    ∷ 15
    ∷ 16
    ∷ 17
    ∷ 18
    ∷ 19
    ∷ 20
    ∷ 21
    ∷ 22
    ∷ 23
    ∷ 24
    ∷ 25
    ∷ 26
    ∷ 27
    ∷ 28
    ∷ 29
    ∷ 30
    ∷ 171
    ∷ []

toy_hmac-Hashes : Hashes toy_hmac
toy_hmac-Hashes secret message = (refl, omega arith)

verify_iff_example :
    (verify_webhook_signature toy_hmac (codes "s") (codes "t=1700,v1=00") (codes "{}") 1900 300
      ≡ true)
    ↔ ((h : Header) × (parse_header (codes "t=1700,v1=00") ≡ some h)
        × (distance 1900 h.timestamp ≤ 300)
        × (h.supplied ≡ signature_hex toy_hmac (codes "s") h.timestamp (codes "{}")))
verify_iff_example = verify_iff toy_hmac (codes "s") (codes "t=1700,v1=00") (codes "{}") 1900 300
