-- ===== src/Submission/Tests.antt =====
-- Bodies normalized at concrete inputs, and the theorems at examples.
use postbag.Common.{◌+◌, ◌≤◌, ◌<◌, ◌≡◌, refl, codes, none}
use postbag.Errors.{ok, err, payload_too_large}
use postbag.Json.Values.{Value, Fields, null, str, arr, obj, nil, item, end, field, own}
use postbag.Submission.ArrayKeys.{array_key}
use postbag.Submission.Normalize.{NormalizedBody, normalize_value, normalize_body, max_depth}
use postbag.Submission.Depth.{height, normalize_value-height}
use postbag.Submission.Kept.{Carried, normalize_body-own}
use postbag.Submission.Bounds.{Answered, normalize_body-Answered}

abbrev posted_fields : Fields
posted_fields =
    (field (codes "name") (str (codes " Ann ")) (
      field (codes "tag[2]") (str (codes "c")) (
        field (codes "_gotcha") (str (codes "")) (
          field (codes "tag[0]") (str (codes "a")) (
            field (codes "all[]") (arr (item (str (codes "x")) nil))
              (field (codes "__proto__") null end))))))

abbrev posted : Value
posted = obj posted_fields

abbrev sorted : NormalizedBody
sorted = (record {
  fields = field (codes "name") (str (codes "Ann")) (
      field (codes "all") (arr (item (str (codes "x")) nil))
        (field (codes "tag") (arr (item (str (codes "a")) (item (str (codes "c")) nil))) end));
  control = field (codes "_gotcha") (str (codes "")) end;
})

sorted_body : normalize_body posted ≡ ok sorted
unfolding normalize_body
sorted_body = refl

abbrev padded : Value
padded = arr (item (str (codes "  a b ")) nil)

abbrev unpadded : Value
unpadded = arr (item (str (codes "a b")) nil)

unpads : normalize_value padded 1 ≡ ok unpadded
unfolding normalize_value
unpads = refl

normalize_value-height_example :
    (12 + height padded ≤ max_depth + 1 → (w : Value) × (normalize_value padded 12 ≡ ok w))
    × (max_depth + 1 < 12 + height padded → normalize_value padded 12 ≡ err payload_too_large)
normalize_value-height_example = normalize_value-height padded 12

normalize_body-own_example :
    Carried (own (codes "name") posted_fields) none (own (codes "name") sorted.fields)
unfolding array_key
normalize_body-own_example =
    normalize_body-own (codes "name") posted_fields sorted
      (refl, (refl, (refl, (refl, (refl, (refl, tt)))))) (refl, refl, refl)
      (refl, (refl, (refl, (refl, (refl, (refl, tt)))))) sorted_body

normalize_body-Answered_example : Answered posted (normalize_body posted)
normalize_body-Answered_example = normalize_body-Answered posted
