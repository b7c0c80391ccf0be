-- ===== src/Submission/Bounds.antt =====
-- The size of a body that `normalizeBody` returns, and how it refuses the others.
use postbag.Common.{
  ℕ, ◌≡◌, ◌≤◌, refl, subst, Bool, true, false, List, [], ◌∷◌, Text, ltb, arith, length,
}
use postbag.Errors.{
  Result, err, ok, ◌>>=◌, ◌>>◌, throw_if, payload_too_large, >>=-ok, throw_if-ok, ok-injective,
}
use postbag.Json.Values.{Value, Fields, null, bool, num, str, arr, obj, entries}
use postbag.Submission.Normalize.{
  NormalizedBody, Sorting, normalize_value, normalize_body, sort_entry, sort_entries, add_arrays,
  finish, max_fields, max_bytes, body_text, utf8_length, empty_body,
}
use postbag.Submission.Depth.{normalize_value-err}

abbrev OnlyTooLarge : {A : Type 0} → Result A → Type 0
OnlyTooLarge (ok a) = Unit
OnlyTooLarge (err e) = e ≡ payload_too_large

bind-OnlyTooLarge :
    {A B : Type 0} (r : Result A) (f : A → Result B)
    → OnlyTooLarge r
    → ((a : A) → OnlyTooLarge (f a))
    → OnlyTooLarge (r >>= f)
bind-OnlyTooLarge (ok a) f h k = k a
bind-OnlyTooLarge (err e) f h k = h

guard-OnlyTooLarge :
    {A : Type 0} (b : Bool) (r : Result A)
    → OnlyTooLarge r
    → OnlyTooLarge (throw_if b payload_too_large >> r)
guard-OnlyTooLarge true r h = refl
guard-OnlyTooLarge false r h = h

normalize_value-OnlyTooLarge : (v : Value) (d : ℕ) → OnlyTooLarge (normalize_value v d)
normalize_value-OnlyTooLarge v d = thrown (normalize_value v d) refl
  where
    thrown : (r : Result Value) → normalize_value v d ≡ r → OnlyTooLarge r
    thrown (ok w) h = tt
    thrown (err e) h = normalize_value-err v d e h

sort_entries-OnlyTooLarge :
    (s : Sorting) (es : List (Text × Value)) → OnlyTooLarge (sort_entries s es)
unfolding sort_entries
sort_entries-OnlyTooLarge s [] = tt
sort_entries-OnlyTooLarge s ((key, raw) ∷ es) =
    bind-OnlyTooLarge (normalize_value raw 1) _ (normalize_value-OnlyTooLarge raw 1)
      (λ v. sort_entries-OnlyTooLarge (sort_entry s key v) es)

finish-OnlyTooLarge : (s : Sorting) → OnlyTooLarge (finish s)
unfolding finish
finish-OnlyTooLarge s =
    let normalized : NormalizedBody = record s.body {
      fields = add_arrays s.body.fields s.indexed_arrays;
    } in
    guard-OnlyTooLarge (ltb max_bytes (utf8_length (body_text normalized))) (ok normalized) tt

normalize_body-OnlyTooLarge : (input : Value) → OnlyTooLarge (normalize_body input)
unfolding normalize_body
normalize_body-OnlyTooLarge (obj fs) = guard-OnlyTooLarge (ltb max_fields (length (entries fs))) _ (
    bind-OnlyTooLarge
      (sort_entries (record { body = empty_body; indexed_arrays = [] }) (entries fs)) _
      (sort_entries-OnlyTooLarge _ (entries fs)) finish-OnlyTooLarge)
normalize_body-OnlyTooLarge null = refl
normalize_body-OnlyTooLarge (bool b) = refl
normalize_body-OnlyTooLarge (num n) = refl
normalize_body-OnlyTooLarge (str s) = refl
normalize_body-OnlyTooLarge (arr xs) = refl

-- What a caller of `normalizeBody` may rely on: a returned body, and the error otherwise.
abbrev pub Answered : Value → Result NormalizedBody → Type 0
Answered input (err e) = e ≡ payload_too_large
Answered input (ok n) =
    (fs : Fields) × (input ≡ obj fs)
    × (length (entries fs) ≤ max_fields)
    × (utf8_length (body_text n) ≤ max_bytes)

not_below : (a b : ℕ) → ltb a b ≡ false → b ≤ a
not_below a b h = ground arith

within : (input : Value) (n : NormalizedBody) → normalize_body input ≡ ok n → Answered input (ok n)
unfolding normalize_body finish
within (obj fs) n h =
    let (few, r) = throw_if-ok (ltb max_fields (length (entries fs))) payload_too_large _ h in
    let (t, e, f) =
      >>=-ok (sort_entries (record { body = empty_body; indexed_arrays = [] }) (entries fs)) _ r in
    let (small, g) = throw_if-ok _ payload_too_large _ f in
    let fits : ltb max_bytes (utf8_length (body_text n)) ≡ false =
      subst (λ z. ltb max_bytes (utf8_length (body_text z)) ≡ false) (ok-injective g) small in
    (fs, refl, not_below _ _ few, not_below _ _ fits)
within null n h = cc
within (bool b) n h = cc
within (num t) n h = cc
within (str s) n h = cc
within (arr xs) n h = cc

-- Every call of `normalizeBody` answers: it refuses with `payload_too_large` and with nothing else,
-- and what it returns came of an object of at most 1000 fields and has at most 1000000 bytes as JSON.
pub normalize_body-Answered : (input : Value) → Answered input (normalize_body input)
normalize_body-Answered input =
    answered (normalize_body input) refl (normalize_body-OnlyTooLarge input)
  where
    answered :
        (r : Result NormalizedBody) → normalize_body input ≡ r → OnlyTooLarge r → Answered input r
    answered (err e) h k = k
    answered (ok n) h k = within input n h
