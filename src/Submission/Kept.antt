-- ===== src/Submission/Kept.antt =====
-- What becomes of a plain field of a body, and what a normalized body is bounded by.
use postbag.Common.{
  ℕ, ◌≡◌, refl, ap, subst, sym, ◌∙◌, inl, inr, Bool, false, Option, none, some, List, [], ◌∷◌, Text,
  teq, Bool-cases, ltb, if◌then◌else◌, length, All, teq-cases,
}
use postbag.Errors.{ok, payload_too_large, >>=-ok, throw_if-ok, ok-injective}
use postbag.Json.Values.{Value, Fields, null, bool, num, str, arr, obj, end, field, entries, own}
use postbag.Json.Assign.{is_proto, assign, own-assign}
use postbag.Submission.ArrayKeys.{ArrayKey, array_key, map_set}
use postbag.Submission.Normalize.{
  NormalizedBody, Sorting, normalize_value, normalize_body, sort_entry, sort_entries, set_data,
  set_indexed, set_array_key, add_arrays, finish, is_control_field, max_fields, ordered_values,
  empty_body,
}

-- The bases of the arrays that wait behind the loop.
abbrev OtherBases : Text → List (Text × List (ℕ × Value)) → Type 0
OtherBases k m = All (λ p. teq p.0 k ≡ false) m

OtherBases-map_set :
    (k base : Text) (values : List (ℕ × Value)) (m : List (Text × List (ℕ × Value)))
    → teq base k ≡ false
    → OtherBases k m
    → OtherBases k (map_set teq m base values)
OtherBases-map_set k base values [] h o = (h, tt)
OtherBases-map_set k base values ((j, w) ∷ m) h o = elim (Bool-cases (teq j base)) [
  | inl e ↦ rw e o
  | inr e ↦ rw e (o.0, OtherBases-map_set k base values m h o.1)
]

own-add_arrays :
    (k : Text) (fs : Fields) (m : List (Text × List (ℕ × Value)))
    → is_proto k ≡ false
    → OtherBases k m
    → own k (add_arrays fs m) ≡ own k fs
unfolding add_arrays
own-add_arrays k fs [] h o = refl
own-add_arrays k fs ((base, values) ∷ m) h o =
    own-add_arrays k (assign fs base (ordered_values values)) m h o.1
    ∙ own-assign fs base k (ordered_values values) h
    ∙ rw o.0 refl

-- A name that stands for itself: no control field, no `base[index]` and not `__proto__`.
abbrev pub IsPlainName : Text → Type 0
IsPlainName k = (is_control_field k ≡ false) × (array_key k ≡ none) × (is_proto k ≡ false)

-- No key of the form `k[index]`.
abbrev is_based : Text → Option ArrayKey → Bool
is_based k none = false
is_based k (some a) = teq a.base k

abbrev pub NotBased : Text → Fields → Type 0
NotBased k end = Unit
NotBased k (field j v fs) = (is_based k (array_key j) ≡ false) × NotBased k fs

other_name :
    (k key : Text) {A : Type 0} (f : Text → A) {a b : A}
    → f key ≡ a
    → f k ≡ b
    → (a ≡ b → ⊥)
    → teq key k ≡ false
other_name k key f h g apart = elim (teq-cases key k) [
  | inl (p, e) ↦ absurd (apart (sym h ∙ ap f p ∙ g))
  | inr e ↦ e
]

-- What a round of the loop does to the plain field `k`.
abbrev Round : Text → Text → Value → Sorting → Sorting → Type 0
Round k key v s t =
    (own k t.body.fields ≡ (if teq key k then some v else own k s.body.fields))
    × OtherBases k t.indexed_arrays

set_data-Round :
    (k key base : Text) (v : Value) (s : Sorting)
    → is_proto k ≡ false
    → teq key k ≡ teq base k
    → OtherBases k s.indexed_arrays
    → Round k key v s (set_data s base v)
set_data-Round k key base v s h e o = (own-assign s.body.fields base k v h ∙ rw e refl, o)

set_indexed-Round :
    (k key : Text) (a : ArrayKey) (v : Value) (s : Sorting)
    → teq key k ≡ false
    → teq a.base k ≡ false
    → OtherBases k s.indexed_arrays
    → Round k key v s (set_indexed s a v)
set_indexed-Round k key a v s e b o =
    (rw e refl, OtherBases-map_set k a.base _ s.indexed_arrays b o)

set_array_key-Round :
    (k key : Text) (a : ArrayKey) (v : Value) (s : Sorting)
    → is_proto k ≡ false
    → teq key k ≡ false
    → teq a.base k ≡ false
    → OtherBases k s.indexed_arrays
    → Round k key v s (set_array_key s a v)
set_array_key-Round k key a (arr xs) s h e b o = by_index a.index
  where
    by_index :
        (i : Option ℕ)
        → Round k key
            (arr xs)
            s
            (elim i [ none ↦ set_data s a.base (arr xs) | some j ↦ set_indexed s a (arr xs) ])
    by_index none = set_data-Round k key a.base (arr xs) s h (e ∙ sym b) o
    by_index (some j) = set_indexed-Round k key a (arr xs) s e b o
set_array_key-Round k key a null s h e b o = set_indexed-Round k key a null s e b o
set_array_key-Round k key a (bool t) s h e b o = set_indexed-Round k key a (bool t) s e b o
set_array_key-Round k key a (num n) s h e b o = set_indexed-Round k key a (num n) s e b o
set_array_key-Round k key a (str t) s h e b o = set_indexed-Round k key a (str t) s e b o
set_array_key-Round k key a (obj fs) s h e b o = set_indexed-Round k key a (obj fs) s e b o

sort_entry-Round :
    (k key : Text) (v : Value) (s : Sorting)
    → IsPlainName k
    → is_based k (array_key key) ≡ false
    → OtherBases k s.indexed_arrays
    → Round k key v s (sort_entry s key v)
unfolding sort_entry
sort_entry-Round k key v s p n o = elim (Bool-cases (is_control_field key)) [
  | inl e ↦ rw (e, other_name k key is_control_field e p.0 (λ f. cc)) (refl, o)
  | inr e ↦ rw e (by_key (array_key key) refl n)
]
  where
    by_key :
        (a : Option ArrayKey)
        → array_key key ≡ a
        → is_based k a ≡ false
        → Round k key v s (elim a [ none ↦ set_data s key v | some b ↦ set_array_key s b v ])
    by_key none e b = set_data-Round k key key v s p.2 refl o
    by_key (some a) e b =
        set_array_key-Round k key a v s p.2 (other_name k key array_key e p.1 (λ f. cc)) b o

-- No name stands twice, as in an object of JavaScript.
abbrev pub NoRepeat : Fields → Type 0
NoRepeat end = Unit
NoRepeat (field j v fs) = (own j fs ≡ none) × NoRepeat fs

-- A field of the input, normalized, is the field of the output; without one, what was there stays.
abbrev pub Carried : Option Value → Option Value → Option Value → Type 0
Carried none before after = after ≡ before
Carried (some v) before after = (w : Value) × (normalize_value v 1 ≡ ok w) × (after ≡ some w)

sort_entries-Carried :
    (k : Text) (fs : Fields) (s t : Sorting)
    → IsPlainName k
    → NoRepeat fs
    → NotBased k fs
    → OtherBases k s.indexed_arrays
    → sort_entries s (entries fs) ≡ ok t
    → Carried (own k fs) (own k s.body.fields) (own k t.body.fields) × OtherBases k t.indexed_arrays
unfolding sort_entries
sort_entries-Carried k end s t p u n o h =
    let e : s ≡ t = ok-injective h in
    (
      ap (λ (z : Sorting). own k z.body.fields) (sym e),
      subst (λ (z : Sorting). OtherBases k z.indexed_arrays) e o,
    )
sort_entries-Carried k (field j v fs) s t p u n o h =
    let (w, e, r) = >>=-ok (normalize_value v 1) _ h in
    let round = sort_entry-Round k j w s p n.0 o in
    let rest = sort_entries-Carried k fs (sort_entry s j w) t p u.1 n.1 round.1 r in
    (
      elim (teq-cases j k) [
        | inl (q, f) ↦
            let absent : own k fs ≡ none = subst (λ z. own z fs ≡ none) q u.0 in
            let now : own k (sort_entry s j w).body.fields ≡ some w = round.0 ∙ rw f refl in
            let after : own k t.body.fields ≡ own k (sort_entry s j w).body.fields =
              subst (λ z. Carried z (own k (sort_entry s j w).body.fields) (own k t.body.fields))
                absent rest.0 in
            rw f (w, e, after ∙ now)
        | inr f ↦
            let now : own k (sort_entry s j w).body.fields ≡ own k s.body.fields =
              round.0 ∙ rw f refl in
            rw f (subst (λ z. Carried (own k fs) z (own k t.body.fields)) now rest.0)
      ],
      rest.1,
    )

-- A body that `normalizeBody` returns has the input's plain fields, normalized, and no other field of
-- a plain name: `k` is no control field, no `base[index]` and not `__proto__`, and no key of the input
-- has the form `k[index]`. The input is an object, in which no name stands twice.
pub normalize_body-own :
    (k : Text) (fs : Fields) (n : NormalizedBody)
    → NoRepeat fs
    → IsPlainName k
    → NotBased k fs
    → normalize_body (obj fs) ≡ ok n
    → Carried (own k fs) none (own k n.fields)
unfolding normalize_body finish
normalize_body-own k fs n u p b h =
    let (_, r) = throw_if-ok (ltb max_fields (length (entries fs))) payload_too_large _ h in
    let (t, e, f) =
      >>=-ok (sort_entries (record { body = empty_body; indexed_arrays = [] }) (entries fs)) _ r in
    let (_, g) = throw_if-ok _ payload_too_large _ f in
    let c = sort_entries-Carried k fs _ t p u b tt e in
    let fields_of : own k n.fields ≡ own k t.body.fields =
      ap (λ (z : NormalizedBody). own k z.fields) (sym (ok-injective g))
      ∙ own-add_arrays k t.body.fields t.indexed_arrays p.2 c.1 in
    subst (λ z. Carried (own k fs) none z) (sym fields_of) c.0
