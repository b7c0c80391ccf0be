-- ===== src/Submission/Trimmed.antt =====
-- A normalized value is left as it is by a second `normalizeValue`.
use postbag.Common.{
  ℕ, suc, ◌≡◌, refl, ap, subst, ◌∙◌, inl, inr, false, [], ◌∷◌, Text, Bool-cases, ltb, if◌then◌else◌,
  is_space, trim, trim_start, trim_end,
}
use postbag.Errors.{
  Result, ok, ◌>>◌, throw_if, payload_too_large, >>=-ok, throw_if-ok, ok-injective,
}
use postbag.Json.Values.{
  Value, Items, Fields, null, bool, num, str, arr, obj, nil, item, end, field,
}
use postbag.Submission.Normalize.{
  normalize_value, normalize_items, normalize_fields, assign_new, max_depth,
}
use postbag.Json.Assign.{is_proto}

-- A text whose first unit is no white space.
abbrev StartsTrimmed : Text → Type 0
StartsTrimmed [] = Unit
StartsTrimmed (c ∷ s) = is_space c ≡ false

trim_start-StartsTrimmed : (s : Text) → StartsTrimmed (trim_start s)
trim_start-StartsTrimmed [] = tt
trim_start-StartsTrimmed (c ∷ s) = elim (Bool-cases (is_space c)) [
  | inl e ↦ rw e (trim_start-StartsTrimmed s)
  | inr e ↦ rw e e
]

trim_start_self : (s : Text) → StartsTrimmed s → trim_start s ≡ s
trim_start_self [] h = refl
trim_start_self (c ∷ s) h = rw h refl

trim_end-StartsTrimmed : (s : Text) → StartsTrimmed s → StartsTrimmed (trim_end s)
trim_end-StartsTrimmed [] h = tt
trim_end-StartsTrimmed (c ∷ s) h = ends (trim_end s)
  where
    ends :
        (t : Text)
        → StartsTrimmed (elim t [ [] ↦ if is_space c then [] else c ∷ [] | y ∷ ys ↦ c ∷ y ∷ ys ])
    ends [] = rw h h
    ends (y ∷ ys) = h

trim_end-trim_end : (s : Text) → trim_end (trim_end s) ≡ trim_end s
trim_end-trim_end [] = refl
trim_end-trim_end (c ∷ s) = ends (trim_end s) (trim_end-trim_end s)
  where
    kept : Text → Text
    kept t = elim t [ [] ↦ if is_space c then [] else c ∷ [] | y ∷ ys ↦ c ∷ y ∷ ys ]

    ends : (t : Text) → trim_end t ≡ t → trim_end (kept t) ≡ kept t
    ends [] h = elim (Bool-cases (is_space c)) [ inl e ↦ rw e refl | inr e ↦ rw (e, e) refl ]
    ends (y ∷ ys) h = ap kept h

pub trim-trim : (s : Text) → trim (trim s) ≡ trim s
trim-trim s =
    ap trim_end (
      trim_start_self (trim s) (trim_end-StartsTrimmed (trim_start s) (trim_start-StartsTrimmed s)))
    ∙ trim_end-trim_end (trim_start s)

abbrev guarded : ℕ → Value → Result Value
guarded d v = throw_if (ltb max_depth d) payload_too_large >> ok v

leaf :
    (d : ℕ) (v w : Value)
    → normalize_value v d ≡ guarded d v
    → guarded d v ≡ ok w
    → normalize_value w d ≡ ok w
leaf d v w fixed h =
    let (g, r) = throw_if-ok (ltb max_depth d) payload_too_large _ h in
    subst (λ z. normalize_value z d ≡ ok z) (ok-injective r) (fixed ∙ rw g refl)

assigned :
    (k : Text) (w : Value) (hs : Fields) (d : ℕ)
    → normalize_value w d ≡ ok w
    → normalize_fields hs d ≡ ok hs
    → normalize_fields (assign_new k w hs) d ≡ ok (assign_new k w hs)
unfolding normalize_value
assigned k w hs d h f = elim (Bool-cases (is_proto k)) [
  | inl e ↦ rw e f
  | inr e ↦ rw (e, h, f, e) refl
]

mutual
  unfolding normalize_value

  normalize_value_again :
      (v : Value) (d : ℕ) (w : Value) → normalize_value v d ≡ ok w → normalize_value w d ≡ ok w
  normalize_value_again null d w h = leaf d null w refl h
  normalize_value_again (bool b) d w h = leaf d (bool b) w refl h
  normalize_value_again (num n) d w h = leaf d (num n) w refl h
  normalize_value_again (str s) d w h =
      leaf d (str (trim s)) w (ap (λ t. guarded d (str t)) (trim-trim s)) h
  normalize_value_again (arr xs) d w h =
      let (g, r) = throw_if-ok (ltb max_depth d) payload_too_large _ h in
      let (ys, e, f) = >>=-ok (normalize_items xs (suc d)) _ r in
      subst (λ v. normalize_value v d ≡ ok v) (ok-injective f)
        (rw (g, normalize_items_again xs (suc d) ys e) refl)
  normalize_value_again (obj fs) d w h =
      let (g, r) = throw_if-ok (ltb max_depth d) payload_too_large _ h in
      let (gs, e, f) = >>=-ok (normalize_fields fs (suc d)) _ r in
      subst (λ v. normalize_value v d ≡ ok v) (ok-injective f)
        (rw (g, normalize_fields_again fs (suc d) gs e) refl)

  normalize_items_again :
      (xs : Items) (d : ℕ) (ys : Items)
      → normalize_items xs d ≡ ok ys
      → normalize_items ys d ≡ ok ys
  normalize_items_again nil d ys h =
      subst (λ zs. normalize_items zs d ≡ ok zs) (ok-injective h) refl
  normalize_items_again (item x xs) d ys h =
      let (y, e, r) = >>=-ok (normalize_value x d) _ h in
      let (zs, f, q) = >>=-ok (normalize_items xs d) _ r in
      subst (λ zs. normalize_items zs d ≡ ok zs) (ok-injective q)
        (rw (normalize_value_again x d y e, normalize_items_again xs d zs f) refl)

  normalize_fields_again :
      (fs : Fields) (d : ℕ) (gs : Fields)
      → normalize_fields fs d ≡ ok gs
      → normalize_fields gs d ≡ ok gs
  normalize_fields_again end d gs h =
      subst (λ zs. normalize_fields zs d ≡ ok zs) (ok-injective h) refl
  normalize_fields_again (field k v fs) d gs h =
      let (w, e, r) = >>=-ok (normalize_value v d) _ h in
      let (hs, f, q) = >>=-ok (normalize_fields fs d) _ r in
      subst (λ zs. normalize_fields zs d ≡ ok zs) (ok-injective q)
        (assigned k w hs d (normalize_value_again v d w e) (normalize_fields_again fs d hs f))

-- A value that `normalizeValue` returns, at whatever depth, is returned as it is when it is
-- normalized again.
pub normalize_value-normalize_value :
    (v : Value) (d : ℕ) (w : Value) → normalize_value v d ≡ ok w → normalize_value w d ≡ ok w
normalize_value-normalize_value v d w h = normalize_value_again v d w h
