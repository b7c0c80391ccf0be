-- ===== src/Schema/NoFindings.antt =====
-- When the findings of `inspectDrift` are none, and what sorting keeps.
use postbag.Common.{
  ◌≡◌, refl, Bool, true, false, List, [], ◌∷◌, ◌++◌, ◌↔◌, inl, inr, Text, if◌then◌else◌, Bool-cases,
  All,
}
use postbag.Mapping.Validate.{text_le, insert_text, sort_texts}
use postbag.Schema.Drift.{DriftFinding, insert_findings, sort_findings, pushed}

pub ++-nil : {A : Type 0} (xs ys : List A) → (xs ++ ys ≡ []) ↔ ((xs ≡ []) × (ys ≡ []))
++-nil [] ys = (λ h. (refl, h), λ h. h.1)
++-nil (x ∷ xs) ys = (λ h. cc, λ h. let e = h.0 in cc)

-- The findings of the fields are none where no field has any.
abbrev pub NoneOf : List (Text × List DriftFinding) → Type 0
NoneOf fields = All (λ f. f.1 ≡ []) fields

insert_findings-NoneOf :
    (p : Text × List DriftFinding) (fields : List (Text × List DriftFinding))
    → (pushed (insert_findings p fields) ≡ []) ↔ ((p.1 ≡ []) × (pushed fields ≡ []))
insert_findings-NoneOf (k, f) [] = ++-nil f []
insert_findings-NoneOf (k, f) ((j, g) ∷ fields) = elim (Bool-cases (text_le k j)) [
  | inl e ↦ rw e (++-nil f (g ++ pushed fields))
  | inr e ↦
      let rest = insert_findings-NoneOf (k, f) fields in
      let here = ++-nil g (pushed (insert_findings (k, f) fields)) in
      let old = ++-nil g (pushed fields) in
      rw e (
        λ h. let (a, b) = here.0 h in let (c, d) = rest.0 b in (c, old.1 (a, d)),
        λ (c, h). let (a, d) = old.0 h in here.1 (a, rest.1 (c, d)),
      )
]

pub sort_findings-NoneOf :
    (fields : List (Text × List DriftFinding))
    → (pushed (sort_findings fields) ≡ []) ↔ NoneOf fields
sort_findings-NoneOf [] = (λ h. tt, λ h. refl)
sort_findings-NoneOf ((k, f) ∷ fields) =
    let i = insert_findings-NoneOf (k, f) (sort_findings fields) in
    let rest = sort_findings-NoneOf fields in
    (λ h. let (a, b) = i.0 h in (a, rest.0 b), λ h. i.1 (h.0, rest.1 h.1))

pub one_or_none :
    {A : Type 0} (b : Bool) (x : A) (xs : List A)
    → ((if b then x ∷ xs else xs) ≡ []) ↔ ((b ≡ false) × (xs ≡ []))
one_or_none true x xs = (λ h. cc, λ h. let e = h.0 in cc)
one_or_none false x xs = (λ h. (refl, h), λ h. h.1)

pub two_or_none :
    {A : Type 0} (a b : Bool) (x y : A)
    → ((if a then (if b then [] else x ∷ []) else y ∷ []) ≡ []) ↔ ((a ≡ true) × (b ≡ true))
two_or_none true true x y = (λ h. (refl, refl), λ h. refl)
two_or_none true false x y = (λ h. cc, λ h. let e = h.1 in cc)
two_or_none false b x y = (λ h. cc, λ h. let e = h.0 in cc)

-- Sorting names keeps what holds of all of them.
All-insert_text :
    (P : Text → Type 0) (s : Text) (ts : List Text) → All P (insert_text s ts) ↔ All P (s ∷ ts)
All-insert_text P s [] = (λ h. h, λ h. h)
All-insert_text P s (t ∷ ts) = elim (Bool-cases (text_le s t)) [
  | inl e ↦ rw e (λ h. h, λ h. h)
  | inr e ↦
      let rest = All-insert_text P s ts in
      rw e (λ (p, h). let (q, k) = rest.0 h in (q, (p, k)), λ (q, (p, k)). (p, rest.1 (q, k)))
]

pub All-sort_texts : (P : Text → Type 0) (ts : List Text) → All P (sort_texts ts) ↔ All P ts
All-sort_texts P [] = (λ h. h, λ h. h)
All-sort_texts P (t ∷ ts) =
    let i = All-insert_text P t (sort_texts ts) in
    let rest = All-sort_texts P ts in
    (λ h. let (p, k) = i.0 h in (p, rest.0 k), λ (p, k). i.1 (p, rest.1 k))
