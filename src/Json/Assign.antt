-- ===== src/Json/Assign.antt =====
-- Assignments to the properties of a plain object, as `normalizeBody` of
-- packages/core/src/submission.ts and `applyMapping` of packages/core/src/mapping.ts make them.
use postbag.Common.{
  ◌≡◌, refl, ap, subst, sym, ◌∙◌, inl, inr, Bool, true, false, some, Text, codes, teq, teq-cases,
  Bool-cases, if◌then◌else◌,
}
use postbag.Json.Values.{Value, Fields, end, field, own}

-- `fields[key] = value` on a plain object: an assignment to `__proto__` makes no property.
abbrev pub is_proto : Text → Bool
is_proto key = teq key (codes "__proto__")

unfoldable pub assign : Fields → Text → Value → Fields
assign end key v = if is_proto key then end else field key v end
assign (field k w fs) key v = if teq k key then field k v fs else field k w (assign fs key v)

pub own-assign :
    (fs : Fields) (key k : Text) (v : Value)
    → is_proto k ≡ false
    → own k (assign fs key v) ≡ (if teq key k then some v else own k fs)
unfolding assign
own-assign end key k v h = elim (Bool-cases (is_proto key)) [
  | inl e ↦ elim (teq-cases key k) [
    | inl (p, q) ↦ absurd (never (subst (λ z. is_proto z ≡ true) p e))
    | inr q ↦ rw (e, q) refl
  ]
  | inr e ↦ rw e refl
]
  where
    never : is_proto k ≡ true → ⊥
    never t = cc
own-assign (field j w fs) key k v h = elim (teq-cases j key) [
  | inl (p, q) ↦
      let f : teq key k ≡ teq j k = ap (λ z. teq z k) (sym p) in
      elim (Bool-cases (teq j k)) [ inl e ↦ rw (q, f, e) refl | inr e ↦ rw (q, f, e) refl ]
  | inr q ↦ elim (teq-cases j k) [
    | inl (p, e) ↦ elim (teq-cases key k) [
      | inl (p', e') ↦ absurd (apart (subst (λ z. teq j z ≡ true) (sym p') e) q)
      | inr e' ↦ rw (q, e, e') refl
    ]
    | inr e ↦ elim (Bool-cases (teq key k)) [
      | inl e' ↦ rw (q, e, e') (own-assign fs key k v h ∙ rw e' refl)
      | inr e' ↦ rw (q, e, e') (own-assign fs key k v h ∙ rw e' refl)
    ]
  ]
]
  where
    apart : teq j key ≡ true → teq j key ≡ false → ⊥
    apart t f = cc
