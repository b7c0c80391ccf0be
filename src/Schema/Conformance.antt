-- ===== src/Schema/Conformance.antt =====
-- `detectDrift` against what it is for a submission to have the types of a schema.
use postbag.Common.{
  ◌≡◌, ◌≢◌, refl, subst, sym, true, false, ◌&&◌, List, [], ◌∷◌, ◌++◌, ◌↔◌, ◌⊎◌, inl, inr, Text,
  codes, teq, teq_iff, teq_refl, if◌then◌else◌, Bool-cases, All, Has, any-Has, Has-any, arith,
}
use postbag.Json.Values.{Value, Fields, null, bool, num, str, arr, obj, end, field}
use postbag.Json.Read.{Found, missing, value, method, prototype, read}
use postbag.Mapping.Validate.{sort_texts, strings_of, is_record_found}
use postbag.Schema.NoFindings.{
  ++-nil, NoneOf, sort_findings-NoneOf, one_or_none, two_or_none, All-sort_texts,
}
use postbag.Schema.Drift.{
  DriftFinding, value_type, allowed_types, has_text, compatible, child_path, properties_of,
  sort_findings, pushed, is_missing, missing_fields, required_of, inspect_leaf, inspect_value,
  inspect_fields, inspect_drift, detect_drift,
}

-- A type that a list of types admits: no list admits any, and `number` admits `integer`.
abbrev pub Admits : List Text → Text → Type 0
Admits expected actual =
    (expected ≡ [])
    ⊎ Has actual expected
    ⊎ ((actual ≡ codes "integer") × Has (codes "number") expected)

-- A schema that is an object, and admits the value's own type.
pub record IsTyped (v : Value) (schema : Found) : Type 0 where
  pub described : is_record_found schema ≡ true
  pub admitted : Admits (allowed_types schema) (value_type v)

-- The required names that the object has.
abbrev pub HasRequired : Fields → Found → Type 0
HasRequired fs schema =
    All (λ key. read (value (obj fs)) key ≢ missing) (strings_of (read schema (codes "required")))

-- A value with the types of a schema, at every depth of its objects.
unfoldable mutual
  pub HasType : Value → Found → Type 0
  HasType null schema = IsTyped null schema
  HasType (bool b) schema = IsTyped (bool b) schema
  HasType (num n) schema = IsTyped (num n) schema
  HasType (str s) schema = IsTyped (str s) schema
  HasType (arr xs) schema = IsTyped (arr xs) schema
  HasType (obj fs) schema =
      IsTyped (obj fs) schema × HaveTypes fs (properties_of schema) × HasRequired fs schema

  -- Each field has the type of the property with its name.
  pub HaveTypes : Fields → Found → Type 0
  HaveTypes end properties = Unit {0}
  HaveTypes (field key v fs) properties = HasType v (read properties key) × HaveTypes fs properties

read_missing : (found : Found) → (is_missing found ≡ false) ↔ (found ≢ missing)
read_missing missing = (λ h. cc, λ h. absurd (h refl))
read_missing (value v) = (λ h e. cc, λ h. refl)
read_missing method = (λ h e. cc, λ h. refl)
read_missing prototype = (λ h e. cc, λ h. refl)

missing_fields_lem :
    (fs : Fields) (required : List Text) (prefix : Text)
    → (missing_fields fs required prefix ≡ [])
      ↔ All (λ key. read (value (obj fs)) key ≢ missing) required
unfolding missing_fields
missing_fields_lem fs [] prefix = (λ h. tt, λ h. refl)
missing_fields_lem fs (key ∷ required) prefix =
    let rest = missing_fields_lem fs required prefix in
    let r = read_missing (read (value (obj fs)) key) in
    let g =
      one_or_none (is_missing (read (value (obj fs)) key)) _ (missing_fields fs required prefix) in
    (λ h. let (a, b) = g.0 h in (r.0 a, rest.0 b), λ h. g.1 (r.1 h.0, rest.1 h.1))

Has-has_text : (t : Text) (ts : List Text) → (has_text t ts ≡ true) ↔ Has t ts
Has-has_text t ts = (
  λ h. let (s, m, e) = any-Has (teq t) ts h in subst (λ z. Has z ts) (sym ((teq_iff t s).0 e)) m,
  λ m. Has-any (teq t) ts t m (teq_refl t),
)

compatible_lem :
    (expected : List Text) (actual : Text)
    → (compatible expected actual ≡ true) ↔ Admits expected actual
unfolding compatible
compatible_lem [] actual = (λ h. inl refl, λ h. refl)
compatible_lem (t ∷ ts) actual =
    let named = Has-has_text actual (t ∷ ts) in
    let number = Has-has_text (codes "number") (t ∷ ts) in
    let whole = teq_iff actual (codes "integer") in
    (
      λ h. elim (Bool-cases (has_text actual (t ∷ ts))) [
        | inl e ↦ inr (inl (named.0 e))
        | inr e ↦
            let both : (teq actual (codes "integer") ≡ true)
                × (has_text (codes "number") (t ∷ ts) ≡ true) =
              ground arith in
            inr (inr (whole.0 both.0, number.0 both.1))
      ],
      λ g. elim g [
        | inl e ↦ cc
        | inr (inl m) ↦ let e = named.1 m in rw e refl
        | inr (inr (e, m)) ↦ let i = whole.1 e in let n = number.1 m in ground arith
      ],
    )

IsTyped_lem :
    (v : Value) (schema : Found)
    → ((is_record_found schema ≡ true) × (compatible (allowed_types schema) (value_type v) ≡ true))
      ↔ IsTyped v schema
IsTyped_lem v schema =
    let c = compatible_lem (allowed_types schema) (value_type v) in
    (λ (d, h). record { described = d; admitted = c.0 h }, λ t. (t.described, c.1 t.admitted))

inspect_leaf-IsTyped :
    (v : Value) (schema : Found) (path : Text)
    → (inspect_leaf v schema path ≡ []) ↔ IsTyped v schema
unfolding inspect_leaf
inspect_leaf-IsTyped v schema path =
    let t =
      two_or_none (is_record_found schema) (compatible (allowed_types schema) (value_type v)) _ _ in
    let i = IsTyped_lem v schema in (λ h. i.0 (t.0 h), λ h. t.1 (i.1 h))

required_of-HasRequired :
    (fs : Fields) (schema : Found) (path : Text)
    → (missing_fields fs (required_of schema) path ≡ []) ↔ HasRequired fs schema
unfolding required_of
required_of-HasRequired fs schema path =
    let names = strings_of (read schema (codes "required")) in
    let m = missing_fields_lem fs (sort_texts names) path in
    let s = All-sort_texts (λ key. read (value (obj fs)) key ≢ missing) names in
    (λ h. s.0 (m.0 h), λ h. m.1 (s.1 h))

-- What an object of a compatible type shows, and what one of another type shows.
object_or_leaf :
    (fs : Fields) (schema : Found) (path : Text) (inside : List DriftFinding)
    → ((if is_record_found schema && compatible (allowed_types schema) (value_type (obj fs))
          then inside
          else inspect_leaf (obj fs) schema path)
        ≡ [])
      ↔ (IsTyped (obj fs) schema × (inside ≡ []))
object_or_leaf fs schema path inside =
    let i = IsTyped_lem (obj fs) schema in
    elim (Bool-cases
      (is_record_found schema && compatible (allowed_types schema) (value_type (obj fs)))) [
        | inl e ↦
            let both : (is_record_found schema ≡ true)
                × (compatible (allowed_types schema) (value_type (obj fs)) ≡ true) =
              ground arith in
            rw e (λ h. (i.0 both, h), λ h. h.1)
        | inr e ↦
            let l = inspect_leaf-IsTyped (obj fs) schema path in
            let other : IsTyped (obj fs) schema → ⊥ = λ t. let (a, b) = i.1 t in ground arith in
            rw e (λ h. absurd (other (l.0 h)), λ h. absurd (other h.0))
      ]

mutual
  unfolding inspect_value inspect_fields HasType

  inspect_value-HasType :
      (v : Value) (schema : Found) (path : Text)
      → (inspect_value v schema path ≡ []) ↔ HasType v schema
  inspect_value-HasType null schema path = inspect_leaf-IsTyped null schema path
  inspect_value-HasType (bool b) schema path = inspect_leaf-IsTyped (bool b) schema path
  inspect_value-HasType (num n) schema path = inspect_leaf-IsTyped (num n) schema path
  inspect_value-HasType (str s) schema path = inspect_leaf-IsTyped (str s) schema path
  inspect_value-HasType (arr xs) schema path = inspect_leaf-IsTyped (arr xs) schema path
  inspect_value-HasType (obj fs) schema path =
      let fields = inspect_fields fs (properties_of schema) path in
      let missed = missing_fields fs (required_of schema) path in
      let o = object_or_leaf fs schema path (pushed (sort_findings fields) ++ missed) in
      let parts = ++-nil (pushed (sort_findings fields)) missed in
      let s = sort_findings-NoneOf fields in
      let r = required_of-HasRequired fs schema path in
      let inside = inspect_fields-HaveTypes fs (properties_of schema) path in
      (
        λ h. let (t, i) = o.0 h in let (a, b) = parts.0 i in (t, inside.0 (s.0 a), r.0 b),
        λ (t, a, b). o.1 (t, parts.1 (s.1 (inside.1 a), r.1 b)),
      )

  inspect_fields-HaveTypes :
      (fs : Fields) (properties : Found) (prefix : Text)
      → NoneOf (inspect_fields fs properties prefix) ↔ HaveTypes fs properties
  inspect_fields-HaveTypes end properties prefix = (λ h. tt, λ h. tt)
  inspect_fields-HaveTypes (field key v fs) properties prefix =
      let here = inspect_value-HasType v (read properties key) (child_path prefix key) in
      let rest = inspect_fields-HaveTypes fs properties prefix in
      (λ h. (here.0 h.0, rest.0 h.1), λ h. (here.1 h.0, rest.1 h.1))

-- Data that is an object with the types of a schema.
abbrev pub HasShape : Value → Fields → Type 0
HasShape v schema =
    (fields : Fields) × (v ≡ obj fields)
    × HaveTypes fields (properties_of (value (obj schema)))
    × HasRequired fields (value (obj schema))

inspect_drift-HaveTypes :
    (fields schema : Fields)
    → (inspect_drift fields (value (obj schema)) [] ≡ []) ↔ (
        HaveTypes fields (properties_of (value (obj schema)))
        × HasRequired fields (value (obj schema)))
unfolding inspect_drift
inspect_drift-HaveTypes fields schema =
    let found = inspect_fields fields (properties_of (value (obj schema))) [] in
    let parts =
      ++-nil (pushed (sort_findings found))
        (missing_fields fields (required_of (value (obj schema))) []) in
    let s = sort_findings-NoneOf found in
    let inside = inspect_fields-HaveTypes fields (properties_of (value (obj schema))) [] in
    let r = required_of-HasRequired fields (value (obj schema)) [] in
    (
      λ h. let (a, b) = parts.0 h in (inside.0 (s.0 a), r.0 b),
      λ (a, b). parts.1 (s.1 (inside.1 a), r.1 b),
    )

-- Data shows no drift exactly when it is an object with the types of the schema: each of its fields is
-- a property whose schema is an object, and whose `type` names no type, or names the field's own type,
-- or names `number` where the field is an integer; every string under `required` names a property that
-- it has or inherits; and the same holds of each object in a field, with the schema of that property.
pub detect_drift-HasShape :
    (v : Value) (schema : Fields) → (detect_drift v schema ≡ []) ↔ HasShape v schema
unfolding detect_drift
detect_drift-HasShape (obj fields) schema =
    let i = inspect_drift-HaveTypes fields schema in
    (
      λ h. let (a, b) = i.0 h in (fields, refl, a, b),
      λ (gs, e, a, b). i.1 (
          subst
            (λ z.
              HaveTypes z (properties_of (value (obj schema))) × HasRequired z (value (obj schema)))
            (sym (same_fields fields gs e)) (a, b)),
    )
  where
    same_fields : (fs gs : Fields) → obj fs ≡ obj gs → fs ≡ gs
    same_fields fs gs e = cc
detect_drift-HasShape null schema = (λ h. cc, λ s. let e = s.1 in cc)
detect_drift-HasShape (bool b) schema = (λ h. cc, λ s. let e = s.1 in cc)
detect_drift-HasShape (num n) schema = (λ h. cc, λ s. let e = s.1 in cc)
detect_drift-HasShape (str t) schema = (λ h. cc, λ s. let e = s.1 in cc)
detect_drift-HasShape (arr xs) schema = (λ h. cc, λ s. let e = s.1 in cc)
