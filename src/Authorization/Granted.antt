-- ===== src/Authorization/Granted.antt =====
-- Which requests may do what.
use postbag.Common.{
  ℕ, ◌≡◌, refl, ap, subst, sym, ◌∙◌, Bool, true, ◌||◌, Option, none, some, List, [], ◌∷◌, inl, inr,
  ◌↔◌, codes, teq, teq_sound, Option-cases, any, keep, any-append, leb, Bool-cases, Has, arith,
}
use postbag.Json.Values.{Value, null, bool, num, str, arr, obj, Items, item_list}
use postbag.Json.Read.{Found, missing, value, method, prototype, from_value}
use postbag.Members.Roles.{ApiKeyScope, manage, read, submit, same_scope}
use postbag.Authorization.Scopes.{
  api_key_scopes, scope_implications, implied_scopes, expand_scopes, scope_name, scope_of,
  with_named, filter_scopes, scopes_in, scopes_from_key, has_scope,
}

-- The scopes from the narrowest.
abbrev pub breadth : ApiKeyScope → ℕ
breadth submit = 0
breadth read = 1
breadth manage = 2

abbrev pub covers : ApiKeyScope → ApiKeyScope → Bool
covers required granted = leb (breadth required) (breadth granted)

-- What stands under `scopes` is an array that holds the name of a scope that covers another.
abbrev pub Names : Found → ApiKeyScope → Type 0
Names found required =
    (xs : Items) × (found ≡ value (arr xs))
    × (granted : ApiKeyScope) × Has (str (scope_name granted)) (item_list xs)
    × (covers required granted ≡ true)

abbrev pub Grants : Value → ApiKeyScope → Type 0
Grants metadata required = Names (from_value (value metadata) (codes "scopes" ∷ [])) required

implied_covers :
    (required granted : ApiKeyScope)
    → any (same_scope required) (scope_implications granted) ≡ covers required granted
unfolding scope_implications
implied_covers manage manage = refl
implied_covers manage read = refl
implied_covers manage submit = refl
implied_covers read manage = refl
implied_covers read read = refl
implied_covers read submit = refl
implied_covers submit manage = refl
implied_covers submit read = refl
implied_covers submit submit = refl

any-implied_scopes :
    (required : ApiKeyScope) (scopes : List ApiKeyScope)
    → any (same_scope required) (implied_scopes scopes) ≡ any (covers required) scopes
any-implied_scopes required [] = refl
any-implied_scopes required (g ∷ scopes) =
    any-append (same_scope required) (scope_implications g) (implied_scopes scopes)
    ∙ rw (implied_covers required g, any-implied_scopes required scopes) refl

any-keep :
    (p : ApiKeyScope → Bool) (required : ApiKeyScope)
    → any (same_scope required) (keep p api_key_scopes) ≡ p required
any-keep p manage = ground arith
any-keep p read = ground arith
any-keep p submit = ground arith

any-expand_scopes :
    (required : ApiKeyScope) (scopes : List ApiKeyScope)
    → any (same_scope required) (expand_scopes scopes) ≡ any (covers required) scopes
unfolding expand_scopes
any-expand_scopes required scopes =
    any-keep (λ s. any (same_scope s) (implied_scopes scopes)) required
    ∙ any-implied_scopes required scopes

scope_of-scope_name : (g : ApiKeyScope) → scope_of (str (scope_name g)) ≡ some g
unfolding scope_of
scope_of-scope_name manage = refl
scope_of-scope_name read = refl
scope_of-scope_name submit = refl

some_inj : {g k : ApiKeyScope} → some g ≡ some k → g ≡ k
some_inj h = cc

scope_of_sound : (v : Value) (g : ApiKeyScope) → scope_of v ≡ some g → v ≡ str (scope_name g)
unfolding scope_of
scope_of_sound (str t) g h = elim (Bool-cases (teq t (codes "manage"))) [
  | inl e ↦
      let k : some manage ≡ some g = rw e at h in
      ap str (teq_sound t _ e ∙ ap scope_name (some_inj k))
  | inr n ↦ elim (Bool-cases (teq t (codes "read"))) [
    | inl e ↦
        let k : some read ≡ some g = rw (n, e) at h in
        ap str (teq_sound t _ e ∙ ap scope_name (some_inj k))
    | inr m ↦ elim (Bool-cases (teq t (codes "submit"))) [
      | inl e ↦
          let k : some submit ≡ some g = rw (n, m, e) at h in
          ap str (teq_sound t _ e ∙ ap scope_name (some_inj k))
      | inr l ↦ let k : none ≡ some g = rw (n, m, l) at h in cc
    ]
  ]
]
scope_of_sound null g h = cc
scope_of_sound (bool b) g h = cc
scope_of_sound (num n) g h = cc
scope_of_sound (arr xs) g h = cc
scope_of_sound (obj fs) g h = cc

any-with_named :
    (p : ApiKeyScope → Bool) (v : Value) (vs : List Value) {o : Option ApiKeyScope}
    → scope_of v ≡ o
    → any p (filter_scopes (v ∷ vs)) ≡ any p (with_named o (filter_scopes vs))
unfolding filter_scopes
any-with_named p v vs e = ap (λ o. any p (with_named o (filter_scopes vs))) e

filter_scopes-any :
    (p : ApiKeyScope → Bool) (vs : List Value)
    → any p (filter_scopes vs) ≡ true
    → (g : ApiKeyScope) × Has (str (scope_name g)) vs × (p g ≡ true)
filter_scopes-any p [] h = unfold filter_scopes in cc
filter_scopes-any p (v ∷ vs) h = elim (Option-cases (scope_of v)) [
  | inl e ↦
      let r = filter_scopes-any p vs (sym (any-with_named p v vs e) ∙ h) in (r.0, inr r.1, r.2)
  | inr (g, e) ↦ elim (Bool-cases (p g)) [
    | inl t ↦ (g, inl (scope_of_sound v g e), t)
    | inr f ↦
        let more : any p (filter_scopes vs) ≡ true =
          let k : (p g || any p (filter_scopes vs)) ≡ true = sym (any-with_named p v vs e) ∙ h in
          ground arith in
        let r = filter_scopes-any p vs more in (r.0, inr r.1, r.2)
  ]
]

any-filter_scopes :
    (p : ApiKeyScope → Bool) (vs : List Value) (g : ApiKeyScope)
    → Has (str (scope_name g)) vs
    → p g ≡ true
    → any p (filter_scopes vs) ≡ true
any-filter_scopes p [] g h t = absurd h
any-filter_scopes p (v ∷ vs) g (inl e) t =
    any-with_named p v vs (ap scope_of e ∙ scope_of-scope_name g) ∙ rw t refl
any-filter_scopes p (v ∷ vs) g (inr h) t =
    let rest = any-filter_scopes p vs g h t in
    elim (Option-cases (scope_of v)) [
      | inl e ↦ any-with_named p v vs e ∙ rest
      | inr (k, e) ↦ any-with_named p v vs e ∙ ground arith
    ]

-- The scopes of what a key's metadata has, expanded.
scopes_in-Names :
    (found : Found) (required : ApiKeyScope)
    → (any (covers required) (scopes_in found) ≡ true) ↔ Names found required
scopes_in-Names (value (arr xs)) required = (
  λ h. let (g, m, t) = filter_scopes-any (covers required) (item_list xs) h in (xs, refl, g, m, t),
  λ n.
      let (ys, e, g, m, t) = n in
      any-filter_scopes (covers required) (item_list xs) g
        (subst (λ z. Has (str (scope_name g)) (item_list z)) (sym (same_items xs ys e)) m) t,
)
  where
    same_items : (xs ys : Items) → value (arr xs) ≡ value (arr ys) → xs ≡ ys
    same_items xs ys h = cc
scopes_in-Names (value null) required = (λ h. cc, λ n. let e = n.1 in cc)
scopes_in-Names (value (bool b)) required = (λ h. cc, λ n. let e = n.1 in cc)
scopes_in-Names (value (num x)) required = (λ h. cc, λ n. let e = n.1 in cc)
scopes_in-Names (value (str s)) required = (λ h. cc, λ n. let e = n.1 in cc)
scopes_in-Names (value (obj fs)) required = (λ h. cc, λ n. let e = n.1 in cc)
scopes_in-Names missing required = (λ h. cc, λ n. let e = n.1 in cc)
scopes_in-Names method required = (λ h. cc, λ n. let e = n.1 in cc)
scopes_in-Names prototype required = (λ h. cc, λ n. let e = n.1 in cc)

-- A key has a scope exactly when its metadata names one that covers it.
pub has_scope-Grants :
    (metadata : Value) (required : ApiKeyScope)
    → (has_scope metadata required ≡ true) ↔ Grants metadata required
unfolding has_scope scopes_from_key
has_scope-Grants metadata required =
    let e = any-expand_scopes required (scopes_from_key metadata) in
    let n = scopes_in-Names (from_value (value metadata) (codes "scopes" ∷ [])) required in
    (λ h. n.0 (sym e ∙ h), λ g. e ∙ n.1 g)
