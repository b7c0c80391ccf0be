-- ===== src/Authorization/Requests.antt =====
-- Which requests to the API get past `requireOrg` and `assertScope`.
use postbag.Common.{
  ◌≡◌, refl, ap, subst, sym, ◌∙◌, Bool, true, false, not, Option, none, some, List, [], ◌∷◌, ◌++◌,
  ◌⊎◌, inl, inr, ◌↔◌, Text, starts_with, drop, length, trim, if◌then◌else◌, Bool-cases, arith,
}
use postbag.Errors.{ErrorCode, ok, ◌>>=◌, throw_if, forbidden}
use postbag.Routing.Types.{Key}
use postbag.Members.Types.{Member, Session}
use postbag.Members.Roles.{ApiKeyScope, manage, read, submit, assert_scope}
use postbag.Authorization.Scopes.{has_scope}
use postbag.Authorization.RequireOrg.{
  ApiKey, VerifyApiKeyResult, bearer, key_scope, scope_in, organization_for, session_scope,
  key_result_scope, require_org, authorize,
}
use postbag.Authorization.Granted.{Grants, has_scope-Grants}

starts_with-append : (p s : Text) → starts_with p s ≡ true → s ≡ p ++ drop (length p) s
starts_with-append [] s h = refl
starts_with-append (c ∷ p) [] h = cc
starts_with-append (c ∷ p) (x ∷ s) h =
    let both : (x ≡ c) × (starts_with p s ≡ true) = ground arith in
    let (e, t) = both in rw (e, sym (starts_with-append p s t)) refl

throw_if_iff : (b : Bool) (e : ErrorCode) → (throw_if (not b) e ≡ ok tt) ↔ (b ≡ true)
throw_if_iff true e = (λ h. refl, λ h. refl)
throw_if_iff false e = (λ h. cc, λ h. cc)

-- The caller of a valid key gets as far as the key's scopes.
key_lem :
    (valid : Bool) (found : Option ApiKey) (required : ApiKeyScope)
    → ((key_scope valid found >>= λ scope. assert_scope scope required) ≡ ok tt)
      ↔ ((k : ApiKey) × (valid ≡ true) × (found ≡ some k) × Grants k.metadata required)
unfolding assert_scope has_scope
key_lem false found required = (λ h. cc, λ g. let e = g.1 in cc)
key_lem true none required = (λ h. cc, λ g. let e = g.2 in cc)
key_lem true (some k) required =
    let t = throw_if_iff (has_scope k.metadata required) forbidden in
    let g = has_scope-Grants k.metadata required in
    (
      λ h. (k, refl, refl, g.0 (t.0 h)),
      λ (j, _, e, m).
          t.1 (g.1 (subst (λ (z : ApiKey). Grants z.metadata required) (sym (same_key k j e)) m)),
    )
  where
    same_key : (k j : ApiKey) → some k ≡ some j → k ≡ j
    same_key k j e = cc

-- A session has every scope in its organization.
scope_in_lem :
    (user : Key) (found : Option Key) (required : ApiKeyScope)
    → ((scope_in user found >>= λ scope. assert_scope scope required) ≡ ok tt)
      ↔ ((o : Key) × (found ≡ some o))
unfolding assert_scope
scope_in_lem user none required = (λ h. cc, λ g. let e = g.1 in cc)
scope_in_lem user (some o) manage = (λ h. (o, refl), λ g. refl)
scope_in_lem user (some o) read = (λ h. (o, refl), λ g. refl)
scope_in_lem user (some o) submit = (λ h. (o, refl), λ g. refl)

module _ (verify_api_key : Text → VerifyApiKeyResult) (get_session : Option Session)
    (members : List Member) where
  abbrev pub ByKey : Option Text → ApiKeyScope → Type 0
  ByKey authorization required =
      (token : Text) × (k : ApiKey) × (authorization ≡ some (bearer ++ token))
      × ((verify_api_key (trim token)).valid ≡ true)
      × ((verify_api_key (trim token)).key ≡ some k)
      × Grants k.metadata required

  abbrev pub BySession : Option Text → Type 0
  BySession authorization =
      (¬ ((token : Text) × (authorization ≡ some (bearer ++ token))))
      × (s : Session) × (get_session ≡ some s)
      × (o : Key) × (organization_for members s ≡ some o)

  session_lem :
      (found : Option Session) (required : ApiKeyScope)
      → ((session_scope members found >>= λ scope. assert_scope scope required) ≡ ok tt)
        ↔ ((s : Session) × (found ≡ some s) × (o : Key) × (organization_for members s ≡ some o))
  session_lem none required = (λ h. cc, λ g. let e = g.1 in cc)
  session_lem (some s) required =
      let l = scope_in_lem s.user_id (organization_for members s) required in
      (
        λ h. let (o, q) = l.0 h in (s, refl, o, q),
        λ (z, e, o, q). l.1 (o, ap (organization_for members) (same_session s z e) ∙ q),
      )
    where
      same_session : (s z : Session) → some s ≡ some z → s ≡ z
      same_session s z e = cc

  same_text : (a b : Text) → some a ≡ some b → a ≡ b
  same_text a b e = cc

  goes_by :
      (a : Text) (required : ApiKeyScope) (b : Bool)
      → starts_with bearer a ≡ b
      → authorize verify_api_key get_session members (some a) required ≡ (
          (if b
            then key_result_scope (verify_api_key (trim (drop (length bearer) a)))
            else session_scope members get_session)
          >>= λ scope. assert_scope scope required)
  unfolding require_org
  goes_by a required b e =
      ap
        (λ z.
          (if z
            then key_result_scope (verify_api_key (trim (drop (length bearer) a)))
            else session_scope members get_session)
          >>= λ scope. assert_scope scope required)
        e

  by_key :
      (a : Text) (required : ApiKeyScope)
      → starts_with bearer a ≡ true
      → (authorize verify_api_key get_session members (some a) required ≡ ok tt)
        ↔ (ByKey (some a) required ⊎ BySession (some a))
  by_key a required e =
      let token = drop (length bearer) a in
      let whole : some a ≡ some (bearer ++ token) = ap some (starts_with-append bearer a e) in
      let r = verify_api_key (trim token) in
      let l = key_lem r.valid r.key required in
      (
        λ h.
            let (k, v, f, g) = l.0 (sym (goes_by a required true e) ∙ h) in
            inl (token, k, whole, v, f, g),
        λ g. elim g [
          | inl (t, k, q, v, f, m) ↦
              let same : t ≡ token = ap (drop (length bearer)) (sym (same_text a _ q)) in
              goes_by a required true e
              ∙ l.1 (
                k,
                subst (λ z. (verify_api_key (trim z)).valid ≡ true) same v,
                subst (λ z. (verify_api_key (trim z)).key ≡ some k) same f,
                m,
              )
          | inr (n, _, _, _, _) ↦ absurd (n (token, whole))
        ],
      )

  by_session :
      (a : Text) (required : ApiKeyScope)
      → starts_with bearer a ≡ false
      → (authorize verify_api_key get_session members (some a) required ≡ ok tt)
        ↔ (ByKey (some a) required ⊎ BySession (some a))
  by_session a required e =
      let l = session_lem get_session required in
      (
        λ h.
            let (s, f, o, q) = l.0 (sym (goes_by a required false e) ∙ h) in
            inr (λ w. absurd (no_bearer w.0 w.1), s, f, o, q),
        λ g. elim g [
          | inl (t, _, q, _, _, _) ↦ absurd (no_bearer t q)
          | inr (_, s, f, o, q) ↦ goes_by a required false e ∙ l.1 (s, f, o, q)
        ],
      )
    where
      no_bearer : (t : Text) → some a ≡ some (bearer ++ t) → ⊥
      no_bearer t q =
          let x : true ≡ false = subst (λ z. starts_with bearer z ≡ false) (same_text a _ q) e in cc

  -- A request passes `requireOrg` and a handler's `assertScope` exactly when it brings
  -- `Authorization: Bearer` with a token that, trimmed, verifies as a valid key whose metadata lists under
  -- `scopes` the name of a scope that covers the required one, `manage` being the broadest and
  -- `submit` the narrowest; or when it brings no such header and has a session whose user has an
  -- active organization or, in its place, an organization to fall back on.
  pub authorize_iff :
      (authorization : Option Text) (required : ApiKeyScope)
      → (authorize verify_api_key get_session members authorization required ≡ ok tt)
        ↔ (ByKey authorization required ⊎ BySession authorization)
  unfolding require_org
  authorize_iff none required =
      let l = session_lem get_session required in
      (
        λ h. let (s, e, o, q) = l.0 h in inr (λ w. absurd (no_header w.0 w.1), s, e, o, q),
        λ g. elim g [
          | inl (t, k, e, _, _, _) ↦ absurd (no_header t e)
          | inr (_, s, e, o, q) ↦ l.1 (s, e, o, q)
        ],
      )
    where
      no_header : (t : Text) → none ≡ some (bearer ++ t) → ⊥
      no_header t e = cc
  authorize_iff (some a) required = elim (Bool-cases (starts_with bearer a)) [
    | inl e ↦ by_key a required e
    | inr e ↦ by_session a required e
  ]
