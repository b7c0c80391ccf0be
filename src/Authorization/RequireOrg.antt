-- ===== src/Authorization/RequireOrg.antt =====
-- `requireOrg` of apps/server/src/middleware/requireOrg.ts and `resolveAnyOrganizationId` of
-- lib/orgs.ts. What Better Auth answers for a key, and the session it reads off the request, are
-- arguments. The user that a key was created by is left out.
use postbag.Common.{
  Bool, true, false, Option, none, some, List, [], ◌∷◌, Text, codes, starts_with, drop, length,
  trim, ltb, ◌==◌, if◌then◌else◌,
}
use postbag.Errors.{Result, ok, err, ◌>>=◌, unauthorized}
use postbag.Routing.Types.{Key}
use postbag.Json.Values.{Value}
use postbag.Members.Types.{Member, Session}
use postbag.Members.Roles.{
  ApiKeyScope, RequestScope, session, api_key, organization_of_row, resolve_owned_organization_id,
  assert_scope,
}
use postbag.Authorization.Scopes.{api_key_scopes, expand_scopes, scopes_from_key}

pub record ApiKey : Type 0 where
  pub id : Key
  pub reference_id : Key
  pub metadata : Value

pub record VerifyApiKeyResult : Type 0 where
  pub valid : Bool
  pub key : Option ApiKey

abbrev pub newer_of : Option Member → Member → Option Member
newer_of none m = some m
newer_of (some n) m = if ltb n.created_at m.created_at then some m else some n

abbrev pub newest_of : Key → Option Member → List Member → Option Member
newest_of user best [] = best
newest_of user best (m ∷ members) =
    newest_of user (if m.user_id == user then newer_of best m else best) members

unfoldable pub resolve_any_organization_id : Key → List Member → Option Key
resolve_any_organization_id user members = organization_of_row (newest_of user none members)

abbrev pub or_else : Option Key → Option Key → Option Key
or_else none other = other
or_else (some k) other = some k

unfoldable pub resolve_fallback_organization : List Member → Key → Option Key
resolve_fallback_organization members user =
    or_else (resolve_owned_organization_id user members) (resolve_any_organization_id user members)

abbrev pub bearer : Text
bearer = codes "Bearer "

-- `!result.valid || result.key === null`, and the scope of a key.
abbrev pub key_scope : Bool → Option ApiKey → Result RequestScope
key_scope false found = err unauthorized
key_scope true none = err unauthorized
key_scope true (some k) = ok (record {
  organization_id = k.reference_id;
  actor = api_key k.id;
  scopes = expand_scopes (scopes_from_key k.metadata);
})

abbrev pub scope_in : Key → Option Key → Result RequestScope
scope_in user none = err unauthorized
scope_in user (some organization) =
    ok (record { organization_id = organization; actor = session user; scopes = api_key_scopes })

-- `activeOrganizationId ?? (await resolveFallbackOrganization(db, session.user.id))`
abbrev pub organization_for : List Member → Session → Option Key
organization_for members s =
    or_else s.active_organization_id (resolve_fallback_organization members s.user_id)

abbrev pub session_scope : List Member → Option Session → Result RequestScope
session_scope members none = err unauthorized
session_scope members (some s) = scope_in s.user_id (organization_for members s)

abbrev pub key_result_scope : VerifyApiKeyResult → Result RequestScope
key_result_scope result = key_scope result.valid result.key

module _ (verify_api_key : Text → VerifyApiKeyResult) (get_session : Option Session)
    (members : List Member) where
  abbrev pub by_authorization : Option Text → Result RequestScope
  by_authorization none = session_scope members get_session
  by_authorization (some authorization) =
      if starts_with bearer authorization
      then key_result_scope (verify_api_key (trim (drop (length bearer) authorization)))
      else session_scope members get_session

  unfoldable pub require_org : Option Text → Result RequestScope
  require_org authorization = by_authorization authorization

  -- The middleware, and a handler that begins with `assertScope(c.var.scope, required)`.
  abbrev pub authorize : Option Text → ApiKeyScope → Result (Unit {0})
  authorize authorization required =
      require_org authorization >>= λ scope. assert_scope scope required
