-- ===== src/Authorization/Tests.antt =====
-- Keys and sessions at examples, and the theorem at one.
use postbag.Common.{
  ◌≡◌, refl, true, false, Option, none, some, [], ◌∷◌, ◌⊎◌, ◌↔◌, Text, codes, teq, if◌then◌else◌,
}
use postbag.Errors.{ok, err, forbidden, unauthorized}
use postbag.Json.Values.{Value, null, str, arr, obj, nil, item, field, end}
use postbag.Members.Types.{owner}
use postbag.Members.Roles.{manage, submit, assert_scope, resolve_owned_organization_id}
use postbag.Json.Read.{from_value}
use postbag.Authorization.Scopes.{
  has_scope, expand_scopes, scopes_from_key, filter_scopes, scope_of, scope_implications,
}
use postbag.Authorization.RequireOrg.{
  ApiKey, VerifyApiKeyResult, resolve_fallback_organization, require_org, authorize,
}
use postbag.Authorization.Requests.{ByKey, BySession, authorize_iff}

-- A key that may read, with a name that is no scope.
abbrev reading_metadata : Value
reading_metadata =
    obj
      (field (codes "scopes") (arr (item (str (codes "all")) (item (str (codes "read")) nil))) end)

abbrev reading_key : ApiKey
reading_key = record { id = 7; reference_id = 10; metadata = reading_metadata }

abbrev verify_api_key : Text → VerifyApiKeyResult
verify_api_key token =
    if teq token (codes "pb_live_1")
    then record { valid = true; key = some reading_key }
    else record { valid = false; key = none }

abbrev header : Option Text
header = some (codes "Bearer  pb_live_1 ")

may_submit : authorize verify_api_key none [] header submit ≡ ok tt
unfolding require_org assert_scope expand_scopes scopes_from_key from_value filter_scopes scope_of
    scope_implications
may_submit = refl

may_not_manage : authorize verify_api_key none [] header manage ≡ err forbidden
unfolding require_org assert_scope expand_scopes scopes_from_key from_value filter_scopes scope_of
    scope_implications
may_not_manage = refl

wrong_key :
    authorize verify_api_key none [] (some (codes "Bearer pb_live_2")) submit ≡ err unauthorized
unfolding require_org
wrong_key = refl

nothing_listed : has_scope null submit ≡ false
unfolding has_scope expand_scopes scopes_from_key from_value
nothing_listed = refl

-- Without a header, a user goes by the organization that the user owns.
falls_back :
    authorize verify_api_key
      (some (record { id = 1; user_id = 5; active_organization_id = none }))
      (record { id = 2; organization_id = 20; user_id = 5; role = owner; created_at = 9 } ∷ [])
      none
      manage
    ≡ ok tt
unfolding require_org resolve_fallback_organization resolve_owned_organization_id assert_scope
falls_back = refl

authorize_iff_example :
    (authorize verify_api_key none [] header submit ≡ ok tt)
    ↔ (ByKey verify_api_key none [] header submit ⊎ BySession verify_api_key none [] header)
authorize_iff_example = authorize_iff verify_api_key none [] header submit
