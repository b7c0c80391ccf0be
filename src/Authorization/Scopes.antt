-- ===== src/Authorization/Scopes.antt =====
-- `expandScopes`, `scopesFromKey` and `hasScope` of packages/auth/src/scopes.ts. The metadata of a
-- key is a JSON value; `scopesFromMetadata` of apps/server/src/middleware/requireOrg.ts reads it the
-- same way, since an array has no `scopes`.
use postbag.Common.{
  Bool, Option, none, some, List, [], ◌∷◌, ◌++◌, Text, codes, teq, any, keep, if◌then◌else◌,
}
use postbag.Json.Values.{Value, null, bool, num, str, arr, obj, item_list}
use postbag.Json.Read.{Found, missing, value, method, prototype, from_value}
use postbag.Members.Roles.{ApiKeyScope, manage, read, submit, same_scope}

-- `API_KEY_SCOPES`
abbrev pub api_key_scopes : List ApiKeyScope
api_key_scopes = manage ∷ read ∷ submit ∷ []

-- `SCOPE_IMPLICATIONS`
unfoldable pub scope_implications : ApiKeyScope → List ApiKeyScope
scope_implications manage = manage ∷ read ∷ submit ∷ []
scope_implications read = read ∷ submit ∷ []
scope_implications submit = submit ∷ []

-- The set that the loops of `expandScopes` fill.
abbrev pub implied_scopes : List ApiKeyScope → List ApiKeyScope
implied_scopes [] = []
implied_scopes (scope ∷ scopes) = scope_implications scope ++ implied_scopes scopes

unfoldable pub expand_scopes : List ApiKeyScope → List ApiKeyScope
expand_scopes scopes = keep (λ s. any (same_scope s) (implied_scopes scopes)) api_key_scopes

abbrev pub scope_name : ApiKeyScope → Text
scope_name manage = codes "manage"
scope_name read = codes "read"
scope_name submit = codes "submit"

-- `isScope`, with the scope that the text names.
abbrev pub named_scope : Text → Option ApiKeyScope
named_scope t =
    if teq t (codes "manage")
    then some manage
    else if teq t (codes "read")
    then some read
    else if teq t (codes "submit")
    then some submit
    else none

unfoldable pub scope_of : Value → Option ApiKeyScope
scope_of (str t) = named_scope t
scope_of null = none
scope_of (bool b) = none
scope_of (num n) = none
scope_of (arr xs) = none
scope_of (obj fs) = none

abbrev pub with_named : Option ApiKeyScope → List ApiKeyScope → List ApiKeyScope
with_named none scopes = scopes
with_named (some s) scopes = s ∷ scopes

-- `scopes.filter(isScope)`
unfoldable pub filter_scopes : List Value → List ApiKeyScope
filter_scopes [] = []
filter_scopes (v ∷ vs) = with_named (scope_of v) (filter_scopes vs)

-- `Array.isArray(scopes)`
abbrev pub scopes_in : Found → List ApiKeyScope
scopes_in (value (arr xs)) = filter_scopes (item_list xs)
scopes_in (value null) = []
scopes_in (value (bool b)) = []
scopes_in (value (num n)) = []
scopes_in (value (str s)) = []
scopes_in (value (obj fs)) = []
scopes_in missing = []
scopes_in method = []
scopes_in prototype = []

unfoldable pub scopes_from_key : Value → List ApiKeyScope
scopes_from_key metadata = scopes_in (from_value (value metadata) (codes "scopes" ∷ []))

unfoldable pub has_scope : Value → ApiKeyScope → Bool
has_scope metadata scope = any (same_scope scope) (expand_scopes (scopes_from_key metadata))
