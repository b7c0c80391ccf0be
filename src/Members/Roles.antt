-- ===== src/Members/Roles.antt =====
-- apps/server/src/lib/scope.ts and lib/orgs.ts: who asks, and what role they have.
use postbag.Common.{
  ℕ, Bool, true, false, ◌&&◌, not, Option, none, some, List, [], ◌∷◌, ◌==◌, if◌then◌else◌, ltb,
  find, any, count_of,
}
use postbag.Errors.{Result, ok, err, ◌>>◌, throw_if, forbidden}
use postbag.Routing.Types.{Key}
use postbag.Members.Types.{MemberRole, owner, admin, member, Member}

pub data ApiKeyScope : Type 0 where
  manage read submit : ApiKeyScope

pub data ScopeActor : Type 0 where
  session : (user_id : Key) → ScopeActor
  api_key : (api_key_id : Key) → ScopeActor

pub record RequestScope : Type 0 where
  pub organization_id : Key
  pub actor : ScopeActor
  pub scopes : List ApiKeyScope

abbrev pub same_scope : ApiKeyScope → ApiKeyScope → Bool
same_scope manage manage = true
same_scope read read = true
same_scope submit submit = true
same_scope _ _ = false

unfoldable pub assert_scope : RequestScope → ApiKeyScope → Result (Unit {0})
assert_scope scope required = throw_if (not (any (same_scope required) scope.scopes)) forbidden

-- The user of a session.
unfoldable pub assert_session_actor : ScopeActor → Result Key
assert_session_actor (session user) = ok user
assert_session_actor (api_key _) = err forbidden

abbrev pub same_role : MemberRole → MemberRole → Bool
same_role owner owner = true
same_role admin admin = true
same_role member member = true
same_role _ _ = false

-- The row of a user in an organization.
abbrev pub is_membership : Key → Key → Member → Bool
is_membership organization user m = (m.organization_id == organization) && (m.user_id == user)

abbrev pub role_of_row : Option Member → Option MemberRole
role_of_row none = none
role_of_row (some m) = some m.role

unfoldable pub lookup_member_role : Key → Key → List Member → Option MemberRole
lookup_member_role organization user members =
    role_of_row (find (is_membership organization user) members)

abbrev pub is_owner_of : Key → Member → Bool
is_owner_of organization m = (m.organization_id == organization) && same_role m.role owner

unfoldable pub count_owners : Key → List Member → ℕ
count_owners organization members = count_of (is_owner_of organization) members

abbrev pub allowed_role : List MemberRole → Option MemberRole → Result MemberRole
allowed_role allowed none = err forbidden
allowed_role allowed (some role) = if any (same_role role) allowed then ok role else err forbidden

unfoldable pub require_role :
    List Member → RequestScope → ScopeActor → List MemberRole → Result MemberRole
unfolding assert_scope
require_role members scope (api_key _) allowed =
    assert_scope scope manage >> (if any (same_role admin) allowed then ok admin else err forbidden)
require_role members scope (session user) allowed =
    allowed_role allowed (lookup_member_role scope.organization_id user members)

-- The oldest of the rows, and the newest: `orderBy(asc(createdAt))` and `desc` with `limit(1)`.
abbrev pub older_of : Option Member → Member → Option Member
older_of none m = some m
older_of (some n) m = if ltb m.created_at n.created_at then some m else some n

abbrev pub oldest : (Member → Bool) → Option Member → List Member → Option Member
oldest p best [] = best
oldest p best (m ∷ members) = oldest p (if p m then older_of best m else best) members

abbrev pub organization_of_row : Option Member → Option Key
organization_of_row none = none
organization_of_row (some m) = some m.organization_id

unfoldable pub resolve_owned_organization_id : Key → List Member → Option Key
resolve_owned_organization_id user members =
    organization_of_row
      (oldest (λ (m : Member). (m.user_id == user) && same_role m.role owner) none members)
