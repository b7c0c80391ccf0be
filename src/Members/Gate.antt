-- ===== src/Members/Gate.antt =====
-- apps/server/src/lib/orgs.ts: whom `requireRole` lets through, and as what.
use postbag.Common.{
  ◌≡◌, refl, sym, ap, ◌∙◌, Bool, true, false, not, Option, none, some, List, if◌then◌else◌, inl,
  inr, Bool-cases, any, ◌↔◌,
}
use postbag.Errors.{ok, err, ◌>>◌, throw_if, ok-injective, forbidden}
use postbag.Routing.Types.{Key}
use postbag.Members.Types.{MemberRole, admin, Member}
use postbag.Members.Roles.{
  RequestScope, session, api_key, manage, same_scope, same_role, assert_scope, allowed_role,
  lookup_member_role, require_role,
}

allowed_lem :
    (allowed : List MemberRole) (o : Option MemberRole) (r : MemberRole)
    → (allowed_role allowed o ≡ ok r) ↔ ((o ≡ some r) × (any (same_role r) allowed ≡ true))
allowed_lem allowed none r = (λ h. cc, λ h. cc (h.0))
allowed_lem allowed (some s) r = (
  λ h. elim (Bool-cases (any (same_role s) allowed)) [
    | inl e ↦
        let f : s ≡ r = ok-injective (rw e at h) in
        (ap some f, ap (λ (z : MemberRole). any (same_role z) allowed) (sym f) ∙ e)
    | inr e ↦ let f = rw e at h in cc
  ],
  λ h.
      let f : s ≡ r = cc (h.0) in
      rw (ap (λ (z : MemberRole). any (same_role z) allowed) f ∙ h.1) (ap ok f),
)

key_lem :
    (scope : RequestScope) (allowed : List MemberRole) (r : MemberRole) (m a : Bool)
    → ((throw_if (not m) forbidden >> (if a then ok admin else err forbidden)) ≡ ok r)
      ↔ ((r ≡ admin) × (m ≡ true) × (a ≡ true))
key_lem scope allowed r true true = (λ h. (sym (ok-injective h), refl, refl), λ h. ap ok (sym h.0))
key_lem scope allowed r true false = (λ h. cc, λ h. cc (h.2))
key_lem scope allowed r false a = (λ h. cc, λ h. cc (h.1))

-- `requireRole` lets a session through exactly when the user's membership has one of the allowed
-- roles, as that role; and an API key exactly when it has the scope `manage` and admins are
-- allowed, as an admin.
pub require_role_iff :
    (members : List Member) (scope : RequestScope) (user key : Key) (allowed : List MemberRole)
    (r : MemberRole)
    → ((require_role members scope (session user) allowed ≡ ok r) ↔ (
        (lookup_member_role scope.organization_id user members ≡ some r)
        × (any (same_role r) allowed ≡ true)))
      × ((require_role members scope (api_key key) allowed ≡ ok r) ↔ (
          (r ≡ admin)
          × (any (same_scope manage) scope.scopes ≡ true)
          × (any (same_role admin) allowed ≡ true)))
unfolding require_role assert_scope
require_role_iff members scope user key allowed r = (
  allowed_lem allowed (lookup_member_role scope.organization_id user members) r,
  key_lem scope allowed r (any (same_scope manage) scope.scopes) (any (same_role admin) allowed),
)
