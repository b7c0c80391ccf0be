-- ===== src/Members/Invitations.antt =====
-- apps/server/src/routes/v1/invitations.ts. The mail that follows an invitation changes only the
-- answer and is left out, as is the active organization that Better Auth sets after an acceptance.
use postbag.Common.{
  ℕ, ◌+◌, ◌*◌, Bool, true, false, ◌&&◌, not, Option, none, some, List, [], ◌∷◌, ◌++◌, ◌==◌,
  if◌then◌else◌, ltb, find, any, modify, Text, teq, trim,
}
use postbag.Errors.{
  Result, ok, err, ◌>>=◌, ◌>>◌, throw_if, found_or, not_found, conflict, internal_error,
  invitation_already_used, invitation_expired, invitation_email_mismatch,
}
use postbag.Routing.Types.{Key}
use postbag.Core.Mailbox.{to_lower_case, same_mailbox}
use postbag.Members.Types.{
  MemberRole, owner, admin, Member, User, InvitationStatus, pending, accepted, canceled, Invitation,
  invited, joined, Db,
}
use postbag.Members.Roles.{
  RequestScope, ScopeActor, session, api_key, assert_session_actor, is_membership, require_role,
}
use postbag.Members.Changes.{proceed}

-- `INVITATION_EXPIRY_MS`
abbrev pub invitation_expiry_ms : ℕ
invitation_expiry_ms = 7 * 24 * 60 * 60 * 1000

abbrev pub is_pending : InvitationStatus → Bool
is_pending pending = true
is_pending _ = false

unfoldable pub load_pending_invitation : Key → ℕ → Db → Result Invitation
load_pending_invitation id now db = do
  row ← found_or not_found (find (λ (i : Invitation). i.id == id) db.invitations)
  throw_if (not (is_pending row.status)) invitation_already_used
  throw_if (ltb row.expires_at now) invitation_expired
  ok row

-- Whether an address belongs to a member: the join of `member` with `user`.
abbrev pub is_member_address : Key → Text → Db → Bool
is_member_address organization email db =
    any
      (λ (m : Member).
        (m.organization_id == organization)
        && any (λ (u : User). (u.id == m.user_id) && teq u.email email) db.users)
      db.members

unfoldable pub check_create : RequestScope → Text → Db → Result (Unit {0})
check_create scope email db = do
  _ ← require_role db.members scope scope.actor (owner ∷ admin ∷ [])
  throw_if (is_member_address scope.organization_id email db) conflict
  throw_if (not (any (λ k. k == scope.organization_id) db.organizations)) internal_error
  ok tt

abbrev pub known_user : Key → List User → Option Key
known_user user users = elim (find (λ (u : User). u.id == user) users) [
  | none ↦ none
  | some u ↦ some u.id
]

abbrev pub inviter_of : ScopeActor → List User → Option Key
inviter_of (session user) users = known_user user users
inviter_of (api_key _) users = none

abbrev pub is_open_for : Key → Text → Invitation → Bool
is_open_for organization email i =
    (i.organization_id == organization) && teq i.email email && is_pending i.status

-- `row` is what to insert where no invitation of the address is pending.
abbrev pub insert_or_resend : Option Invitation → Invitation → Db → Db
insert_or_resend (some existing) row db = record db {
  invitations =
      modify (λ (i : Invitation). i.id == existing.id)
        (λ i. record i {
          role = row.role;
          expires_at = row.expires_at;
          inviter_id = row.inviter_id;
        })
        db.invitations;
}
insert_or_resend none row db = record db {
  invitations = db.invitations ++ (row ∷ []);
  events = db.events ++ (invited row.organization_id row.id ∷ []);
}

abbrev pub invitation_row : RequestScope → Text → MemberRole → (new_id : Key) → ℕ → Db → Invitation
invitation_row scope email role new_id now db = record {
  id = new_id;
  organization_id = scope.organization_id;
  email = email;
  role = role;
  status = pending;
  expires_at = now + invitation_expiry_ms;
  inviter_id = inviter_of scope.actor db.users;
}

unfoldable pub create_invitation :
    RequestScope
    → (raw_email : Text) → MemberRole
    → (new_id : Key) → ℕ
    → Db
    → Db × Result (Unit {0})
create_invitation scope raw_email role new_id now db =
    let email = to_lower_case (trim raw_email) in
    proceed db (check_create scope email db) (λ _. (
      insert_or_resend (find (is_open_for scope.organization_id email) db.invitations)
          (invitation_row scope email role new_id now db) db,
      ok tt,
    ))

unfoldable pub check_revoke : RequestScope → Key → Db → Result Invitation
check_revoke scope id db = do
  _ ← require_role db.members scope scope.actor (owner ∷ admin ∷ [])
  found_or not_found (
      find
        (λ (i : Invitation).
          (i.id == id) && (i.organization_id == scope.organization_id) && is_pending i.status)
        db.invitations)

abbrev pub set_status : Key → InvitationStatus → Db → Db
set_status id status db = record db {
  invitations =
      modify (λ (i : Invitation). i.id == id) (λ i. record i { status = status }) db.invitations;
}

unfoldable pub revoke_invitation : RequestScope → Key → Db → Db × Result (Unit {0})
revoke_invitation scope id db =
    proceed db (check_revoke scope id db) (λ _. (set_status id canceled db, ok tt))

-- What the acceptance has found out: who accepts, and which invitation.
pub record Acceptable : Type 0 where
  pub user : Key
  pub invitation : Invitation

unfoldable pub check_accept : RequestScope → Key → ℕ → Db → Result Acceptable
check_accept scope id now db = do
  user_id ← assert_session_actor scope.actor
  row ← load_pending_invitation id now db
  session_user ← found_or internal_error (find (λ (u : User). u.id == user_id) db.users)
  throw_if (not (same_mailbox session_user.email row.email)) invitation_email_mismatch
  ok (record { user = user_id; invitation = row })

abbrev pub with_member : Acceptable → (member_id : Key) → ℕ → List Member → List Member
with_member a member_id now members =
    if any (is_membership a.invitation.organization_id a.user) members
    then members
    else members
      ++ (record {
        id = member_id;
        organization_id = a.invitation.organization_id;
        user_id = a.user;
        role = a.invitation.role;
        created_at = now;
      }
          ∷ [])

unfoldable pub write_accept : Acceptable → (member_id : Key) → ℕ → Db → Db × Result (Unit {0})
write_accept a member_id now db =
    let written =
      set_status a.invitation.id accepted
        (record db { members = with_member a member_id now db.members }) in
    if any (λ k. k == a.invitation.organization_id) db.organizations
    then (
      record written {
        events =
            db.events
            ++ (joined a.invitation.organization_id a.user a.invitation.id a.invitation.role ∷ []);
      },
      ok tt,
    )
    else (written, err internal_error)

unfoldable pub accept_invitation :
    RequestScope → Key → (member_id : Key) → ℕ → Db → Db × Result (Unit {0})
accept_invitation scope id member_id now db =
    proceed db (check_accept scope id now db) (λ a. write_accept a member_id now db)
