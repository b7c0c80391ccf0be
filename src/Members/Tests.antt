-- ===== src/Members/Tests.antt =====
-- Tests of the membership routes, and the theorems at concrete inputs.
use postbag.Common.{◌≤◌, ◌≡◌, refl, false, some, [], ◌∷◌, arith, has_key, codes}
use postbag.Errors.{ok, err, last_owner, invitation_already_used, invitation_email_mismatch}
use postbag.Routing.Types.{Key}
use postbag.Core.Mailbox.{normalize_mailbox, same_mailbox}
use postbag.Members.Types.{owner, admin, Member, pending, Invitation, Db}
use postbag.Members.Roles.{
  RequestScope, session, api_key, manage, assert_session_actor, lookup_member_role, count_owners,
  require_role,
}
use postbag.Members.Changes.{
  check_update_role, write_role, update_member_role, check_remove, write_remove, remove_member,
}
use postbag.Members.Invitations.{
  load_pending_invitation, check_accept, write_accept, accept_invitation, revoke_invitation,
}
use postbag.Members.Owners.{IsOwned, member_id}
use postbag.Members.Ownership.{Step, Reach, owners_kept, next, here, revokes}
use postbag.Members.Departures.{concurrent_removals}
use postbag.Members.Used.{accept_once}

abbrev ann : Member
ann = record { id = 1; organization_id = 10; user_id = 100; role = owner; created_at = 0 }

abbrev bob : Member
bob = record { id = 2; organization_id = 10; user_id = 200; role = owner; created_at = 5 }

abbrev invitation : Invitation
invitation = record {
  id = 7;
  organization_id = 10;
  email = codes "c@x.y";
  role = admin;
  status = pending;
  expires_at = 900;
  inviter_id = some 100;
}

abbrev db : Db
db = record {
  organizations = 10 ∷ [];
  users =
      record { id = 100; email = codes "a@x.y" }
      ∷ record { id = 200; email = codes "b@x.y" }
      ∷ record { id = 300; email = codes "C+t@x.y" }
      ∷ [];
  members = ann ∷ bob ∷ [];
  invitations = invitation ∷ [];
  sessions = [];
  events = [];
}

abbrev as_user : Key → RequestScope
as_user user = record { organization_id = 10; actor = session user; scopes = manage ∷ [] }

abbrev as_key : RequestScope
as_key = record { organization_id = 10; actor = api_key 50; scopes = manage ∷ [] }

test_leave : check_remove (as_user 100) 1 db ≡ ok ann
unfolding check_remove require_role lookup_member_role count_owners
test_leave = refl

test_remove_other : check_remove (as_user 100) 2 db ≡ ok bob
unfolding check_remove require_role lookup_member_role count_owners
test_remove_other = refl

test_last_owner :
    (remove_member (as_user 100) 1 (record db { members = ann ∷ [] })).1 ≡ err last_owner
unfolding remove_member check_remove require_role lookup_member_role count_owners
test_last_owner = refl

test_wrong_mailbox : (accept_invitation (as_user 200) 7 3 800 db).1 ≡ err invitation_email_mismatch
unfolding accept_invitation check_accept assert_session_actor load_pending_invitation same_mailbox
    normalize_mailbox
test_wrong_mailbox = refl

test_accept : (accept_invitation (as_user 300) 7 3 800 db).1 ≡ ok tt
unfolding accept_invitation check_accept write_accept assert_session_actor load_pending_invitation
    same_mailbox normalize_mailbox
test_accept = refl

one_owner : 1 ≤ count_owners 10 db.members
unfolding count_owners
one_owner = omega arith

two_owners : count_owners 10 db.members ≡ 2
unfolding count_owners
two_owners = refl

test_leave_too : check_remove (as_user 200) 2 db ≡ ok bob
unfolding check_remove require_role lookup_member_role count_owners
test_leave_too = refl

fresh : has_key member_id (update_member_role (as_user 100) 2 admin db).0.members 3 ≡ false
unfolding update_member_role check_update_role write_role require_role lookup_member_role
    count_owners
fresh = refl

owners_kept_example :
    IsOwned 10
      (accept_invitation (as_user 300) 7 3 800 (update_member_role (as_user 100) 2 admin db).0).0
owners_kept_example =
    owners_kept 10
      (Reach.next (Reach.next Reach.here (Step.updates (as_user 100) 2 admin db))
        (Step.accepts (as_user 300) 7 3 800 (update_member_role (as_user 100) 2 admin db).0 fresh))
      (record { ids = (refl, (refl, tt)); owned = one_owner })

concurrent_removals_example :
    count_owners 10 (write_remove (as_user 200) 2 bob (write_remove (as_user 100) 1 ann db)).members
    ≡ 0
concurrent_removals_example =
    concurrent_removals (as_user 100) (as_user 200) 10 db ann bob (refl, (refl, tt)) two_owners refl
      refl (omega arith) test_leave test_leave_too

-- The tables after the acceptance, and a revocation that comes too late.
abbrev accepted_db : Db
accepted_db = (revoke_invitation (as_user 100) 7 (accept_invitation (as_user 300) 7 3 800 db).0).0

accept_once_example :
    accept_invitation (as_user 200) 7 4 850 accepted_db ≡ (accepted_db, err invitation_already_used)
accept_once_example =
    accept_once (as_user 300) (as_user 200) 200 7 3 4 800 850 db accepted_db refl test_accept
      (next here (revokes (as_user 100) 7 (accept_invitation (as_user 300) 7 3 800 db).0))
