-- ===== src/Members/Changes.antt =====
-- apps/server/src/routes/v1/members.ts. The handlers are no transactions: what was written before
-- an error stays, so each gives the tables and the answer.
use postbag.Common.{
  Bool, true, false, ◌&&◌, not, Option, none, some, List, [], ◌∷◌, ◌++◌, ◌==◌, if◌then◌else◌, leb,
  find, any, modify, keep,
}
use postbag.Errors.{
  Result, ok, err, ◌>>=◌, ◌>>◌, throw_if, found_or, not_found, last_owner, internal_error,
}
use postbag.Routing.Types.{Key}
use postbag.Members.Types.{
  MemberRole, owner, admin, Member, User, Session, role_changed, removed, Db,
}
use postbag.Members.Roles.{
  RequestScope, ScopeActor, session, api_key, same_role, count_owners, require_role,
}

-- What a handler does after its checks.
abbrev pub proceed : {A B : Type 0} → Db → Result A → (A → Db × Result B) → Db × Result B
proceed db (err e) k = (db, err e)
proceed db (ok a) k = k a

abbrev pub is_target : Key → Key → Member → Bool
is_target organization id m = (m.id == id) && (m.organization_id == organization)

abbrev pub target_of : RequestScope → Key → Db → Result Member
target_of scope id db = found_or not_found (find (is_target scope.organization_id id) db.members)

-- `target.role === "owner"` with one owner left
abbrev pub is_last_owner : Key → Member → List Member → Bool
is_last_owner organization target members =
    same_role target.role owner && leb (count_owners organization members) 1

-- The checks of a change of role: the row that is to change.
unfoldable pub check_update_role : RequestScope → Key → MemberRole → Db → Result Member
check_update_role scope id new_role db = do
  _ ← require_role db.members scope scope.actor (owner ∷ [])
  target ← target_of scope id db
  throw_if (not (same_role new_role owner) && is_last_owner scope.organization_id target db.members)
      last_owner
  ok target

abbrev pub set_role : Key → MemberRole → Db → Db
set_role id new_role db = record db {
  members = modify (λ (m : Member). m.id == id) (λ m. record m { role = new_role }) db.members;
}

-- `updated` is the row that `returning()` gives: it differs from the one found in its role.
abbrev pub role_written :
    RequestScope → Key → MemberRole → Member → Db → Option Member → Db × Result (Unit {0})
role_written scope id new_role target db none = (db, err not_found)
role_written scope id new_role target db (some updated) =
    if any (λ (u : User). u.id == updated.user_id) db.users
    then (
      record (set_role id new_role db) {
        events =
            db.events
            ++ (role_changed scope.organization_id id updated.user_id target.role new_role ∷ []);
      },
      ok tt,
    )
    else (set_role id new_role db, err internal_error)

unfoldable pub write_role : RequestScope → Key → MemberRole → Member → Db → Db × Result (Unit {0})
write_role scope id new_role target db =
    role_written scope id new_role target db (find (λ (m : Member). m.id == id) db.members)

unfoldable pub update_member_role : RequestScope → Key → MemberRole → Db → Db × Result (Unit {0})
update_member_role scope id new_role db =
    proceed db (check_update_role scope id new_role db)
      (λ target. write_role scope id new_role target db)

abbrev pub is_self : ScopeActor → Member → Bool
is_self (session user) m = user == m.user_id
is_self (api_key _) m = false

abbrev pub require_unless : Bool → Result MemberRole → Result (Unit {0})
require_unless true r = ok tt
require_unless false (ok role) = ok tt
require_unless false (err e) = err e

unfoldable pub check_remove : RequestScope → Key → Db → Result Member
check_remove scope id db = do
  target ← target_of scope id db
  require_unless (is_self scope.actor target)
      (require_role db.members scope scope.actor (owner ∷ admin ∷ []))
  throw_if (is_last_owner scope.organization_id target db.members) last_owner
  ok target

abbrev pub leaves : Key → Key → Session → Bool
leaves organization user s =
    (s.user_id == user)
    && elim s.active_organization_id [ none ↦ false | some k ↦ k == organization ]

unfoldable pub write_remove : RequestScope → Key → Member → Db → Db
write_remove scope id target db =
    let self = is_self scope.actor target in
    record db {
      members = keep (λ (m : Member). not (m.id == id)) db.members;
      sessions =
          if self
          then modify (leaves scope.organization_id target.user_id)
              (λ s. record s { active_organization_id = none }) db.sessions
          else db.sessions;
      events = db.events ++ (removed scope.organization_id id target.user_id target.role self ∷ []);
    }

unfoldable pub remove_member : RequestScope → Key → Db → Db × Result (Unit {0})
remove_member scope id db =
    proceed db (check_remove scope id db) (λ target. (write_remove scope id target db, ok tt))
