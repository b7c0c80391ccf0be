-- ===== src/Members/Ownership.antt =====
-- An organization keeps an owner through every request that runs alone.
use postbag.Common.{
  ℕ, ◌≤◌, ◌≡◌, refl, sym, subst, Bool, true, false, not, Option, none, some, List, [], ◌∷◌, ◌==◌,
  if◌then◌else◌, arith, ◌⊎◌, inl, inr, Bool-cases, find, any, UniqueKeys, UniqueKeys-modify,
  UniqueKeys-keep, UniqueKeys-append, has_key, count_of-append, Text, trim,
}
use postbag.Errors.{Result, ok, err}
use postbag.Routing.Types.{Key}
use postbag.Core.Mailbox.{to_lower_case}
use postbag.Members.Types.{MemberRole, Member, User, Invitation, canceled, Db}
use postbag.Members.Roles.{RequestScope, is_owner_of, count_owners, is_membership}
use postbag.Members.Changes.{
  proceed, role_written, check_update_role, set_role, write_role, update_member_role, check_remove,
  write_remove, remove_member,
}
use postbag.Members.Invitations.{
  create_invitation, revoke_invitation, invitation_row, insert_or_resend, is_open_for, set_status,
  Acceptable, with_member, write_accept, accept_invitation, check_create, check_accept,
  check_revoke,
}
use postbag.Members.Owners.{
  member_id, IsOwned, check_remove_lem, check_update_role_lem, others, removed_owned, updated_owned,
}

either_way :
    (b : Bool) (x y : Db × Result (Unit {0})) (z : List Member)
    → x.0.members ≡ z
    → y.0.members ≡ z
    → (if b then x else y).0.members ≡ z
either_way true x y z e f = e
either_way false x y z e f = f

-- A row was found, so the row is updated, also where the user's row is missing.
role_written_lem :
    (scope : RequestScope) (id : Key) (role : MemberRole) (target : Member) (db : Db)
    (o : Option Member)
    → ((role_written scope id role target db o).0.members ≡ db.members)
      ⊎ ((role_written scope id role target db o).0.members ≡ (set_role id role db).members)
role_written_lem scope id role target db none = inl refl
role_written_lem scope id role target db (some u) = inr (
    either_way (any (λ (v : User). v.id == u.user_id) db.users) _ _ (set_role id role db).members
      refl refl)

IsOwned_by :
    (k : Key) (db d : Db) (ms : List Member)
    → d.members ≡ ms
    → UniqueKeys member_id ms
    → 1 ≤ count_owners k ms
    → IsOwned k d
IsOwned_by k db d ms e u h = record {
  ids = subst (UniqueKeys member_id) (sym e) u;
  owned = subst (λ (z : List Member). 1 ≤ count_owners k z) (sym e) h;
}

update_after :
    (scope : RequestScope) (id : Key) (role : MemberRole) (db : Db) (k : Key) (r : Result Member)
    → check_update_role scope id role db ≡ r
    → IsOwned k db
    → IsOwned k (proceed db r (λ target. write_role scope id role target db)).0
unfolding write_role
update_after scope id role db k (err e) h v = v
update_after scope id role db k (ok t) h v =
    let (m, i, o, l) = check_update_role_lem scope id role db t h in
    let d : Db =
      (role_written scope id role t db (find (λ (m : Member). m.id == id) db.members)).0 in
    elim (role_written_lem scope id role t db (find (λ (m : Member). m.id == id) db.members)) [
      | inl e ↦ IsOwned_by k db d db.members e v.ids v.owned
      | inr e ↦
          IsOwned_by k db d (set_role id role db).members e
            (UniqueKeys-modify member_id (λ (m : Member). m.id == id)
              (λ m. record m { role = role }) (λ m. refl) db.members v.ids)
            (subst (λ (z : Key). 1 ≤ count_owners k (set_role z role db).members) i
              (updated_owned k scope.organization_id role db t m o l v))
    ]

remove_after :
    (scope : RequestScope) (id : Key) (db : Db) (k : Key) (r : Result Member)
    → check_remove scope id db ≡ r
    → IsOwned k db
    → IsOwned k (proceed {B = Unit {0}} db r (λ target. (write_remove scope id target db, ok tt))).0
unfolding write_remove
remove_after scope id db k (err e) h v = v
remove_after scope id db k (ok t) h v =
    let (r, i) = check_remove_lem scope id db t h in
    record {
      ids = UniqueKeys-keep member_id (λ (m : Member). not (m.id == id)) db.members v.ids;
      owned =
          subst (λ (z : Key). 1 ≤ count_owners k (others z db.members)) i
            (removed_owned k scope.organization_id db t r v);
    }

joined_owned :
    (k : Key) (a : Acceptable) (new_member : Key) (now : ℕ) (db : Db)
    → has_key member_id db.members new_member ≡ false
    → IsOwned k db
    → UniqueKeys member_id (with_member a new_member now db.members)
      × (1 ≤ count_owners k (with_member a new_member now db.members))
unfolding count_owners
joined_owned k a new_member now db f v =
    elim (Bool-cases (any (is_membership a.invitation.organization_id a.user) db.members)) [
      | inl e ↦ rw e (v.ids, v.owned)
      | inr e ↦ rw e (
        UniqueKeys-append member_id db.members _ v.ids f,
        omega (arith, count_of-append (is_owner_of k) db.members (_ ∷ []), v.owned),
      )
    ]

accept_after :
    (scope : RequestScope) (id new_member : Key) (now : ℕ) (db : Db) (k : Key)
    (r : Result Acceptable)
    → has_key member_id db.members new_member ≡ false
    → IsOwned k db
    → IsOwned k (proceed db r (λ a. write_accept a new_member now db)).0
unfolding write_accept
accept_after scope id new_member now db k (err e) f v = v
accept_after scope id new_member now db k (ok a) f v =
    let (u, h) = joined_owned k a new_member now db f v in
    IsOwned_by k db _ (with_member a new_member now db.members)
      (either_way (any (λ (o : Key). o == a.invitation.organization_id) db.organizations) _ _
        (with_member a new_member now db.members) refl refl)
      u h

created_members :
    (o : Option Invitation) (row : Invitation) (db : Db)
    → (insert_or_resend o row db).members ≡ db.members
created_members none row db = refl
created_members (some i) row db = refl

create_after :
    (scope : RequestScope) (raw_email : Text) (role : MemberRole) (new_id : Key) (now : ℕ) (db : Db)
    → (create_invitation scope raw_email role new_id now db).0.members ≡ db.members
unfolding create_invitation
create_after scope raw_email role new_id now db =
    checked (check_create scope (to_lower_case (trim raw_email)) db)
  where
    checked :
        (r : Result (Unit {0}))
        → (proceed {B = Unit {0}} db r (λ _. (
          insert_or_resend
              (find
                (is_open_for scope.organization_id (to_lower_case (trim raw_email)))
                db.invitations)
              (invitation_row scope (to_lower_case (trim raw_email)) role new_id now db)
              db,
          ok tt,
        ))).0.members
          ≡ db.members
    checked (err e) = refl
    checked (ok t) = created_members _ _ db

revoke_after :
    (scope : RequestScope) (id : Key) (db : Db)
    → (revoke_invitation scope id db).0.members ≡ db.members
unfolding revoke_invitation
revoke_after scope id db = checked (check_revoke scope id db)
  where
    checked :
        (r : Result Invitation)
        → (proceed {B = Unit {0}} db r (λ _. (set_status id canceled db, ok tt))).0.members
          ≡ db.members
    checked (err e) = refl
    checked (ok t) = refl

-- The requests on members and invitations, whatever they answer. A new membership has a new identifier.
pub data Step : Db → Db → Type 0 where
  updates :
      (scope : RequestScope) (id : Key) (role : MemberRole) (db : Db)
      → Step db (update_member_role scope id role db).0
  removes : (scope : RequestScope) (id : Key) (db : Db) → Step db (remove_member scope id db).0
  creates :
      (scope : RequestScope) (raw_email : Text) (role : MemberRole) (new_id : Key) (now : ℕ)
      (db : Db)
      → Step db (create_invitation scope raw_email role new_id now db).0
  revokes : (scope : RequestScope) (id : Key) (db : Db) → Step db (revoke_invitation scope id db).0
  accepts :
      (scope : RequestScope) (id new_member : Key) (now : ℕ) (db : Db)
      → has_key member_id db.members new_member ≡ false
      → Step db (accept_invitation scope id new_member now db).0

pub data Reach (db : Db) : Db → Type 0 where
  here : Reach db db
  next : {a b : Db} → Reach db a → Step a b → Reach db b

step_owned : (k : Key) {a b : Db} → Step a b → IsOwned k a → IsOwned k b
unfolding update_member_role remove_member accept_invitation
step_owned k (updates scope id role db) v =
    update_after scope id role db k (check_update_role scope id role db) refl v
step_owned k (removes scope id db) v = remove_after scope id db k (check_remove scope id db) refl v
step_owned k (creates scope raw_email role new_id now db) v =
    IsOwned_by k db _ db.members (create_after scope raw_email role new_id now db) v.ids v.owned
step_owned k (revokes scope id db) v =
    IsOwned_by k db _ db.members (revoke_after scope id db) v.ids v.owned
step_owned k (accepts scope id new_member now db f) v =
    accept_after scope id new_member now db k (check_accept scope id now db) f v

-- Where each request runs alone, an organization with an owner has one after every series of
-- changes of roles, removals, invitations, revocations and acceptances, by whomever they are asked.
pub owners_kept : (k : Key) {a b : Db} → Reach a b → IsOwned k a → IsOwned k b
owners_kept k here v = v
owners_kept k (next r s) v = step_owned k s (owners_kept k r v)
