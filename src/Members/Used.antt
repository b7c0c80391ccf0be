-- ===== src/Members/Used.antt =====
-- An invitation that was accepted stays used, through every series of requests.
use postbag.Common.{
  ℕ, ◌≡◌, refl, sym, Bool, true, false, Option, none, some, List, [], ◌∷◌, ◌++◌, ◌==◌,
  if◌then◌else◌, inl, inr, Bool-cases, find, modify, any, subst, trim,
}
use postbag.Errors.{Result, err, ok, invitation_already_used}
use postbag.Routing.Types.{Key}
use postbag.Core.Mailbox.{to_lower_case}
use postbag.Members.Types.{
  MemberRole, Member, accepted, canceled, Invitation, InvitationStatus, Db, User,
}
use postbag.Members.Roles.{RequestScope, session}
use postbag.Members.Changes.{
  proceed, role_written, check_update_role, write_role, update_member_role, check_remove,
  write_remove, remove_member,
}
use postbag.Members.Invitations.{
  is_pending, is_open_for, insert_or_resend, invitation_row, check_create, create_invitation,
  check_revoke, set_status, revoke_invitation, Acceptable, check_accept, write_accept,
  accept_invitation,
}
use postbag.Members.Ownership.{Step, updates, removes, creates, revokes, accepts, Reach, here, next}
use postbag.Members.Pending.{accept_effect, used_up}

-- The invitation with an identifier is there, and no longer pending.
UsedIn : Key → List Invitation → Type 0
UsedIn id rows =
    (i : Invitation) × (find (λ (j : Invitation). j.id == id) rows ≡ some i)
    × (is_pending i.status ≡ false)

-- An update that keeps identifiers, and makes no invitation pending again.
record Keeps (f : Invitation → Invitation) : Type 0 where
  ids : (i : Invitation) → (f i).id ≡ i.id
  used : (i : Invitation) → is_pending i.status ≡ false → is_pending (f i).status ≡ false

modify-UsedIn :
    (id : Key) (p : Invitation → Bool) (f : Invitation → Invitation) (rows : List Invitation)
    → Keeps f
    → UsedIn id rows
    → UsedIn id (modify p f rows)
unfolding UsedIn
modify-UsedIn id p f [] k u = u
modify-UsedIn id p f (r ∷ rows) k (i, e, h) = elim (Bool-cases (r.id == id)) [
  | inl t ↦
      let same : r ≡ i = some_inj (rw t at e) in
      let old : is_pending r.status ≡ false =
        subst (λ (z : Invitation). is_pending z.status ≡ false) (sym same) h in
      elim (Bool-cases (p r)) [
        | inl q ↦ rw q (f r, rw (k.ids r, t) refl, k.used r old)
        | inr q ↦ rw q (r, rw t refl, old)
      ]
  | inr t ↦
      let (j, g, l) = modify-UsedIn id p f rows k (i, rw t at e, h) in
      elim (Bool-cases (p r)) [
        | inl q ↦ rw q (j, rw (k.ids r, t) g, l)
        | inr q ↦ rw q (j, rw t g, l)
      ]
]
  where
    some_inj : some r ≡ some i → r ≡ i
    some_inj x = cc

append-UsedIn : (id : Key) (rows more : List Invitation) → UsedIn id rows → UsedIn id (rows ++ more)
unfolding UsedIn
append-UsedIn id [] more (i, e, h) = cc
append-UsedIn id (r ∷ rows) more (i, e, h) = elim (Bool-cases (r.id == id)) [
  | inl t ↦ (i, rw t (rw t at e), h)
  | inr t ↦ let (j, g, l) = append-UsedIn id rows more (i, rw t at e, h) in (j, rw t g, l)
]

-- The status that a revocation or an acceptance sets is none that is pending.
set_status-UsedIn :
    (id other : Key) (status : InvitationStatus) (db : Db)
    → ((i : Invitation) → is_pending (record i { status = status }).status ≡ false)
    → UsedIn id db.invitations
    → UsedIn id (set_status other status db).invitations
set_status-UsedIn id other status db s u =
    modify-UsedIn id (λ (i : Invitation). i.id == other) (λ i. record i { status = status })
      db.invitations (record { ids = λ i. refl; used = λ i _. s i }) u

role_written-invitations :
    (scope : RequestScope) (id : Key) (role : MemberRole) (target : Member) (db : Db)
    (o : Option Member)
    → (role_written scope id role target db o).0.invitations ≡ db.invitations
role_written-invitations scope id role target db none = refl
role_written-invitations scope id role target db (some u) =
    either (any (λ (v : User). v.id == u.user_id) db.users) _ _ refl refl
  where
    either :
        (b : Bool) (x y : Db × Result (Unit {0}))
        → x.0.invitations ≡ db.invitations
        → y.0.invitations ≡ db.invitations
        → (if b then x else y).0.invitations ≡ db.invitations
    either true x y p q = p
    either false x y p q = q

insert_or_resend-UsedIn :
    (id : Key) (o : Option Invitation) (row : Invitation) (db : Db)
    → UsedIn id db.invitations
    → UsedIn id (insert_or_resend o row db).invitations
insert_or_resend-UsedIn id none row db u = append-UsedIn id db.invitations (row ∷ []) u
insert_or_resend-UsedIn id (some old) row db u =
    modify-UsedIn id (λ (i : Invitation). i.id == old.id) _ db.invitations
      (record { ids = λ i. refl; used = λ i h. h }) u

Step-UsedIn : (id : Key) {a b : Db} → Step a b → UsedIn id a.invitations → UsedIn id b.invitations
unfolding update_member_role remove_member create_invitation revoke_invitation accept_invitation
    write_role write_remove write_accept
Step-UsedIn id (updates scope member role db) u = checked (check_update_role scope member role db)
  where
    checked :
        (r : Result Member)
        → UsedIn id (proceed db r (λ target. write_role scope member role target db)).0.invitations
    checked (err e) = u
    checked (ok t) = subst (UsedIn id) (sym (role_written-invitations scope member role t db _)) u
Step-UsedIn id (removes scope member db) u = checked (check_remove scope member db)
  where
    checked :
        (r : Result Member)
        → UsedIn id
            (proceed {B = Unit {0}} db r
              (λ target. (write_remove scope member target db, ok tt))).0.invitations
    checked (err e) = u
    checked (ok t) = u
Step-UsedIn id (creates scope raw_email role new_id now db) u =
    checked (check_create scope (to_lower_case (trim raw_email)) db)
  where
    checked :
        (r : Result (Unit {0}))
        → UsedIn id
            (proceed {B = Unit {0}} db r (λ _. (
              insert_or_resend
                  (find
                    (is_open_for scope.organization_id (to_lower_case (trim raw_email)))
                    db.invitations)
                  (invitation_row scope (to_lower_case (trim raw_email)) role new_id now db)
                  db,
              ok tt,
            ))).0.invitations
    checked (err e) = u
    checked (ok t) = insert_or_resend-UsedIn id _ _ db u
Step-UsedIn id (revokes scope other db) u = checked (check_revoke scope other db)
  where
    checked :
        (r : Result Invitation)
        → UsedIn id
            (proceed {B = Unit {0}} db r (λ _. (set_status other canceled db, ok tt))).0.invitations
    checked (err e) = u
    checked (ok t) = set_status-UsedIn id other canceled db (λ i. refl) u
Step-UsedIn id (accepts scope other new_member now db f) u =
    checked (check_accept scope other now db)
  where
    written :
        (b : Bool) (a : Acceptable) (x y : Db × Result (Unit {0}))
        → UsedIn id x.0.invitations
        → UsedIn id y.0.invitations
        → UsedIn id (if b then x else y).0.invitations
    written true a x y p q = p
    written false a x y p q = q

    checked :
        (r : Result Acceptable)
        → UsedIn id (proceed db r (λ a. write_accept a new_member now db)).0.invitations
    checked (err e) = u
    checked (ok a) =
        let s = set_status-UsedIn id a.invitation.id accepted db (λ i. refl) u in
        written (any (λ k. k == a.invitation.organization_id) db.organizations) a _ _ s s

Reach-UsedIn : (id : Key) {a b : Db} → Reach a b → UsedIn id a.invitations → UsedIn id b.invitations
Reach-UsedIn id here u = u
Reach-UsedIn id (next r s) u = Step-UsedIn id s (Reach-UsedIn id r u)

-- Where each request runs alone, nobody can accept an invitation again after an acceptance that
-- succeeded: after any series of changes of roles, removals, invitations, revocations and acceptances, and
-- at any moment, every signed-in user is told that it was used, and nothing changes.
pub accept_once :
    (scope other : RequestScope) (user id member_id new_member : Key) (now later : ℕ)
    (db after : Db)
    → other.actor ≡ session user
    → (accept_invitation scope id member_id now db).1 ≡ ok tt
    → Reach (accept_invitation scope id member_id now db).0 after
    → accept_invitation other id new_member later after ≡ (after, err invitation_already_used)
unfolding UsedIn
accept_once scope other user id member_id new_member now later db after s h r =
    let (a, who, v, w) = accept_effect scope id member_id now db h in
    let (i, e, p) = Reach-UsedIn id r (record a.invitation { status = accepted }, w.used, refl) in
    used_up other user id new_member later after i s e p
