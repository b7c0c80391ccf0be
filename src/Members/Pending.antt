-- ===== src/Members/Pending.antt =====
-- apps/server/src/routes/v1/invitations.ts: what an acceptance does.
use postbag.Common.{
  ℕ, ◌≤◌, ◌≡◌, refl, ap, ◌∙◌, subst, Bool, true, false, not, some, List, [], ◌∷◌, ◌==◌, ==_iff,
  if◌then◌else◌, arith, inl, inr, Bool-cases, ltb, find, any, any-append, find-modify, find-Has,
}
use postbag.Errors.{
  Result, ok, err, found_or, >>=-ok, throw_if-ok, ok-injective, not_found, internal_error,
  invitation_already_used, invitation_expired, invitation_email_mismatch,
}
use postbag.Routing.Types.{Key}
use postbag.Core.Mailbox.{same_mailbox}
use postbag.Members.Types.{Member, User, accepted, Invitation, Db}
use postbag.Members.Roles.{
  RequestScope, ScopeActor, session, api_key, assert_session_actor, is_membership,
}
use postbag.Members.Changes.{proceed}
use postbag.Members.Invitations.{
  is_pending, load_pending_invitation, set_status, Acceptable, check_accept, with_member,
  write_accept, accept_invitation,
}
use postbag.Members.Owners.{found_or-ok}

-- What the checks of an acceptance have found out.
pub record MayAccept (scope : RequestScope) (id : Key) (now : ℕ) (db : Db) (a : Acceptable)
    (who : User) : Type 0 where
  pub signed_in : scope.actor ≡ session a.user
  pub stored : find (λ (i : Invitation). i.id == id) db.invitations ≡ some a.invitation
  pub waiting : is_pending a.invitation.status ≡ true
  pub unexpired : now ≤ a.invitation.expires_at
  pub known : find (λ (u : User). u.id == a.user) db.users ≡ some who
  pub addressed : same_mailbox who.email a.invitation.email ≡ true

actor_lem :
    (actor : ScopeActor) (user : Key) → assert_session_actor actor ≡ ok user → actor ≡ session user
unfolding assert_session_actor
actor_lem (session u) user h = ap session (ok-injective h)
actor_lem (api_key k) user h = cc

load_lem :
    (id : Key) (now : ℕ) (db : Db) (row : Invitation)
    → load_pending_invitation id now db ≡ ok row
    → (find (λ (i : Invitation). i.id == id) db.invitations ≡ some row)
      × (is_pending row.status ≡ true)
      × (now ≤ row.expires_at)
unfolding load_pending_invitation
load_lem id now db row h =
    let (r, f, h1) =
      >>=-ok (found_or not_found (find (λ (i : Invitation). i.id == id) db.invitations)) _ h in
    let (p, h2) = throw_if-ok (not (is_pending r.status)) invitation_already_used _ h1 in
    let (e, h3) = throw_if-ok (ltb r.expires_at now) invitation_expired _ h2 in
    subst
      (λ (z : Invitation).
        (find (λ (i : Invitation). i.id == id) db.invitations ≡ some z)
        × (is_pending z.status ≡ true)
        × (now ≤ z.expires_at))
      (ok-injective h3) (found_or-ok not_found _ r f, ground arith, ground arith)

check_accept_lem :
    (scope : RequestScope) (id : Key) (now : ℕ) (db : Db) (a : Acceptable)
    → check_accept scope id now db ≡ ok a
    → (who : User) × MayAccept scope id now db a who
unfolding check_accept
check_accept_lem scope id now db a h =
    let (user, f, h1) = >>=-ok (assert_session_actor scope.actor) _ h in
    let (row, g, h2) = >>=-ok (load_pending_invitation id now db) _ h1 in
    let (who, k, h3) =
      >>=-ok (found_or internal_error (find (λ (u : User). u.id == user) db.users)) _ h2 in
    let (m, h4) =
      throw_if-ok (not (same_mailbox who.email row.email)) invitation_email_mismatch _ h3 in
    let (s, o, e) = load_lem id now db row g in
    (
      who,
      subst (λ (z : Acceptable). MayAccept scope id now db z who) (ok-injective h4)
          (record {
            signed_in = actor_lem scope.actor user f;
            stored = s;
            waiting = o;
            unexpired = e;
            known = found_or-ok internal_error _ who k;
            addressed = ground arith;
          }),
    )

is_new_member :
    (a : Acceptable) (member_id : Key) (now : ℕ) (members : List Member)
    → any (is_membership a.invitation.organization_id a.user) (with_member a member_id now members)
      ≡ true
is_new_member a member_id now members =
    elim (Bool-cases (any (is_membership a.invitation.organization_id a.user) members)) [
      | inl e ↦ rw (e, e) refl
      | inr e ↦ rw e (any-append _ members (_ ∷ []) ∙ ground arith)
    ]

-- What is left behind by an acceptance that succeeds.
pub record IsAccepted (id member_id : Key) (now : ℕ) (db d : Db) (a : Acceptable) : Type 0 where
  pub members : d.members ≡ with_member a member_id now db.members
  pub joined_now : any (is_membership a.invitation.organization_id a.user) d.members ≡ true
  pub invitations : d.invitations ≡ (set_status a.invitation.id accepted db).invitations
  pub used :
      find (λ (i : Invitation). i.id == id) d.invitations
      ≡ some (record a.invitation { status = accepted })
  pub users : d.users ≡ db.users

accepted_by :
    (scope : RequestScope) (id member_id : Key) (now : ℕ) (db d : Db) (a : Acceptable) (who : User)
    → MayAccept scope id now db a who
    → d.members ≡ with_member a member_id now db.members
    → d.invitations ≡ (set_status a.invitation.id accepted db).invitations
    → d.users ≡ db.users
    → IsAccepted id member_id now db d a
accepted_by scope id member_id now db d a who v m i u = record {
  members = m;
  joined_now =
      ap (any (is_membership a.invitation.organization_id a.user)) m
      ∙ is_new_member a member_id now db.members;
  invitations = i;
  used =
      let (_, t) = find-Has (λ (i : Invitation). i.id == id) db.invitations a.invitation v.stored in
      let e : a.invitation.id ≡ id = (==_iff a.invitation.id id).0 t in
      ap (find (λ (i : Invitation). i.id == id))
        (i ∙ ap (λ (k : Key). (set_status k accepted db).invitations) e)
      ∙ find-modify (λ (i : Invitation). i.id == id)
          (λ (i : Invitation). record i { status = accepted }) (λ j f. f) db.invitations
          a.invitation v.stored;
  users = u;
}

either-IsAccepted :
    (b : Bool) (x y : Db × Result (Unit {0})) (id member_id : Key) (now : ℕ) (db : Db)
    (a : Acceptable)
    → IsAccepted id member_id now db x.0 a
    → IsAccepted id member_id now db y.0 a
    → IsAccepted id member_id now db (if b then x else y).0 a
either-IsAccepted true x y id member_id now db a p q = p
either-IsAccepted false x y id member_id now db a p q = q

written_lem :
    (scope : RequestScope) (id member_id : Key) (now : ℕ) (db : Db) (a : Acceptable) (who : User)
    → MayAccept scope id now db a who
    → IsAccepted id member_id now db (write_accept a member_id now db).0 a
unfolding write_accept
written_lem scope id member_id now db a who v =
    either-IsAccepted (any (λ k. k == a.invitation.organization_id) db.organizations) _ _ id
      member_id now db a (accepted_by scope id member_id now db _ a who v refl refl refl)
      (accepted_by scope id member_id now db _ a who v refl refl refl)

-- An acceptance that succeeds was asked by a signed-in user whose mailbox is the invitation's,
-- while the invitation was pending and not past its expiry; it makes the user a member under the
-- invitation's role unless they were one, leaves every other membership, and marks the invitation.
pub accept_effect :
    (scope : RequestScope) (id member_id : Key) (now : ℕ) (db : Db)
    → (accept_invitation scope id member_id now db).1 ≡ ok tt
    → (a : Acceptable) × (who : User) × MayAccept scope id now db a who
      × IsAccepted id member_id now db (accept_invitation scope id member_id now db).0 a
unfolding accept_invitation
accept_effect scope id member_id now db h = checked (check_accept scope id now db) refl h
  where
    checked :
        (r : Result Acceptable)
        → check_accept scope id now db ≡ r
        → (proceed {B = Unit {0}} db r (λ a. write_accept a member_id now db)).1 ≡ ok tt
        → (a : Acceptable) × (who : User) × MayAccept scope id now db a who
          × IsAccepted id member_id now db
              (proceed {B = Unit {0}} db r (λ a. write_accept a member_id now db)).0
              a
    checked (err e) f k = cc
    checked (ok a) f k =
        let (who, v) = check_accept_lem scope id now db a f in
        (a, who, v, written_lem scope id member_id now db a who v)

pub used_up :
    (scope : RequestScope) (user id member_id : Key) (now : ℕ) (db : Db) (i : Invitation)
    → scope.actor ≡ session user
    → find (λ (j : Invitation). j.id == id) db.invitations ≡ some i
    → is_pending i.status ≡ false
    → accept_invitation scope id member_id now db ≡ (db, err invitation_already_used)
unfolding accept_invitation check_accept assert_session_actor load_pending_invitation
used_up scope user id member_id now db i s f p = ground (arith, s, f, p)
