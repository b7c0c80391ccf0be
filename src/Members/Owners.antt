-- ===== src/Members/Owners.antt =====
-- What the checks of apps/server/src/routes/v1/members.ts find out, and the owners that are left.
use postbag.Common.{
  ℕ, ◌≤◌, ◌≡◌, ap, subst, true, false, ◌&&◌, not, Option, none, some, List, [], ◌∷◌, ◌==◌, arith,
  inl, inr, Bool-cases, keep, Has, UniqueKeys, find-Has, count_of-without, count_of-updated,
}
use postbag.Errors.{
  ErrorCode, ok, found_or, >>=-ok, throw_if-ok, ok-injective, not_found, last_owner,
}
use postbag.Routing.Types.{Key}
use postbag.Members.Types.{MemberRole, owner, Member, Db}
use postbag.Members.Roles.{RequestScope, same_role, is_owner_of, count_owners, require_role}
use postbag.Members.Changes.{
  is_target, target_of, is_self, is_last_owner, check_update_role, set_role, require_unless,
  check_remove,
}

abbrev pub member_id : Member → ℕ
member_id m = m.id

-- Identifiers of memberships differ, and the organization has an owner.
pub record IsOwned (organization : Key) (db : Db) : Type 0 where
  pub ids : UniqueKeys member_id db.members
  pub owned : 1 ≤ count_owners organization db.members

-- What the checks of a removal have found out.
pub record IsRemovable (organization : Key) (db : Db) (target : Member) : Type 0 where
  pub stored : Has target db.members
  pub within : target.organization_id ≡ organization
  pub spared : is_last_owner organization target db.members ≡ false

pub found_or-ok :
    {A : Type 0} (e : ErrorCode) (o : Option A) (a : A) → found_or e o ≡ ok a → o ≡ some a
found_or-ok e none a h = cc
found_or-ok e (some x) a h = ap some (ok-injective h)

pub target_lem :
    (scope : RequestScope) (id : Key) (db : Db) (t : Member)
    → target_of scope id db ≡ ok t
    → Has t db.members × (t.id ≡ id) × (t.organization_id ≡ scope.organization_id)
target_lem scope id db t h =
    let (m, e) =
      find-Has (is_target scope.organization_id id) db.members t (found_or-ok not_found _ t h) in
    (m, ground arith, ground arith)

pub check_remove_lem :
    (scope : RequestScope) (id : Key) (db : Db) (t : Member)
    → check_remove scope id db ≡ ok t
    → IsRemovable scope.organization_id db t × (t.id ≡ id)
unfolding check_remove
check_remove_lem scope id db t h =
    let (s, f, h1) = >>=-ok (target_of scope id db) _ h in
    let (_, _, h2) = >>=-ok (require_unless (is_self scope.actor s) _) _ h1 in
    let (l, h3) = throw_if-ok (is_last_owner scope.organization_id s db.members) last_owner _ h2 in
    let (m, i, o) = target_lem scope id db s f in
    subst (λ (z : Member). IsRemovable scope.organization_id db z × (z.id ≡ id)) (ok-injective h3)
      (record { stored = m; within = o; spared = l }, i)

pub check_update_role_lem :
    (scope : RequestScope) (id : Key) (role : MemberRole) (db : Db) (t : Member)
    → check_update_role scope id role db ≡ ok t
    → Has t db.members
      × (t.id ≡ id)
      × (t.organization_id ≡ scope.organization_id)
      × ((not (same_role role owner) && is_last_owner scope.organization_id t db.members) ≡ false)
unfolding check_update_role
check_update_role_lem scope id role db t h =
    let (_, _, h1) = >>=-ok (require_role db.members scope scope.actor (owner ∷ [])) _ h in
    let (s, f, h2) = >>=-ok (target_of scope id db) _ h1 in
    let (l, h3) =
      throw_if-ok (not (same_role role owner) && is_last_owner scope.organization_id s db.members)
        last_owner _ h2 in
    let (m, i, o) = target_lem scope id db s f in
    subst
      (λ (z : Member).
        Has z db.members
        × (z.id ≡ id)
        × (z.organization_id ≡ scope.organization_id)
        × ((not (same_role role owner) && is_last_owner scope.organization_id z db.members)
            ≡ false))
      (ok-injective h3) (m, i, o, l)

abbrev pub others : Key → List Member → List Member
others id members = keep (λ (m : Member). not (m.id == id)) members

-- A target that counts as an owner, and is not the last one, leaves one behind.
spare_owner :
    (k organization : Key) (t : Member) (members : List Member)
    → t.organization_id ≡ organization
    → is_owner_of k t ≡ true
    → is_last_owner organization t members ≡ false
    → 2 ≤ count_owners k members
spare_owner k organization t members o h l =
    let e : organization ≡ k = ground arith in
    let l2 : is_last_owner k t members ≡ false =
      subst (λ (z : Key). is_last_owner z t members ≡ false) e l in
    ground arith

pub removed_owned :
    (k organization : Key) (db : Db) (t : Member)
    → IsRemovable organization db t
    → IsOwned k db
    → 1 ≤ count_owners k (others t.id db.members)
unfolding count_owners
removed_owned k organization db t r v =
    let c = count_of-without member_id (is_owner_of k) t db.members v.ids r.stored in
    elim (Bool-cases (is_owner_of k t)) [
      | inl e ↦
          let n = spare_owner k organization t db.members r.within e r.spared in
          let d = rw e at c in omega (arith, d, n)
      | inr e ↦ let d = rw e at c in omega (arith, d, v.owned)
    ]

pub updated_owned :
    (k organization : Key) (role : MemberRole) (db : Db) (t : Member)
    → Has t db.members
    → t.organization_id ≡ organization
    → (not (same_role role owner) && is_last_owner organization t db.members) ≡ false
    → IsOwned k db
    → 1 ≤ count_owners k (set_role t.id role db).members
unfolding count_owners
updated_owned k organization role db t m o l v =
    let c =
      count_of-updated member_id (is_owner_of k) (λ (m : Member). record m { role = role }) t
        db.members v.ids m in
    elim (Bool-cases (same_role role owner)) [
      | inl e ↦ let w = v.owned in ground arith
      | inr e ↦ elim (Bool-cases (is_owner_of k t)) [
        | inl f ↦
            let n = spare_owner k organization t db.members o f (ground arith) in
            let d = rw f at c in omega (arith, d, n)
        | inr f ↦ let d = rw f at c in omega (arith, d, v.owned)
      ]
    ]
