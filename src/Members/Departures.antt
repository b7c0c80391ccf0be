-- ===== src/Members/Departures.antt =====
-- apps/server/src/routes/v1/members.ts: two removals that both check before either one deletes.
use postbag.Common.{
  ◌≡◌, ◌≢◌, ap, true, false, not, ◌==◌, arith, Has, UniqueKeys, UniqueKeys-keep, Has-keep_of,
  count_of-without,
}
use postbag.Errors.{ok}
use postbag.Routing.Types.{Key}
use postbag.Members.Types.{Member, Db}
use postbag.Members.Roles.{RequestScope, is_owner_of, count_owners}
use postbag.Members.Changes.{check_remove, write_remove}
use postbag.Members.Owners.{member_id, check_remove_lem, others}

-- Where an organization has exactly two owners and a request to remove each passes its checks
-- before either one deletes, the organization is left without an owner.
pub concurrent_removals :
    (scope other : RequestScope) (k : Key) (db : Db) (a b : Member)
    → UniqueKeys member_id db.members
    → count_owners k db.members ≡ 2
    → is_owner_of k a ≡ true
    → is_owner_of k b ≡ true
    → a.id ≢ b.id
    → check_remove scope a.id db ≡ ok a
    → check_remove other b.id db ≡ ok b
    → count_owners k (write_remove other b.id b (write_remove scope a.id a db)).members ≡ 0
unfolding write_remove count_owners
concurrent_removals scope other k db a b u n p q ne h g =
    let first : Has a db.members = (check_remove_lem scope a.id db a h).0.stored in
    let second : Has b db.members = (check_remove_lem other b.id db b g).0.stored in
    let apart : (b.id == a.id) ≡ false = ground arith in
    let kept : Has b (others a.id db.members) =
      Has-keep_of (λ (m : Member). not (m.id == a.id)) db.members b second (ap not apart) in
    let c = count_of-without member_id (is_owner_of k) a db.members u first in
    let d =
      count_of-without member_id (is_owner_of k) b (others a.id db.members)
        (UniqueKeys-keep member_id (λ (m : Member). not (m.id == a.id)) db.members u) kept in
    let c2 = rw p at c in let d2 = rw q at d in omega (arith, c2, d2, n)
