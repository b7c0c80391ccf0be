-- ===== src/Plan/Races.antt =====
-- apps/server/src/routes/v1/plan.ts: exactly which requests redeem a grant and what they write, and
-- two requests that both read before either one writes.
use postbag.Common.{
  ℕ, ◌+◌, ◌≡◌, refl, sym, ap, ◌∙◌, Bool, true, false, some, List, [], ◌∷◌, ◌++◌, arith, ◌↔◌, Has,
  ◌⊎◌, inl, inr, Has-modify, ==_iff,
}
use postbag.Errors.{ok}
use postbag.Routing.Types.{Key}
use postbag.Plan.Types.{Grant, Redemption, Db}
use postbag.Plan.Grants.{check_grant, check_settings, Redeemable, check, write}
use postbag.Plan.Redemptions.{
  IsSound, Passed, redeemed, check_lem, redeemed_more, same_grant, counted,
}

manages_lem :
    (manages : Bool) (org code_hash now : ℕ) (db : Db) (r : Redeemable)
    → check manages org code_hash now db ≡ ok r
    → manages ≡ true
unfolding check
manages_lem true org code_hash now db r h = refl
manages_lem false org code_hash now db r h = cc

Passed-ok :
    (org code_hash now : ℕ) (db : Db) (r : Redeemable)
    → Passed org code_hash now db r
    → check true org code_hash now db ≡ ok r
unfolding check check_grant check_settings
Passed-ok org code_hash now db r p =
    ground (arith, p.coded, p.found, p.unrevoked, p.unexpired, p.left, p.unpaid, p.upgrade)

-- A request redeems a grant exactly when its credential manages the organization, its code is that
-- of a grant that is neither revoked nor expired nor used up, and the organization does not pay and
-- has no higher plan.
pub check_iff :
    (manages : Bool) (org code_hash now : ℕ) (db : Db) (r : Redeemable)
    → (check manages org code_hash now db ≡ ok r)
      ↔ ((manages ≡ true) × Passed org code_hash now db r)
check_iff manages org code_hash now db r = (
  λ h. (manages_lem manages org code_hash now db r h, check_lem manages org code_hash now db r h),
  λ h. ap (λ (m : Bool). check m org code_hash now db) h.0 ∙ Passed-ok org code_hash now db r h.1,
)

some-injective : {A : Type 0} {a b : A} → some a ≡ some b → a ≡ b
some-injective h = cc

two_more :
    (k : Key) (rows : List Redemption) (x y : Redemption)
    → x.grant_id ≡ k
    → y.grant_id ≡ k
    → redeemed k ((rows ++ (x ∷ [])) ++ (y ∷ [])) ≡ redeemed k rows + 2
two_more k rows x y e f =
    let outer = redeemed_more k (rows ++ (x ∷ [])) y in
    let inner = redeemed_more k rows x in ground arith

-- Two organizations whose requests with one code both pass their checks before either one writes
-- have two redemptions, of which the grant counts one.
pub concurrent_redemptions :
    (org other code_hash now later : ℕ) (db : Db) (r q : Redeemable)
    → IsSound db
    → check true org code_hash now db ≡ ok r
    → check true other code_hash later db ≡ ok q
    → (redeemed r.grant.id (write other later q (write org now r db)).redemptions
        ≡ r.grant.redeemed_count + 2)
      × ((g : Grant)
          → Has g (write other later q (write org now r db)).grants
          → g.id ≡ r.grant.id
          → g.redeemed_count ≡ r.grant.redeemed_count + 1)
concurrent_redemptions org other code_hash now later db r q v h k = (
  unfold write in
      (two_more r.grant.id db.redemptions _ _ refl (ap (λ (g : Grant). g.id) same)
        ∙ ap (λ n. n + 2) (v.quota r.grant (p.stored)).1),
  λ g m e.
      unfold write in
      (last g (Has-modify (same_grant q) (counted q) (write org now r db).grants g m) e),
)
  where
    p : Passed org code_hash now db r
    p = check_lem true org code_hash now db r h

    same : q.grant ≡ r.grant
    same = some-injective (sym (check_lem true other code_hash later db q k).coded ∙ p.coded)

    last :
        (g : Grant)
        → (x : Grant) × Has x (write org now r db).grants
          × (((same_grant q x ≡ true) × (g ≡ counted q x)) ⊎ ((same_grant q x ≡ false) × (g ≡ x)))
        → g.id ≡ r.grant.id
        → g.redeemed_count ≡ r.grant.redeemed_count + 1
    last g (x, n, inl t) e =
        ap (λ (z : Grant). z.redeemed_count) t.1 ∙ ap (λ (z : Grant). z.redeemed_count + 1) same
    last g (x, n, inr t) e =
        let f : g.id ≡ x.id = ap (λ (z : Grant). z.id) t.1 in
        let i : q.grant.id ≡ r.grant.id = ap (λ (z : Grant). z.id) same in
        absurd (cc ((==_iff x.id q.grant.id).1 (sym f ∙ (e ∙ sym i)), t.0))
