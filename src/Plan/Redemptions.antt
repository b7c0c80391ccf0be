-- ===== src/Plan/Redemptions.antt =====
-- What redeeming keeps: each grant counts its redemptions and stays within its maximum, where each
-- request runs alone; and what is lost where two requests check before either one writes.
use postbag.Common.{
  ℕ, ◌+◌, ◌≤◌, ◌<◌, ◌≡◌, refl, sym, ap, ◌∙◌, subst, Bool, true, false, not, Option, none, some,
  List, [], ◌∷◌, ◌++◌, ◌==◌, if◌then◌else◌, arith, inl, inr, find, modify, count_of, any, is_some,
  Has, Has-modify, Has-append, UniqueKeys, UniqueKeys-modify, UniqueKeys-append, unique_key,
  has_key, count_of-append, count_of-none, find-Has,
}
use postbag.Errors.{
  ErrorCode, ok, found_or, >>=-ok, throw_if-ok, ok-injective, forbidden, not_found, internal_error,
  grant_not_found, grant_expired, grant_revoked, plan_is_billing,
}
use postbag.Routing.Types.{Key}
use postbag.Plan.Types.{Settings, Grant, Redemption, Db}
use postbag.Plan.Limits.{plan_order}
use postbag.Plan.Grants.{
  is_billing, is_past, of_organization, check_grant, check_settings, Redeemable, check, write,
  redeem, create_grant, revoke_grant,
}

abbrev pub grant_id : Grant → ℕ
grant_id g = g.id

abbrev pub redeemed : Key → List Redemption → ℕ
redeemed k rows = count_of (λ (r : Redemption). r.grant_id == k) rows

abbrev pub Counts : List Redemption → Grant → Type 0
Counts rows g = (g.redeemed_count ≤ g.max_redemptions) × (redeemed g.id rows ≡ g.redeemed_count)

pub record IsSound (db : Db) : Type 0 where
  pub ids : UniqueKeys grant_id db.grants
  pub quota : (g : Grant) → Has g db.grants → Counts db.redemptions g

-- What the checks have found out.
pub record Passed (org code_hash now : ℕ) (db : Db) (r : Redeemable) : Type 0 where
  pub stored : Has r.grant db.grants
  pub coded : find (λ (g : Grant). g.code_hash == code_hash) db.grants ≡ some r.grant
  pub unrevoked : is_some r.grant.revoked_at ≡ false
  pub unexpired : is_past now r.grant.expires_at ≡ false
  pub left : r.grant.redeemed_count < r.grant.max_redemptions
  pub found : find (of_organization org) db.settings ≡ some r.settings
  pub unpaid : is_billing r.settings.plan_source ≡ false
  pub upgrade : plan_order r.settings.plan ≤ plan_order r.grant.plan

found_or-ok : {A : Type 0} (e : ErrorCode) (o : Option A) (a : A) → found_or e o ≡ ok a → o ≡ some a
found_or-ok e none a h = cc
found_or-ok e (some x) a h = ap some (ok-injective h)

check_grant_lem :
    (now : ℕ) (g : Grant)
    → check_grant now g ≡ ok tt
    → (is_some g.revoked_at ≡ false)
      × (is_past now g.expires_at ≡ false)
      × (g.redeemed_count < g.max_redemptions)
unfolding check_grant
check_grant_lem now g h =
    let (a, k) = throw_if-ok (is_some g.revoked_at) grant_revoked _ h in
    let (b, l) = throw_if-ok (is_past now g.expires_at) grant_expired _ k in (a, b, ground arith)

check_settings_lem :
    (g : Grant) (s : Settings)
    → check_settings g s ≡ ok tt
    → (is_billing s.plan_source ≡ false) × (plan_order s.plan ≤ plan_order g.plan)
unfolding check_settings
check_settings_lem g s h =
    let (a, k) = throw_if-ok (is_billing s.plan_source) plan_is_billing _ h in (a, ground arith)

Passed-by :
    (org code_hash now : ℕ) (db : Db) (g : Grant) (s : Settings)
    → find (λ (g : Grant). g.code_hash == code_hash) db.grants ≡ some g
    → find (of_organization org) db.settings ≡ some s
    → check_grant now g ≡ ok tt
    → check_settings g s ≡ ok tt
    → Passed org code_hash now db (record { grant = g; settings = s })
Passed-by org code_hash now db g s f fs cg cs =
    let (m, e) = find-Has (λ (g : Grant). g.code_hash == code_hash) db.grants g f in
    let (a, b, c) = check_grant_lem now g cg in
    let (d, u) = check_settings_lem g s cs in
    record {
      stored = m;
      coded = f;
      unrevoked = a;
      unexpired = b;
      left = c;
      found = fs;
      unpaid = d;
      upgrade = u;
    }

pub check_lem :
    (manages : Bool) (org code_hash now : ℕ) (db : Db) (r : Redeemable)
    → check manages org code_hash now db ≡ ok r
    → Passed org code_hash now db r
unfolding check
check_lem manages org code_hash now db r h =
    let (_, h1) = throw_if-ok (not manages) forbidden _ h in
    let (g, f, h2) =
      >>=-ok (found_or grant_not_found (find (λ (g : Grant). g.code_hash == code_hash) db.grants)) _
        h1 in
    let (_, cg, h3) = >>=-ok (check_grant now g) _ h2 in
    let (s, fs, h4) =
      >>=-ok (found_or internal_error (find (of_organization org) db.settings)) _ h3 in
    let (_, cs, h5) = >>=-ok (check_settings g s) _ h4 in
    subst (Passed org code_hash now db) (ok-injective h5) (
      Passed-by org code_hash now db g s (found_or-ok grant_not_found _ g f)
        (found_or-ok internal_error _ s fs) cg cs)

-- One more redemption of its grant.
pub redeemed_more :
    (k : Key) (rows : List Redemption) (r : Redemption)
    → redeemed k (rows ++ (r ∷ [])) ≡ redeemed k rows + (if r.grant_id == k then 1 else 0)
redeemed_more k rows r =
    omega (arith, count_of-append (λ (r : Redemption). r.grant_id == k) rows (r ∷ []))

abbrev pub counted : Redeemable → Grant → Grant
counted r g = record g { redeemed_count = r.grant.redeemed_count + 1 }

abbrev pub same_grant : Redeemable → Grant → Bool
same_grant r g = g.id == r.grant.id

module _ (rows : List Redemption) (row : Redemption) (r : Redeemable)
    (of_grant : row.grant_id ≡ r.grant.id) where
  Counts-this :
      (x : Grant)
      → r.grant.redeemed_count < r.grant.max_redemptions
      → Counts rows r.grant
      → x ≡ r.grant
      → Counts (rows ++ (row ∷ [])) (counted r x)
  Counts-this x left v e =
      let more = redeemed_more r.grant.id rows row in
      subst (λ (z : Grant). Counts (rows ++ (row ∷ [])) (counted r z)) (sym e) (ground arith)

  Counts-other :
      (x : Grant) → same_grant r x ≡ false → Counts rows x → Counts (rows ++ (row ∷ [])) x
  Counts-other x f v =
      let more = redeemed_more x.id rows row in
      let g : (row.grant_id == x.id) ≡ false = ground arith in
      (v.0, more ∙ rw g (omega (arith, v.1)))

write-IsSound :
    (org code_hash now : ℕ) (db : Db) (r : Redeemable)
    → Passed org code_hash now db r
    → IsSound db
    → IsSound (write org now r db)
unfolding write
write-IsSound org code_hash now db r p v = record {
  ids = UniqueKeys-modify grant_id (same_grant r) (counted r) (λ g. refl) db.grants v.ids;
  quota = λ g m.
      let (x, n, k) = Has-modify (same_grant r) (counted r) db.grants g m in
      let row : Redemption = record {
        grant_id = r.grant.id;
        organization_id = org;
        redeemed_at = now;
      } in
      elim k [
        | inl t ↦
            let same : x ≡ r.grant =
              unique_key grant_id db.grants x r.grant v.ids n p.stored (ground arith) in
            subst (Counts (db.redemptions ++ (row ∷ []))) (sym t.1)
              (Counts-this db.redemptions row r refl x p.left (v.quota r.grant p.stored) same)
        | inr t ↦
            subst (Counts (db.redemptions ++ (row ∷ []))) (sym t.1)
              (Counts-other db.redemptions row r refl x t.0 (v.quota x n))
      ];
}

-- A grant whose identifier is nowhere yet.
pub record IsFresh (g : Grant) (db : Db) : Type 0 where
  pub unused : has_key grant_id db.grants g.id ≡ false
  pub empty : any (λ (r : Redemption). r.grant_id == g.id) db.redemptions ≡ false
  pub uncounted : g.redeemed_count ≡ 0

create_grant-IsSound :
    (admin : Bool) (g : Grant) (db d : Db)
    → IsFresh g db
    → IsSound db
    → create_grant admin g db ≡ ok d
    → IsSound d
unfolding create_grant
create_grant-IsSound admin g db d f v h =
    subst IsSound (ok-injective (throw_if-ok (not admin) not_found _ h).1) (record {
      ids = UniqueKeys-append grant_id db.grants g v.ids f.unused;
      quota = λ x m. elim (Has-append db.grants (g ∷ []) x m) [
        | inl n ↦ v.quota x n
        | inr (inl e) ↦ subst (Counts db.redemptions) e (
          omega (arith, f.uncounted),
          count_of-none (λ (r : Redemption). r.grant_id == g.id) db.redemptions f.empty
              ∙ sym f.uncounted,
        )
        | inr (inr n) ↦ absurd n
      ];
    })

abbrev revoked_row : ℕ → Grant → Grant
revoked_row now g = record g { revoked_at = some now }

revoke_grant-IsSound :
    (admin : Bool) (id now : ℕ) (db d : Db)
    → IsSound db
    → revoke_grant admin id now db ≡ ok d
    → IsSound d
unfolding revoke_grant
revoke_grant-IsSound admin id now db d v h =
    let (g, _, k) =
      >>=-ok (found_or not_found (find (λ (g : Grant). g.id == id) db.grants)) _
        (throw_if-ok (not admin) not_found _ h).1 in
    subst IsSound (ok-injective k) (either (is_some g.revoked_at))
  where
    either :
        (b : Bool)
        → IsSound (
            if b then db else (record db {
              grants = modify (λ (g : Grant). g.id == id) (revoked_row now) db.grants;
            }))
    either true = v
    either false = record {
      ids =
          UniqueKeys-modify grant_id (λ (g : Grant). g.id == id) (revoked_row now) (λ g. refl)
            db.grants v.ids;
      quota = λ x m.
          let (y, n, k) = Has-modify (λ (g : Grant). g.id == id) (revoked_row now) db.grants x m in
          elim k [
            | inl t ↦ subst (Counts db.redemptions) (sym t.1) (v.quota y n)
            | inr t ↦ subst (Counts db.redemptions) (sym t.1) (v.quota y n)
          ];
    }

-- The requests on grants, each of which runs alone.
pub data Step : Db → Db → Type 0 where
  redeems :
      (manages : Bool) (org code_hash now : ℕ) (db d : Db)
      → redeem manages org code_hash now db ≡ ok d
      → Step db d
  creates :
      (admin : Bool) (g : Grant) (db d : Db)
      → IsFresh g db
      → create_grant admin g db ≡ ok d
      → Step db d
  revokes :
      (admin : Bool) (id now : ℕ) (db d : Db) → revoke_grant admin id now db ≡ ok d → Step db d

pub data Reach (db : Db) : Db → Type 0 where
  here : Reach db db
  next : {a b : Db} → Reach db a → Step a b → Reach db b

step-IsSound : {a b : Db} → Step a b → IsSound a → IsSound b
unfolding redeem
step-IsSound (redeems manages org code_hash now db d h) v =
    let (r, c, k) = >>=-ok (check manages org code_hash now db) _ h in
    subst IsSound (ok-injective k)
      (write-IsSound org code_hash now db r (check_lem manages org code_hash now db r c) v)
step-IsSound (creates admin g db d f h) v = create_grant-IsSound admin g db d f v h
step-IsSound (revokes admin id now db d h) v = revoke_grant-IsSound admin id now db d v h

-- Where each request runs alone, every series of redemptions, new grants and revocations keeps the
-- identifiers of grants apart, and each grant's count its redemptions and at most its maximum.
pub redemptions_counted : {a b : Db} → Reach a b → IsSound a → IsSound b
redemptions_counted here v = v
redemptions_counted (next r s) v = step-IsSound s (redemptions_counted r v)
