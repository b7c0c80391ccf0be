-- ===== src/Plan/Grants.antt =====
-- apps/server/src/routes/v1/plan.ts (redeem) and planGrants.ts (mint and revoke). Redeeming reads
-- and checks first, outside the transaction that writes; the two halves are `check` and `write`.
use postbag.Common.{
  ℕ, ◌+◌, ◌*◌, Bool, true, false, not, Option, none, some, [], ◌∷◌, ◌++◌, ◌==◌, ltb, leb,
  if◌then◌else◌, find, modify, is_some, get_or_else,
}
use postbag.Errors.{
  Result, ok, ◌>>=◌, ◌>>◌, throw_if, found_or, forbidden, not_found, internal_error,
  grant_not_found, grant_revoked, grant_expired, grant_exhausted, plan_is_billing, plan_not_upgrade,
}
use postbag.Routing.Types.{Key}
use postbag.Plan.Types.{
  PlanSource, billing, complimentary, Settings, Grant, complimentary_redeemed, Db,
}
use postbag.Plan.Limits.{plan_order}

abbrev pub is_billing : PlanSource → Bool
is_billing billing = true
is_billing _ = false

-- `t !== null && t < now`
abbrev pub is_past : ℕ → Option ℕ → Bool
is_past now none = false
is_past now (some t) = ltb t now

abbrev pub day_ms : ℕ
day_ms = 24 * 60 * 60 * 1000

-- The note of a grant without one: "Courtesy of Postbag".
abbrev pub courtesy : Key
courtesy = 0

abbrev pub of_organization : Key → Settings → Bool
of_organization org s = s.organization_id == org

unfoldable pub check_grant : ℕ → Grant → Result (Unit {0})
check_grant now g =
    throw_if (is_some g.revoked_at) grant_revoked
    >> (throw_if (is_past now g.expires_at) grant_expired
        >> throw_if (leb g.max_redemptions g.redeemed_count) grant_exhausted)

unfoldable pub check_settings : Grant → Settings → Result (Unit {0})
check_settings g s =
    throw_if (is_billing s.plan_source) plan_is_billing
    >> throw_if (ltb (plan_order g.plan) (plan_order s.plan)) plan_not_upgrade

-- What the handler read, once its checks have passed.
pub record Redeemable : Type 0 where
  pub grant : Grant
  pub settings : Settings

unfoldable pub check : (manages : Bool) → Key → Key → ℕ → Db → Result Redeemable
unfolding check_grant check_settings
check manages org code_hash now db = do
  throw_if (not manages) forbidden
  g ← found_or grant_not_found (find (λ (g : Grant). g.code_hash == code_hash) db.grants)
  check_grant now g
  s ← found_or internal_error (find (of_organization org) db.settings)
  check_settings g s
  ok (record { grant = g; settings = s })

abbrev pub expiry_of : ℕ → Option ℕ → Option ℕ
expiry_of now none = none
expiry_of now (some days) = some (now + days * day_ms)

abbrev pub granted : ℕ → Grant → Settings → Settings
granted now g s = record s {
  plan = g.plan;
  plan_source = complimentary;
  plan_note = some (get_or_else g.note courtesy);
  plan_expires_at = expiry_of now g.plan_duration_days;
}

-- The transaction. It writes the count that was read, plus one.
unfoldable pub write : Key → ℕ → Redeemable → Db → Db
write org now r db = record {
  settings = modify (of_organization org) (granted now r.grant) db.settings;
  grants =
      modify (λ (g : Grant). g.id == r.grant.id)
        (λ g. record g { redeemed_count = r.grant.redeemed_count + 1 }) db.grants;
  redemptions =
      db.redemptions
      ++ (record { grant_id = r.grant.id; organization_id = org; redeemed_at = now } ∷ []);
  events =
      db.events
      ++ (record {
        organization_id = org;
        plan_before = r.settings.plan;
        source_before = r.settings.plan_source;
        plan_after = r.grant.plan;
        source_after = complimentary;
        reason = complimentary_redeemed;
      }
          ∷ []);
}

-- The handler, where nothing comes between its halves.
unfoldable pub redeem : (manages : Bool) → Key → Key → ℕ → Db → Result Db
redeem manages org code_hash now db = do
  r ← check manages org code_hash now db
  ok (write org now r db)

-- `requirePlatformAdmin` gives `none` where it throws.
unfoldable pub create_grant : (admin : Bool) → Grant → Db → Result Db
create_grant admin g db =
    throw_if (not admin) not_found >> ok (record db { grants = db.grants ++ (g ∷ []) })

unfoldable pub revoke_grant : (admin : Bool) → Key → ℕ → Db → Result Db
revoke_grant admin id now db = do
  throw_if (not admin) not_found
  existing ← found_or not_found (find (λ (g : Grant). g.id == id) db.grants)
  ok (
      if is_some existing.revoked_at then db else (record db {
        grants =
            modify (λ (g : Grant). g.id == id) (λ g. record g { revoked_at = some now }) db.grants;
      }))
