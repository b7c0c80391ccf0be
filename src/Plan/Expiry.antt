-- ===== src/Plan/Expiry.antt =====
-- apps/server/src/worker/housekeeping.ts, `runPlanExpirySweep`. A transaction that fails leaves
-- its organization for the next sweep; `fails` says which ones do.
use postbag.Common.{
  ℕ, Bool, true, false, ◌&&◌, none, List, [], ◌∷◌, ◌++◌, if◌then◌else◌, keep, modify,
}
use postbag.Routing.Types.{Key}
use postbag.Plan.Types.{
  free, PlanSource, no_source, complimentary, Settings, complimentary_expired, Db,
}
use postbag.Plan.Grants.{is_past, of_organization}

abbrev pub is_complimentary : PlanSource → Bool
is_complimentary complimentary = true
is_complimentary _ = false

unfoldable pub has_expired : ℕ → Settings → Bool
has_expired now s = is_complimentary s.plan_source && is_past now s.plan_expires_at

abbrev pub reverted : Settings → Settings
reverted s = record s {
  plan = free;
  plan_source = no_source;
  plan_note = none;
  plan_expires_at = none;
}

unfoldable pub revert : Settings → Db → Db
revert org db = record db {
  settings = modify (of_organization org.organization_id) reverted db.settings;
  events =
      db.events
      ++ (record {
        organization_id = org.organization_id;
        plan_before = org.plan;
        source_before = org.plan_source;
        plan_after = free;
        source_after = no_source;
        reason = complimentary_expired;
      }
          ∷ []);
}

unfoldable pub revert_all : (Key → Bool) → List Settings → Db → Db
unfolding revert
revert_all fails [] db = db
revert_all fails (org ∷ orgs) db =
    revert_all fails orgs (if fails org.organization_id then db else revert org db)

unfoldable pub run_plan_expiry_sweep : (Key → Bool) → ℕ → Db → Db
run_plan_expiry_sweep fails now db = revert_all fails (keep (has_expired now) db.settings) db
