-- ===== src/Plan/Sweeps.antt =====
-- What one run of `runPlanExpirySweep` leaves behind.
use postbag.Common.{
  ℕ, ◌≡◌, refl, sym, ap, ◌∙◌, subst, Bool, true, false, ◌&&◌, not, List, [], ◌∷◌, ◌++◌, map, ◌==◌,
  if◌then◌else◌, arith, inl, inr, Bool-cases, keep, modify, modify_ext, any, Has, Has-any, any-Has,
  Has-keep, Has-keep_of, UniqueKeys, unique_key,
}
use mathlib.Core.List.{append_assoc, append-nil}
use postbag.Routing.Types.{Key}
use postbag.Plan.Types.{free, no_source, Settings, complimentary_expired, PlanChanged, Db}
use postbag.Plan.Grants.{of_organization}
use postbag.Plan.Expiry.{has_expired, reverted, revert, revert_all, run_plan_expiry_sweep}

abbrev pub organization_of : Settings → ℕ
organization_of s = s.organization_id

abbrev pub expired_event : Settings → PlanChanged
expired_event s = record {
  organization_id = s.organization_id;
  plan_before = s.plan;
  source_before = s.plan_source;
  plan_after = free;
  source_after = no_source;
  reason = complimentary_expired;
}

-- The organizations of the list whose transaction does not fail.
abbrev swept : (Key → Bool) → List Settings → Settings → Bool
swept fails orgs s =
    any
      (λ (o : Settings). not (fails o.organization_id) && (s.organization_id == o.organization_id))
      orgs

merge_updates :
    (fails : Key → Bool) (o : Settings) (orgs rows : List Settings)
    → modify (swept fails orgs) reverted (
        if fails o.organization_id
        then rows
        else modify (of_organization o.organization_id) reverted rows)
      ≡ modify (swept fails (o ∷ orgs)) reverted rows
merge_updates fails o orgs rows = elim (Bool-cases (fails o.organization_id)) [
  | inl e ↦ rw e (same_rows e rows)
  | inr e ↦ rw e (both_rows e rows)
]
  where
    same_rows :
        fails o.organization_id ≡ true
        → (rows : List Settings)
        → modify (swept fails orgs) reverted rows ≡ modify (swept fails (o ∷ orgs)) reverted rows
    same_rows e [] = refl
    same_rows e (s ∷ rows) = ground (arith, same_rows e rows)

    both_rows :
        fails o.organization_id ≡ false
        → (rows : List Settings)
        → modify
            (swept fails orgs)
            reverted
            (modify (of_organization o.organization_id) reverted rows)
          ≡ modify (swept fails (o ∷ orgs)) reverted rows
    both_rows e [] = refl
    both_rows e (s ∷ rows) = ground (arith, both_rows e rows)

settings_after :
    (fails : Key → Bool) (orgs : List Settings) (db : Db)
    → (revert_all fails orgs db).settings ≡ modify (swept fails orgs) reverted db.settings
unfolding revert_all revert
settings_after fails [] db = untouched db.settings
  where
    untouched : (rows : List Settings) → rows ≡ modify (swept fails []) reverted rows
    untouched [] = refl
    untouched (s ∷ rows) = ap (λ (r : List Settings). s ∷ r) (untouched rows)
settings_after fails (o ∷ orgs) db =
    settings_after fails orgs (if fails o.organization_id then db else revert o db)
    ∙ (ap (modify (swept fails orgs) reverted) (pushed (fails o.organization_id))
        ∙ merge_updates fails o orgs db.settings)
  where
    pushed :
        (b : Bool)
        → (if b then db else revert o db).settings ≡ (
            if b
            then db.settings
            else modify (of_organization o.organization_id) reverted db.settings)
    pushed true = refl
    pushed false = refl

events_after :
    (fails : Key → Bool) (orgs : List Settings) (db : Db)
    → (revert_all fails orgs db).events
      ≡ db.events ++ map expired_event (keep (λ (o : Settings). not (fails o.organization_id)) orgs)
unfolding revert_all revert
events_after fails [] db = sym (append-nil db.events)
events_after fails (o ∷ orgs) db =
    events_after fails orgs (if fails o.organization_id then db else revert o db)
    ∙ pushed (fails o.organization_id)
  where
    pushed :
        (b : Bool)
        → (if b then db else revert o db).events
            ++ map expired_event (keep (λ (o : Settings). not (fails o.organization_id)) orgs)
          ≡ db.events
            ++ map expired_event (
                if not b
                then o ∷ keep (λ (o : Settings). not (fails o.organization_id)) orgs
                else keep (λ (o : Settings). not (fails o.organization_id)) orgs)
    pushed true = refl
    pushed false = append_assoc db.events (expired_event o ∷ []) _

swept_lem :
    (fails : Key → Bool) (now : ℕ) (all : List Settings) (s : Settings)
    → UniqueKeys organization_of all
    → Has s all
    → swept fails (keep (has_expired now) all) s
      ≡ (has_expired now s && not (fails s.organization_id))
swept_lem fails now all s u m =
    elim (Bool-cases (has_expired now s && not (fails s.organization_id))) [
      | inl e ↦
          Has-any named (keep (has_expired now) all) s
            (Has-keep_of (has_expired now) all s m (ground arith)) (ground arith)
          ∙ sym e
      | inr e ↦ elim (Bool-cases (swept fails (keep (has_expired now) all) s)) [
        | inl t ↦ absurd (no_other e (any-Has named (keep (has_expired now) all) t))
        | inr t ↦ t ∙ sym e
      ]
    ]
  where
    named : Settings → Bool
    named o = not (fails o.organization_id) && (s.organization_id == o.organization_id)

    no_other :
        (has_expired now s && not (fails s.organization_id)) ≡ false
        → (o : Settings) × Has o (keep (has_expired now) all) × (named o ≡ true)
        → ⊥
    no_other e (o, n, t) =
        let (k, x) = Has-keep (has_expired now) all o n in
        let same : o ≡ s = unique_key organization_of all o s u k m (ground arith) in
        let y : has_expired now s ≡ true =
          subst (λ (z : Settings). has_expired now z ≡ true) same x in
        let w : named s ≡ true = subst (λ (z : Settings). named z ≡ true) same t in
        absurd (ground arith)

-- With one row for each organization, the sweep reverts exactly the rows whose complimentary plan
-- has expired and whose transaction does not fail, leaves every other row as it was, and records
-- one event for each row it reverts, with the plan from before, in the order of the rows.
pub sweep_effect :
    (fails : Key → Bool) (now : ℕ) (db : Db)
    → UniqueKeys organization_of db.settings
    → ((run_plan_expiry_sweep fails now db).settings
        ≡ modify
            (λ (s : Settings). has_expired now s && not (fails s.organization_id))
            reverted
            db.settings)
      × ((run_plan_expiry_sweep fails now db).events
          ≡ db.events
            ++ map expired_event (
                keep
                  (λ (s : Settings). not (fails s.organization_id))
                  (keep (has_expired now) db.settings)))
unfolding run_plan_expiry_sweep
sweep_effect fails now db u = (
  settings_after fails (keep (has_expired now) db.settings) db
      ∙ modify_ext (swept fails (keep (has_expired now) db.settings)) _ reverted db.settings
          (λ s m. swept_lem fails now db.settings s u m),
  events_after fails (keep (has_expired now) db.settings) db,
)
