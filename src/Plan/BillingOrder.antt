-- ===== src/Plan/BillingOrder.antt =====
-- Webhooks may arrive in any order, and never take a complimentary plan away.
use native.Mathlib.Nat.{le_refl}
use postbag.Common.{
  ℕ, ◌≤◌, ◌<◌, ◌≡◌, refl, sym, ap, ◌∙◌, Bool, true, false, ◌&&◌, ◌||◌, not, Option, none, some, ◌≢◌,
  ltb, if◌then◌else◌, arith, inl, inr, Bool-cases, is_none,
}
use postbag.Errors.{Result, ok, err, throw_if, internal_error, ◌>>◌}
use postbag.Plan.Types.{complimentary, Settings}
use postbag.Plan.Billing.{
  Products, Webhook, plan_for_product, is_revoked, is_stale, next_plan, next_source, with_webhook,
  apply_webhook,
}

-- The row after a webhook, where an error leaves it as it was.
abbrev pub settle_or_keep : Settings → Result Settings → Settings
settle_or_keep s (ok t) = t
settle_or_keep s (err e) = s

abbrev pub absorb : Products → Settings → Webhook → Settings
absorb env s w = settle_or_keep s (apply_webhook env w s)

-- Whether the webhook can be applied at all.
abbrev known : Products → Webhook → Bool
known env w = is_revoked w.kind || not (is_none (plan_for_product env w.product_id))

by_tests :
    (stale revoked_ unknown : Bool) (s t : Settings)
    → settle_or_keep s
        (if stale then ok s else (throw_if (not revoked_ && unknown) internal_error >> ok t))
      ≡ (if stale || not (revoked_ || not unknown) then s else t)
by_tests true r u s t = refl
by_tests false true u s t = refl
by_tests false false true s t = refl
by_tests false false false s t = refl

absorb_lem :
    (env : Products) (s : Settings) (w : Webhook)
    → absorb env s w ≡ (
        if is_stale s.billing_provider_event_at w.timestamp || not (known env w)
        then s
        else with_webhook env w s)
unfolding apply_webhook
absorb_lem env s w =
    by_tests (is_stale s.billing_provider_event_at w.timestamp) (is_revoked w.kind)
      (is_none (plan_for_product env w.product_id)) s (with_webhook env w s)

module _ (env : Products) (v w : Webhook) (s : Settings) where
  same_next_plan : next_plan env w (with_webhook env v s) ≡ next_plan env w s
  unfolding next_plan next_source
  same_next_plan = ground arith

  same_next_source : next_source w (with_webhook env v s) ≡ next_source w s
  unfolding next_source
  same_next_source = ground arith

  -- A later webhook hides an earlier one.
  later_hides : with_webhook env w (with_webhook env v s) ≡ with_webhook env w s
  later_hides = λ i. record s {
    plan = same_next_plan i;
    plan_source = same_next_source i;
    billing_customer_id = some w.customer_id;
    billing_subscription_id = some w.subscription_id;
    billing_subscription_status = some w.status;
    billing_current_period_end = some w.current_period_end;
    billing_cancel_at_period_end = w.cancel_at_period_end;
    billing_provider_event_at = some w.timestamp;
  }

abbrev skips : Products → Settings → Webhook → Bool
skips env s w = is_stale s.billing_provider_event_at w.timestamp || not (known env w)

skipped : (env : Products) (s : Settings) (w : Webhook) → skips env s w ≡ true → absorb env s w ≡ s
skipped env s w h = absorb_lem env s w ∙ ap (λ (b : Bool). if b then s else with_webhook env w s) h

taken :
    (env : Products) (s : Settings) (w : Webhook)
    → skips env s w ≡ false
    → absorb env s w ≡ with_webhook env w s
taken env s w h = absorb_lem env s w ∙ ap (λ (b : Bool). if b then s else with_webhook env w s) h

module _ (env : Products) (s : Settings) (v w : Webhook) (order : v.timestamp < w.timestamp) where
  -- `v` does nothing after `w` has been applied.
  too_late : absorb env (with_webhook env w s) v ≡ with_webhook env w s
  too_late = skipped env (with_webhook env w s) v (ground arith)

  earlier_skipped :
      skips env s v ≡ true → absorb env (absorb env s v) w ≡ absorb env (absorb env s w) v
  earlier_skipped h =
      ap (λ (z : Settings). absorb env z w) (skipped env s v h)
      ∙ sym (elim (Bool-cases (skips env s w)) [
        | inl e ↦
            ap (λ (z : Settings). absorb env z v) (skipped env s w e)
            ∙ (skipped env s v h ∙ sym (skipped env s w e))
        | inr e ↦
            ap (λ (z : Settings). absorb env z v) (taken env s w e)
            ∙ (too_late ∙ sym (taken env s w e))
      ])

  earlier_taken :
      skips env s v ≡ false → absorb env (absorb env s v) w ≡ absorb env (absorb env s w) v
  earlier_taken h =
      ap (λ (z : Settings). absorb env z w) (taken env s v h) ∙ (elim (Bool-cases (known env w)) [
        | inl e ↦
            let fresh : skips env s w ≡ false = ground arith in
            (taken env (with_webhook env v s) w (ground arith) ∙ later_hides env v w s)
            ∙ sym (ap (λ (z : Settings). absorb env z v) (taken env s w fresh) ∙ too_late)
        | inr e ↦
            skipped env (with_webhook env v s) w (ground arith)
            ∙ sym (
                ap (λ (z : Settings). absorb env z v) (skipped env s w (ground arith))
                ∙ taken env s v h)
      ])

-- Two webhooks with different timestamps leave an organization in the same state in whichever
-- order they are processed, also where one of them fails and is undone.
pub absorb_comm :
    (env : Products) (s : Settings) (v w : Webhook)
    → v.timestamp ≢ w.timestamp
    → absorb env (absorb env s v) w ≡ absorb env (absorb env s w) v
absorb_comm env s v w ne = elim (Bool-cases (ltb v.timestamp w.timestamp)) [
  | inl e ↦ ordered v w (ground arith)
  | inr e ↦ sym (ordered w v (ground arith))
]
  where
    ordered :
        (x y : Webhook)
        → x.timestamp < y.timestamp
        → absorb env (absorb env s x) y ≡ absorb env (absorb env s y) x
    ordered x y h = elim (Bool-cases (skips env s x)) [
      | inl e ↦ earlier_skipped env s x y h e
      | inr e ↦ earlier_taken env s x y h e
    ]

-- The moment that is recorded.
abbrev pub recorded : Option ℕ → ℕ
recorded none = 0
recorded (some t) = t

fresh_after : (o : Option ℕ) (t : ℕ) → is_stale o t ≡ false → recorded o ≤ t
fresh_after none t h = omega arith
fresh_after (some r) t h = ground arith

-- A webhook never changes the plan or the source of an organization with complimentary access,
-- and the recorded moment of the provider's events never goes back.
pub absorb_keeps :
    (env : Products) (s : Settings) (w : Webhook)
    → (s.plan_source ≡ complimentary
        → ((absorb env s w).plan ≡ s.plan) × ((absorb env s w).plan_source ≡ complimentary))
      × (recorded s.billing_provider_event_at ≤ recorded (absorb env s w).billing_provider_event_at)
absorb_keeps env s w = elim (Bool-cases (skips env s w)) [
  | inl e ↦ rw (skipped env s w e) (λ h. (refl, h), le_refl _)
  | inr e ↦ rw (taken env s w e) (kept, onward e)
]
  where
    kept :
        s.plan_source ≡ complimentary
        → (next_plan env w s ≡ s.plan) × (next_source w s ≡ complimentary)
    kept h = unfold next_plan next_source in (ground arith, ground arith)

    onward : skips env s w ≡ false → recorded s.billing_provider_event_at ≤ w.timestamp
    onward e = fresh_after s.billing_provider_event_at w.timestamp (ground arith)
