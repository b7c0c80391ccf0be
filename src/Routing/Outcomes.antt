-- ===== src/Routing/Outcomes.antt =====
-- What one planned delivery says: pending or skipped, the reason, and the digest period.
use postbag.Common.{
  ℕ, ◌≤◌, ◌<◌, ◌≡◌, refl, Bool, false, ◌&&◌, ◌||◌, not, Option, none, some, ◌↔◌, ◌⊎◌, inl, inr,
  List, [], ◌∷◌, arith, true, subst, sym, if◌then◌else◌, any, All, ◌==◌, Bool-cases, Text,
}
use postbag.Errors.{ok, >>=-ok}
use postbag.Routing.Types.{
  Key, SubmissionStatus, received, quarantined, spam, RoutingSubmission, FormStatus, active, paused,
  RoutingForm, RouteMode, instant, digest, RoutingRoute, Window, Quality, pending, skipped,
  SkipReason, form_paused, out_of_window, low_quality, DeliveryPlan, PlanDeliveriesInput,
}
use postbag.Routing.Digest.{Platform, digest_period_key}
use postbag.Routing.Plan
use postbag.Routing.Plan.{
  Candidate, base_plan, with_mode, with_reason, plan_route, plan_loop, plan_deliveries, candidates,
  skip_reason, outside_window, excludes_spam, excludes_quarantined, is_spam, is_quarantined,
}

-- The moment lies in the window, from its start on and before its end.
abbrev pub InWindow : ℕ → Option Window → Type 0
InWindow at none = Unit
InWindow at (some w) =
    ((from : ℕ) → w.from ≡ some from → from ≤ at)
    × ((until : ℕ) → w.until ≡ some until → at < until)

-- The route takes submissions of this quality. Without a setting it excludes both kinds.
abbrev pub Admits : Option Quality → SubmissionStatus → Type 0
Admits q received = Unit
Admits q spam = excludes_spam q ≡ false
Admits q quarantined = excludes_quarantined q ≡ false

abbrev pub Deliverable : RoutingSubmission → RoutingForm → RoutingRoute → Type 0
Deliverable s f r =
    (f.status ≡ active) × InWindow s.received_at r.window × Admits r.quality s.status

outside_window-false : (at : ℕ) (w : Option Window) → outside_window at w ≡ false → InWindow at w
unfolding outside_window
outside_window-false at none h = tt
outside_window-false at (some w) h = (λ from e. ground arith, λ until e. ground arith)

InWindow-outside : (at : ℕ) (w : Option Window) → InWindow at w → outside_window at w ≡ false
unfolding outside_window
InWindow-outside at none h = refl
InWindow-outside at (some w) h = sides w.from w.until h.0 h.1
  where
    sides :
        (from until : Option ℕ)
        → ((x : ℕ) → from ≡ some x → x ≤ at)
        → ((x : ℕ) → until ≡ some x → at < x)
        → (Plan.is_before at from || Plan.is_after at until) ≡ false
    sides none none a b = refl
    sides none (some u) a b = let k = b u refl in ground arith
    sides (some x) none a b = let k = a x refl in ground arith
    sides (some x) (some u) a b = let k = a x refl in let l = b u refl in ground arith

-- `Admits` as the test of the code.
low : Option Quality → SubmissionStatus → Bool
low q st = (is_spam st && excludes_spam q) || (is_quarantined st && excludes_quarantined q)

low-Admits : (q : Option Quality) (st : SubmissionStatus) → low q st ≡ false → Admits q st
unfolding low
low-Admits q received h = tt
low-Admits q spam h = ground arith
low-Admits q quarantined h = ground arith

Admits-low : (q : Option Quality) (st : SubmissionStatus) → Admits q st → low q st ≡ false
unfolding low
Admits-low q received h = refl
Admits-low q spam h = ground arith
Admits-low q quarantined h = ground arith

-- The reason by the three tests.
tests_of :
    (s : RoutingSubmission) (f : RoutingForm) (r : RoutingRoute)
    → skip_reason s f r ≡ none
    → (f.status ≡ active)
      × (outside_window s.received_at r.window ≡ false)
      × (low r.quality s.status ≡ false)
unfolding skip_reason low
tests_of s f r h = (ground arith, ground arith, ground arith)

of_tests :
    (s : RoutingSubmission) (f : RoutingForm) (r : RoutingRoute)
    → f.status ≡ active
    → outside_window s.received_at r.window ≡ false
    → low r.quality s.status ≡ false
    → skip_reason s f r ≡ none
unfolding skip_reason low
of_tests s f r a b c = ground arith

pub skip_reason-none :
    (s : RoutingSubmission) (f : RoutingForm) (r : RoutingRoute)
    → (skip_reason s f r ≡ none) ↔ Deliverable s f r
skip_reason-none s f r = (
  λ h.
      let t = tests_of s f r h in
      (t.0, outside_window-false s.received_at r.window t.1, low-Admits r.quality s.status t.2),
  λ d.
      of_tests s f r d.0 (InWindow-outside s.received_at r.window d.1)
        (Admits-low r.quality s.status d.2),
)

-- The mode leaves status and reason alone, and gives a key exactly to a digest.
with_mode_lem :
    (p : Platform) (at : ℕ) (plan d : DeliveryPlan) (m : Option RouteMode)
    → with_mode p at plan m ≡ ok d
    → (d.status ≡ plan.status) × (d.skip_reason ≡ plan.skip_reason)
with_mode_lem p at plan d none h = ground arith
with_mode_lem p at plan d (some instant) h = ground arith
with_mode_lem p at plan d (some (digest cron timezone)) h = ground arith

status_of :
    (p : Platform) (s : RoutingSubmission) (f : RoutingForm) (c : Candidate) (d : DeliveryPlan)
    (r : Option SkipReason)
    → with_reason p s.received_at c r ≡ ok d
    → ((d.status ≡ pending) ↔ (r ≡ none)) × (d.skip_reason ≡ r)
status_of p s f c d none h =
    let k = with_mode_lem p s.received_at (base_plan c) d c.route.mode h in
    ((λ _. refl, λ _. k.0), k.1)
status_of p s f c d (some r) h = ((λ e. ground arith, λ e. cc), ground arith)

-- Which reason a plan has: a paused form before anything else, then a moment outside the window, then
-- a quality that the route does not admit.
pub record Reasons (s : RoutingSubmission) (f : RoutingForm) (r : RoutingRoute)
    (o : Option SkipReason) : Type 0 where
  pub paused_form : (o ≡ some form_paused) ↔ (f.status ≡ paused)
  pub late_or_early :
      (o ≡ some out_of_window) ↔ ((f.status ≡ active) × (¬ InWindow s.received_at r.window))
  pub poor :
      (o ≡ some low_quality)
      ↔ ((f.status ≡ active) × InWindow s.received_at r.window × (¬ Admits r.quality s.status))

-- The three tests in their order, and what they mean.
by_tests : Bool → Bool → Bool → Option SkipReason
by_tests p w q =
    if p
    then some form_paused
    else if w
    then some out_of_window
    else if q
    then some low_quality
    else none

not_true : (b : Bool) {A : Type 0} → (A → b ≡ false) → b ≡ true → ¬ A
not_true b f t a = cc (f a)

true_of_not : (b : Bool) {A : Type 0} → (b ≡ false → A) → (¬ A) → b ≡ true
true_of_not true f n = refl
true_of_not false f n = absurd (n (f refl))

by_tests_lem :
    (p w q : Bool) {P V W Q : Type 0}
    → ((p ≡ true) ↔ P)
    → ((p ≡ false) ↔ V)
    → ((w ≡ false) ↔ W)
    → ((q ≡ false) ↔ Q)
    → ((by_tests p w q ≡ some form_paused) ↔ P)
      × ((by_tests p w q ≡ some out_of_window) ↔ (V × (¬ W)))
      × ((by_tests p w q ≡ some low_quality) ↔ (V × W × (¬ Q)))
unfolding by_tests
by_tests_lem true w q a b c d = (
  (λ h. a.0 refl, λ h. refl),
  (λ h. cc, λ h. let e = b.1 h.0 in cc),
  (λ h. cc, λ h. let e = b.1 h.0 in cc),
)
by_tests_lem false true q a b c d = (
  (λ h. cc, λ h. let e = a.1 h in cc),
  (λ h. (b.0 refl, not_true true c.1 refl), λ h. refl),
  (λ h. cc, λ h. let e = c.1 h.1 in cc),
)
by_tests_lem false false true a b c d = (
  (λ h. cc, λ h. let e = a.1 h in cc),
  (λ h. cc, λ h. absurd (h.1 (c.0 refl))),
  (λ h. (b.0 refl, c.0 refl, not_true true d.1 refl), λ h. refl),
)
by_tests_lem false false false a b c d = (
  (λ h. cc, λ h. let e = a.1 h in cc),
  (λ h. cc, λ h. absurd (h.1 (c.0 refl))),
  (λ h. cc, λ h. absurd (h.2 (d.0 refl))),
)

is_paused_lem :
    (st : FormStatus)
    → ((Plan.is_paused st ≡ true) ↔ (st ≡ paused)) × ((Plan.is_paused st ≡ false) ↔ (st ≡ active))
is_paused_lem active = ((λ h. cc, λ h. cc), (λ h. refl, λ h. refl))
is_paused_lem paused = ((λ h. refl, λ h. refl), (λ h. cc, λ h. cc))

skip_reason-Reasons :
    (s : RoutingSubmission) (f : RoutingForm) (r : RoutingRoute) → Reasons s f r (skip_reason s f r)
unfolding skip_reason by_tests low
skip_reason-Reasons s f r =
    let st = is_paused_lem f.status in
    let (a, b, c) =
      by_tests_lem (Plan.is_paused f.status) (outside_window s.received_at r.window)
        (low r.quality s.status) st.0 st.1
        (outside_window-false s.received_at r.window, InWindow-outside s.received_at r.window)
        (low-Admits r.quality s.status, Admits-low r.quality s.status) in
    record { paused_form = a; late_or_early = b; poor = c }

-- A plan is pending exactly where the submission may be delivered by the route: the form is
-- active, the moment lies in the window and the quality is admitted. A plan is skipped as
-- `form_paused` exactly where the form is paused, as `out_of_window` exactly where it is active and the
-- moment lies outside the window, and as `low_quality` exactly where it is active, the moment lies in the
-- window and the route does not admit the quality.
pub plan_route-pending :
    (p : Platform) (s : RoutingSubmission) (f : RoutingForm) (c : Candidate) (d : DeliveryPlan)
    → plan_route p s f c ≡ ok d
    → ((d.status ≡ pending) ↔ Deliverable s f c.route) × Reasons s f c.route d.skip_reason
unfolding plan_route
plan_route-pending p s f c d h =
    let (a, b) = status_of p s f c d (skip_reason s f c.route) h in
    let k = skip_reason-none s f c.route in
    (
      (λ t. k.0 (a.0 t), λ t. a.1 (k.1 t)),
      subst (Reasons s f c.route) (sym b) (skip_reason-Reasons s f c.route),
    )

key_of :
    (p : Platform) (s : RoutingSubmission) (c : Candidate) (d : DeliveryPlan) (m : Option RouteMode)
    (cron timezone : Text)
    → m ≡ some (digest cron timezone)
    → with_mode p s.received_at (base_plan c) m ≡ ok d
    → (key : Text) × (digest_period_key p cron timezone s.received_at ≡ ok key)
      × (d.digest_period_key ≡ some key)
key_of p s c d m cron timezone e h =
    let (key, hk, hd) = >>=-ok (digest_period_key p cron timezone s.received_at) _ (rw e at h) in
    (key, hk, ground arith)

-- A pending delivery of a digest route carries the period of its moment under the route's cron.
pub plan_route-digest_period_key :
    (p : Platform) (s : RoutingSubmission) (f : RoutingForm) (c : Candidate) (d : DeliveryPlan)
    (cron timezone : Text)
    → c.route.mode ≡ some (digest cron timezone)
    → plan_route p s f c ≡ ok d
    → d.status ≡ pending
    → (key : Text) × (digest_period_key p cron timezone s.received_at ≡ ok key)
      × (d.digest_period_key ≡ some key)
unfolding plan_route
plan_route-digest_period_key p s f c d cron timezone m h t =
    key_of p s c d c.route.mode cron timezone m
      (rw ((status_of p s f c d (skip_reason s f c.route) h).0.0 t) at h)

abbrev pub NoDigest : Candidate → Type 0
NoDigest c = (c.route.mode ≡ none) ⊎ (c.route.mode ≡ some instant)

plan_route_total :
    (p : Platform) (s : RoutingSubmission) (f : RoutingForm) (c : Candidate)
    → NoDigest c
    → (d : DeliveryPlan) × (plan_route p s f c ≡ ok d)
unfolding plan_route
plan_route_total p s f c h = reason (skip_reason s f c.route)
  where
    mode :
        NoDigest c
        → (d : DeliveryPlan) × (with_mode p s.received_at (base_plan c) c.route.mode ≡ ok d)
    mode (inl e) = (base_plan c, rw e)
    mode (inr e) = (base_plan c, rw e)

    reason : (r : Option SkipReason) → (d : DeliveryPlan) × (with_reason p s.received_at c r ≡ ok d)
    reason none = mode h
    reason (some r) = (record (base_plan c) { status = skipped; skip_reason = some r }, refl)

plan_loop_total :
    (p : Platform) (s : RoutingSubmission) (f : RoutingForm) (planned : List Key)
    (cs : List Candidate)
    → All NoDigest cs
    → (ds : List DeliveryPlan) × (plan_loop p s f planned cs ≡ ok ds)
unfolding plan_loop
plan_loop_total p s f planned [] h = ([], refl)
plan_loop_total p s f planned (c ∷ cs) h =
    elim (Bool-cases (not c.route.enabled || any (λ k. k == c.route.id) planned)) [
      | inl e ↦ rw e (plan_loop_total p s f planned cs h.1)
      | inr e ↦
          let (d, hd) = plan_route_total p s f c h.0 in
          let (ds, hs) = plan_loop_total p s f (c.route.id ∷ planned) cs h.1 in
          (d ∷ ds, rw e (rw (hd, hs)))
    ]

-- Planning fails only by a digest: where no candidate has a digest mode there is a plan.
pub plan_deliveries_total :
    (p : Platform) (input : PlanDeliveriesInput)
    → All NoDigest (candidates input)
    → (ds : List DeliveryPlan) × (plan_deliveries p input ≡ ok ds)
unfolding plan_deliveries
plan_deliveries_total p input h =
    plan_loop_total p input.submission input.form [] (candidates input) h
