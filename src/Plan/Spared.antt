-- ===== src/Plan/Spared.antt =====
-- A processed billing event is left alone by every sweep.
use postbag.Common.{
  ℕ, ◌≡◌, refl, sym, ap, subst, Bool, true, false, ◌&&◌, Option, none, some, List, [], ◌∷◌, ◌==◌,
  leb, arith, ◌⊎◌, inl, inr, Bool-cases, find, Has, find-Has, UniqueKeys, UniqueKeys-modify,
  unique_key, Has-unmodified,
}
use postbag.Errors.{Result, ok, err}
use postbag.Routing.Types.{Key}
use postbag.Plan.Types.{Db}
use postbag.Plan.Billing.{Products}
use postbag.Plan.BillingQueue.{
  processed, BillingEvent, Store, is_waiting, is_processing, has_event_id, applied, is_claimable,
  try_candidate, try_all, release, due_events, release_expired, run_billing_event_sweep,
}
use postbag.Plan.Retries.{event_id, tried, try_candidate_lem, unclaimed}

module _ (env : Products) (failed_at : Key → ℕ) (now : ℕ) where
  -- An event that does not wait is left alone by every attempt.
  attempted_spares :
      (k : Key) (s : Store) (x e : BillingEvent) (r : Result Db)
      → (e.id == k) ≡ false
      → UniqueKeys event_id s.queue
      → Has e s.queue
      → UniqueKeys event_id (tried now (failed_at k) k x s r).queue
        × Has e (tried now (failed_at k) k x s r).queue
  attempted_spares k s x e (ok db) ne u m = (
    UniqueKeys-modify event_id (has_event_id k) _ (λ a. refl) s.queue u,
    Has-unmodified (has_event_id k) _ s.queue e m ne,
  )
  attempted_spares k s x e (err c) ne u m = (
    UniqueKeys-modify event_id (has_event_id k) _ (λ a. refl) s.queue u,
    Has-unmodified (has_event_id k) _ s.queue e m ne,
  )

  Option-events : (o : Option BillingEvent) → ((x : BillingEvent) × (o ≡ some x)) ⊎ (o ≡ none)
  Option-events none = inr refl
  Option-events (some x) = inl (x, refl)

  candidate_spares :
      (k : Key) (s : Store) (e : BillingEvent)
      → is_waiting e.status ≡ false
      → UniqueKeys event_id s.queue
      → Has e s.queue
      → UniqueKeys event_id (try_candidate env failed_at now k s).queue
        × Has e (try_candidate env failed_at now k s).queue
  candidate_spares k s e w u m = elim (Option-events (find (is_claimable k) s.queue)) [
    | inr n ↦
        subst (λ (t : Store). UniqueKeys event_id t.queue × Has e t.queue)
          (sym (unclaimed env failed_at now k s n)) (u, m)
    | inl (x, f) ↦
        subst (λ (t : Store). UniqueKeys event_id t.queue × Has e t.queue)
          (sym (try_candidate_lem env failed_at now k s x u f))
          (attempted_spares k s x e (applied env x s.db) (other x f) u m)
  ]
    where
      other : (x : BillingEvent) → find (is_claimable k) s.queue ≡ some x → (e.id == k) ≡ false
      other x f = elim (Bool-cases (e.id == k)) [
        | inr g ↦ g
        | inl g ↦
            let (n, c) = find-Has (is_claimable k) s.queue x f in
            let same : x ≡ e = unique_key event_id s.queue x e u n m (ground arith) in
            let d : is_claimable k e ≡ true =
              subst (λ (z : BillingEvent). is_claimable k z ≡ true) same c in
            absurd (ground arith)
      ]

  all_spare :
      (es : List BillingEvent) (s : Store) (e : BillingEvent)
      → is_waiting e.status ≡ false
      → UniqueKeys event_id s.queue
      → Has e s.queue
      → UniqueKeys event_id (try_all env failed_at now es s).queue
        × Has e (try_all env failed_at now es s).queue
  unfolding try_all
  all_spare [] s e w u m = (u, m)
  all_spare (x ∷ es) s e w u m =
      let (v, n) = candidate_spares x.id s e w u m in
      all_spare es (try_candidate env failed_at now x.id s) e w v n

  -- A sweep leaves every processed event as it is, so that none is processed again, and keeps the
  -- identifiers of events apart.
  pub sweep_spares :
      (s : Store) (e : BillingEvent)
      → e.status ≡ processed
      → UniqueKeys event_id s.queue
      → Has e s.queue
      → UniqueKeys event_id (run_billing_event_sweep env failed_at now s).queue
        × Has e (run_billing_event_sweep env failed_at now s).queue
  unfolding run_billing_event_sweep
  sweep_spares s e h u m =
      let lapsed : BillingEvent → Bool =
        λ (x : BillingEvent). is_processing x.status && leb x.next_attempt_at now in
      all_spare (due_events now (release_expired now s).queue) (release_expired now s) e
        (ap is_waiting h) (UniqueKeys-modify event_id lapsed release (λ a. refl) s.queue u)
        (Has-unmodified lapsed release s.queue e m (ground (arith, h)))
