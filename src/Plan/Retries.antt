-- ===== src/Plan/Retries.antt =====
-- What the attempt of one billing event does.
use postbag.Common.{
  ℕ, ◌+◌, ◌*◌, ◌≡◌, refl, sym, ap, ◌∙◌, subst, true, false, Option, none, some, List, [], ◌∷◌, ◌==◌,
  arith, inl, inr, Bool-cases, find, modify, find-Has, find-modify, UniqueKeys, has_key, no_key,
  unique_key, modify_ext,
}
use postbag.Errors.{Result, ok, err}
use postbag.Routing.Types.{Key}
use postbag.Plan.Types.{Db}
use postbag.Plan.Billing.{Products}
use postbag.Plan.BillingQueue.{
  pending, processed, BillingEvent, Store, is_processing, has_event_id, applied, processed_by,
  process_row, process_one, retry_ms, claimed_event, settled, is_claimable, try_claimed,
  try_candidate,
}

abbrev pub event_id : BillingEvent → ℕ
event_id e = e.id

-- The attempt of an event that succeeds, and of one that fails.
abbrev pub tried : ℕ → ℕ → Key → BillingEvent → Store → Result Db → Store
tried now at k e s (ok db) = record {
  queue =
      modify (has_event_id k)
        (λ (x : BillingEvent). record x {
          status = processed;
          attempts = x.attempts + 1;
          next_attempt_at = now + 5 * 60000;
        })
        s.queue;
  db = db;
}
tried now at k e s (err c) = record s {
  queue =
      modify (has_event_id k)
        (λ (x : BillingEvent). record x {
          status = pending;
          attempts = x.attempts + 1;
          next_attempt_at = at + retry_ms (e.attempts + 1);
        })
        s.queue;
}

module _ (k : Key) where
  -- The one event that can be claimed is the one with the identifier.
  same_event :
      (queue : List BillingEvent) (e : BillingEvent)
      → UniqueKeys event_id queue
      → find (is_claimable k) queue ≡ some e
      → find (has_event_id k) queue ≡ some e
  same_event [] e u h = cc
  same_event (x ∷ queue) e u h = elim (Bool-cases (is_claimable k x)) [
    | inl c ↦ let f : x ≡ e = ground arith in rw (claimable_id x c) (ap some f)
    | inr c ↦
        let later : find (is_claimable k) queue ≡ some e = rw c at h in
        elim (Bool-cases (has_event_id k x)) [
          | inl g ↦ absurd (twice x g later u.0)
          | inr g ↦ rw g (same_event queue e u.1 later)
        ]
  ]
    where
      claimable_id : (x : BillingEvent) → is_claimable k x ≡ true → has_event_id k x ≡ true
      claimable_id x c = ground arith

      twice :
          (x : BillingEvent)
          → has_event_id k x ≡ true
          → find (is_claimable k) queue ≡ some e
          → has_key event_id queue x.id ≡ false
          → ⊥
      twice x g f n =
          let (m, c) = find-Has (is_claimable k) queue e f in
          no_key event_id queue x.id e n m (ground arith)

  claim_one :
      (queue : List BillingEvent) (e : BillingEvent) (f : BillingEvent → BillingEvent)
      → UniqueKeys event_id queue
      → find (is_claimable k) queue ≡ some e
      → modify (is_claimable k) f queue ≡ modify (has_event_id k) f queue
  claim_one queue e f u h = modify_ext (is_claimable k) (has_event_id k) f queue (λ x m.
      elim (Bool-cases (has_event_id k x)) [
        | inr g ↦ ground arith
        | inl g ↦
            let (n, c) = find-Has (is_claimable k) queue e h in
            let same : e ≡ x = unique_key event_id queue e x u n m (ground arith) in
            subst (λ (z : BillingEvent). is_claimable k z ≡ true) same c ∙ sym g
      ])

  modify-modify :
      (f g : BillingEvent → BillingEvent)
      → ((x : BillingEvent) → (f x).id ≡ x.id)
      → (queue : List BillingEvent)
      → modify (has_event_id k) g (modify (has_event_id k) f queue)
        ≡ modify (has_event_id k) (λ x. g (f x)) queue
  modify-modify f g h [] = refl
  modify-modify f g h (x ∷ queue) = elim (Bool-cases (has_event_id k x)) [
    | inl e ↦
        rw (e, ap (λ z. z == k) (h x) ∙ e)
          (ap (λ (r : List BillingEvent). g (f x) ∷ r) (modify-modify f g h queue))
    | inr e ↦ rw (e, e) (ap (λ (r : List BillingEvent). x ∷ r) (modify-modify f g h queue))
  ]

abbrev pub attempted : Products → (Key → ℕ) → ℕ → Key → Store → BillingEvent → Store
attempted env failed_at now k s e = tried now (failed_at k) k e s (applied env e s.db)

settled_lem :
    (now at : ℕ) (k : Key) (e : BillingEvent) (s : Store) (r : Result Db)
    → settled
        (processed_by r k
          (record s { queue = modify (has_event_id k) (claimed_event now) s.queue }))
        at
        (e.attempts + 1)
        k
        (record s { queue = modify (has_event_id k) (claimed_event now) s.queue })
      ≡ tried now at k e s r
settled_lem now at k e s (ok db) =
    ap (λ (q : List BillingEvent). record s { queue = q; db = db })
      (modify-modify k (claimed_event now) (λ (x : BillingEvent). record x { status = processed })
        (λ x. refl) s.queue)
settled_lem now at k e s (err c) =
    ap (λ (q : List BillingEvent). record s { queue = q })
      (modify-modify k (claimed_event now)
        (λ (x : BillingEvent). record x {
          status = pending;
          next_attempt_at = at + retry_ms (e.attempts + 1);
        })
        (λ x. refl) s.queue)

process_row_lem :
    (env : Products) (k : Key) (s : Store) (e : BillingEvent)
    → is_processing e.status ≡ true
    → process_row env k s (some e) ≡ processed_by (applied env e s.db) k s
process_row_lem env k s e h = rw h refl

-- The attempt of an event that waits: either it is processed, with its effect on the tables, or it
-- waits again until the delay of its attempts has passed since the failure, with the tables as they
-- were. Both count the attempt, and no other event is touched.
pub try_candidate_lem :
    (env : Products) (failed_at : Key → ℕ) (now : ℕ) (k : Key) (s : Store) (e : BillingEvent)
    → UniqueKeys event_id s.queue
    → find (is_claimable k) s.queue ≡ some e
    → try_candidate env failed_at now k s ≡ attempted env failed_at now k s e
unfolding try_candidate process_one
try_candidate_lem env failed_at now k s e u h =
    let queue = modify (has_event_id k) (claimed_event now) s.queue in
    let claimed : Store = record s { queue = queue } in
    let found =
      find-modify (has_event_id k) (claimed_event now) (λ x g. g) s.queue e
        (same_event k s.queue e u h) in
    ap (try_claimed env failed_at now k s) h
    ∙ (ap
          (λ (q : List BillingEvent).
            settled (process_row env k (record s { queue = q }) (find (has_event_id k) q))
              (failed_at k) (e.attempts + 1) k (record s { queue = q }))
          (claim_one k s.queue e (claimed_event now) u h)
        ∙ (ap
              (λ (o : Option BillingEvent).
                settled (process_row env k claimed o) (failed_at k) (e.attempts + 1) k claimed)
              found
            ∙ settled_lem now (failed_at k) k e s (applied env e s.db)))

pub unclaimed :
    (env : Products) (failed_at : Key → ℕ) (now : ℕ) (k : Key) (s : Store)
    → find (is_claimable k) s.queue ≡ none
    → try_candidate env failed_at now k s ≡ s
unfolding try_candidate
unclaimed env failed_at now k s h = ap (try_claimed env failed_at now k s) h
