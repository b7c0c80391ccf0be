-- ===== src/Plan/BillingQueue.antt =====
-- apps/server/src/worker/billing.ts, `runBillingEventSweep` around `processOne`: stored webhooks are
-- claimed one after the other, under a lease, and tried again where they fail. `failed_at` is the
-- time at which the failure of an event is written.
use postbag.Common.{
  ℕ, ◌+◌, ◌*◌, ◌^◌, Bool, true, false, ◌&&◌, not, Option, none, some, List, [], ◌∷◌, ◌==◌, leb,
  if◌then◌else◌, min, keep, find, modify, take,
}
use postbag.Errors.{Result, ok, err, internal_error}
use postbag.Routing.Types.{Key}
use postbag.Plan.Types.{Db}
use postbag.Plan.Billing.{Products, Webhook, process_webhook}

pub data BillingEventStatus : Type 0 where
  pending processing processed : BillingEventStatus

-- A payload that does not parse is `none`.
pub record BillingEvent : Type 0 where
  pub id : Key
  pub organization_id : Key
  pub payload : Option Webhook
  pub status : BillingEventStatus
  pub attempts : ℕ
  pub next_attempt_at : ℕ
  pub created_at : ℕ

pub record Store : Type 0 where
  pub queue : List BillingEvent
  pub db : Db

abbrev pub is_waiting : BillingEventStatus → Bool
is_waiting pending = true
is_waiting _ = false

abbrev pub is_processing : BillingEventStatus → Bool
is_processing processing = true
is_processing _ = false

abbrev pub has_event_id : Key → BillingEvent → Bool
has_event_id k e = e.id == k

abbrev pub applied : Products → BillingEvent → Db → Result Db
applied env row db = elim row.payload [
  | none ↦ err internal_error
  | some w ↦ process_webhook env row.organization_id w db
]

abbrev pub mark_processed : Key → Db → Store → Store
mark_processed k db s = record {
  queue = modify (has_event_id k) (λ (e : BillingEvent). record e { status = processed }) s.queue;
  db = db;
}

abbrev pub processed_by : Result Db → Key → Store → Result Store
processed_by (err e) k s = err e
processed_by (ok db) k s = ok (mark_processed k db s)

-- `processOne`, once the row is read
abbrev pub process_row : Products → Key → Store → Option BillingEvent → Result Store
process_row env k s none = ok s
process_row env k s (some row) =
    if not (is_processing row.status) then ok s else processed_by (applied env row s.db) k s

unfoldable pub process_one : Products → Key → Store → Result Store
process_one env k s = process_row env k s (find (has_event_id k) s.queue)

-- `Math.min(60, 2 ** Math.min(attempts, 5))` minutes
abbrev pub retry_ms : ℕ → ℕ
retry_ms attempts = min 60 (2 ^ min attempts 5) * 60000

abbrev pub claimed_event : ℕ → BillingEvent → BillingEvent
claimed_event now e = record e {
  status = processing;
  attempts = e.attempts + 1;
  next_attempt_at = now + 5 * 60000;
}

abbrev pub put_back : ℕ → ℕ → Key → Store → Store
put_back at attempts k s = record s {
  queue =
      modify (has_event_id k)
        (λ (e : BillingEvent). record e {
          status = pending;
          next_attempt_at = at + retry_ms attempts;
        })
        s.queue;
}

abbrev pub settled : Result Store → ℕ → ℕ → Key → Store → Store
settled (ok t) at attempts k s = t
settled (err e) at attempts k s = put_back at attempts k s

abbrev pub is_claimable : Key → BillingEvent → Bool
is_claimable k e = (e.id == k) && is_waiting e.status

abbrev pub claim_event : ℕ → Key → Store → Store
claim_event now k s = record s { queue = modify (is_claimable k) (claimed_event now) s.queue }

-- One candidate: skipped where the update claims nothing.
abbrev pub try_claimed : Products → (Key → ℕ) → ℕ → Key → Store → Option BillingEvent → Store
try_claimed env failed_at now k s none = s
try_claimed env failed_at now k s (some row) =
    let claimed = claim_event now k s in
    settled (process_one env k claimed) (failed_at k) (row.attempts + 1) k claimed

unfoldable pub try_candidate : Products → (Key → ℕ) → ℕ → Key → Store → Store
try_candidate env failed_at now k s =
    try_claimed env failed_at now k s (find (is_claimable k) s.queue)

unfoldable pub try_all : Products → (Key → ℕ) → ℕ → List BillingEvent → Store → Store
try_all env failed_at now [] s = s
try_all env failed_at now (e ∷ es) s =
    try_all env failed_at now es (try_candidate env failed_at now e.id s)

abbrev pub insert_by_age : BillingEvent → List BillingEvent → List BillingEvent
insert_by_age e [] = e ∷ []
insert_by_age e (f ∷ fs) =
    if leb e.created_at f.created_at then e ∷ f ∷ fs else f ∷ insert_by_age e fs

abbrev pub sort_by_age : List BillingEvent → List BillingEvent
sort_by_age [] = []
sort_by_age (e ∷ es) = insert_by_age e (sort_by_age es)

abbrev pub release : BillingEvent → BillingEvent
release e = record e { status = pending }

-- Leases that ran out are given up first.
abbrev pub release_expired : ℕ → Store → Store
release_expired now s = record s {
  queue =
      modify (λ (e : BillingEvent). is_processing e.status && leb e.next_attempt_at now) release
        s.queue;
}

abbrev pub due_events : ℕ → List BillingEvent → List BillingEvent
due_events now queue = take 20 (
    sort_by_age
      (keep (λ (e : BillingEvent). is_waiting e.status && leb e.next_attempt_at now) queue))

unfoldable pub run_billing_event_sweep : Products → (Key → ℕ) → ℕ → Store → Store
run_billing_event_sweep env failed_at now s =
    let released = release_expired now s in
    try_all env failed_at now (due_events now released.queue) released
