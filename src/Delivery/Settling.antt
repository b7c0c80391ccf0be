-- ===== src/Delivery/Settling.antt =====
-- What processing does to the claimed row: sent, dead, or failed with a later attempt.
use postbag.Common.{
  ℕ, ◌<◌, ◌≤◌, ◌⊎◌, ==_iff, ◌≡◌, refl, Bool, true, false, ◌&&◌, Option, none, some, leb, modify,
  find, arith, inl, inr, Bool-cases, subst, sym, ap, ◌∙◌,
}
use postbag.Routing.Types.{Key}
use postbag.Delivery.Types.{
  DeliveryResult, Delivery, DestinationType, webhook, email, telegram, other, sent, dead, failed,
  Destination, EventType, Db,
}
use postbag.Delivery.Backoff.{defaults, next_attempt_at, max_attempts_for}
use postbag.Delivery.Process.{
  is_delivery, is_destination, record_event, outcome_row, mark_destination_outcome,
  disable_destination, sent_row, dead_row, failed_row, give_up_or_retry, fail_delivery, settle,
  Attempt, process_delivery, prepared, record_some, mark_found, set_destination, deliver_to,
  is_gone, is_webhook, keep_response,
}

-- Attempts are left below ten at a webhook, and below eight at any other destination.
abbrev pub AttemptsLeft : DestinationType → ℕ → Type 0
AttemptsLeft webhook n = n < 10
AttemptsLeft email n = n < 8
AttemptsLeft telegram n = n < 8
AttemptsLeft (other t) n = n < 8

-- The destination's type; one that is not found counts as a webhook.
abbrev pub kind_of : Option Destination → DestinationType
kind_of none = webhook
kind_of (some d) = d.kind

-- Whether there is a destination whose kind has an adapter, the preparation went well, and the answer is fine.
abbrev pub has_worked : (DestinationType → Bool) → Attempt → Option Destination → Bool
has_worked registry a none = false
has_worked registry a (some d) = registry d.kind && prepared a.context && a.result.ok

-- What is written as the last response: the answer, or what was there where there was none.
abbrev pub Response : Attempt → (Delivery → Option DeliveryResult) → Type 0
Response a r = (r ≡ (λ d. some a.result)) ⊎ (r ≡ (λ d. d.last_response))

-- How a claimed row is settled, column by column: sent after an answer that is fine, dead where no
-- attempt is left or the webhook answers 410, failed where attempts are left.
pub data Settled (a : Attempt) (kind : DestinationType) (worked : Bool) (claimed : Delivery)
    : (Delivery → Delivery) → Type 0 where
  sends :
      worked ≡ true
      → Settled a kind worked claimed (λ d. record d {
        status = sent;
        sent_at = some a.now;
        last_response = some a.result;
        has_error = false;
      })
  dies :
      (r : Delivery → Option DeliveryResult)
      → worked ≡ false
      → Response a r
      → (¬ AttemptsLeft kind claimed.attempts)
        ⊎ ((kind ≡ webhook) × (a.result.status_code ≡ some 410))
      → Settled a kind worked claimed
          (λ d. record d { status = dead; last_response = r d; has_error = true })
  fails :
      (next : ℕ) (r : Delivery → Option DeliveryResult)
      → worked ≡ false
      → Response a r
      → AttemptsLeft kind claimed.attempts
      → a.now ≤ next
      → Settled a kind worked claimed (λ d. record d {
        status = failed;
        next_attempt_at = some next;
        last_response = r d;
        has_error = true;
      })

abbrev pub SettlesTo : Attempt → DestinationType → Bool → Delivery → Db → Db → Type 0
SettlesTo a kind worked claimed db after =
    (g : Delivery → Delivery) × Settled a kind worked claimed g
    × (after.deliveries ≡ modify (is_delivery claimed) g db.deliveries)

max_attempts_for-AttemptsLeft :
    (kind : DestinationType) (n : ℕ) → leb (max_attempts_for kind) n ≡ false → AttemptsLeft kind n
unfolding max_attempts_for
max_attempts_for-AttemptsLeft webhook n h = ground arith
max_attempts_for-AttemptsLeft email n h = ground arith
max_attempts_for-AttemptsLeft telegram n h = ground arith
max_attempts_for-AttemptsLeft (other t) n h = ground arith

max_attempts_for-none_left :
    (kind : DestinationType) (n : ℕ) → leb (max_attempts_for kind) n ≡ true → ¬ AttemptsLeft kind n
unfolding max_attempts_for
max_attempts_for-none_left webhook n h l = ground arith
max_attempts_for-none_left email n h l = ground arith
max_attempts_for-none_left telegram n h l = ground arith
max_attempts_for-none_left (other t) n h l = ground arith

record_event-deliveries :
    (org : Key) (k : EventType) (s : Key) (db : Db)
    → (record_event org k s db).deliveries ≡ db.deliveries
unfolding record_event
record_event-deliveries org k s db = refl

record_some-deliveries :
    (org id : Key) (k : Option EventType) (db : Db)
    → (record_some org id k db).deliveries ≡ db.deliveries
unfolding record_some record_event
record_some-deliveries org id none db = refl
record_some-deliveries org id (some k) db = refl

mark_found-deliveries :
    (org id : Key) (worked : Bool) (d : Option Destination) (db : Db)
    → (mark_found org id worked d db).deliveries ≡ db.deliveries
unfolding mark_found set_destination
mark_found-deliveries org id worked none db = refl
mark_found-deliveries org id worked (some d) db =
    record_some-deliveries org id (outcome_row worked d).1 _

mark_destination_outcome-deliveries :
    (org id : Key) (worked : Bool) (db : Db)
    → (mark_destination_outcome org id worked db).deliveries ≡ db.deliveries
unfolding mark_destination_outcome
mark_destination_outcome-deliveries org id worked db =
    mark_found-deliveries org id worked (find (is_destination org id) db.destinations) db

disable_destination-deliveries :
    (org id : Key) (db : Db) → (disable_destination org id db).deliveries ≡ db.deliveries
unfolding disable_destination
disable_destination-deliveries org id db = refl

-- The answer that is written, or none.
written : Attempt → Bool → Option DeliveryResult
written a true = some a.result
written a false = none

written-Response :
    (a : Attempt) (b : Bool) → Response a (λ d. keep_response (written a b) d.last_response)
unfolding written
written-Response a true = inl refl
written-Response a false = inr refl

give_up_or_retry_lem :
    (a : Attempt) (c : Delivery) (kind : DestinationType) (b : Bool) (db : Db)
    → SettlesTo a kind false c db (give_up_or_retry a.now a.random c kind (written a b) db)
unfolding give_up_or_retry record_event dead_row failed_row next_attempt_at
give_up_or_retry_lem a c kind b db = elim (Bool-cases (leb (max_attempts_for kind) c.attempts)) [
  | inl e ↦ (
    dead_row (written a b),
    dies _ refl (written-Response a b) (inl (max_attempts_for-none_left kind c.attempts e)),
    rw e refl,
  )
  | inr e ↦ (
    failed_row (next_attempt_at c.attempts a.now defaults a.random) (written a b),
    fails _ _ refl (written-Response a b) (max_attempts_for-AttemptsLeft kind c.attempts e)
        (omega arith),
    rw e refl,
  )
]

gone_lem :
    (kind : DestinationType) (code : Option ℕ)
    → (is_webhook kind && is_gone code) ≡ true
    → (kind ≡ webhook) × (code ≡ some 410)
unfolding is_gone
gone_lem webhook none h = cc
gone_lem webhook (some n) h = (refl, ap some ((==_iff n 410).0 h))
gone_lem email code h = cc
gone_lem telegram code h = cc
gone_lem (other t) code h = cc

settle_lem :
    (a : Attempt) (c : Delivery) (kind : DestinationType) (db : Db)
    → SettlesTo a kind a.result.ok c db (settle a.now a.random c kind a.result db)
unfolding settle record_event disable_destination sent_row dead_row written
settle_lem a c kind db = elim (Bool-cases a.result.ok) [
  | inl e ↦ (
    sent_row a.now a.result,
    sends e,
    rw e (mark_destination_outcome-deliveries c.organization_id c.destination_id true _),
  )
  | inr e ↦ elim (Bool-cases (is_webhook kind && is_gone a.result.status_code)) [
    | inl f ↦
        let (w, g) = gone_lem kind a.result.status_code f in
        (dead_row (some a.result), dies _ e (inl refl) (inr (w, g)), rw (e, f) refl)
    | inr f ↦
        let db' = mark_destination_outcome c.organization_id c.destination_id false db in
        let (g, h, k) = give_up_or_retry_lem a c kind true db' in
        (
          g,
          subst (λ z. Settled a kind z c g) (sym e) h,
          simp (e, f)
              (k
                ∙ ap (modify (is_delivery c) g) (
                    mark_destination_outcome-deliveries c.organization_id c.destination_id false
                      db)),
        )
  ]
]

deliver_to_lem :
    (registry : DestinationType → Bool) (a : Attempt) (c : Delivery) (d : Option Destination)
    (db : Db)
    → SettlesTo a (kind_of d) (has_worked registry a d) c db (deliver_to registry a c d db)
unfolding deliver_to fail_delivery written
deliver_to_lem registry a c none db = give_up_or_retry_lem a c webhook false db
deliver_to_lem registry a c (some d) db =
    elim (Bool-cases (registry d.kind && prepared a.context)) [
      | inl e ↦ rw e (settle_lem a c d.kind db)
      | inr e ↦ rw e (give_up_or_retry_lem a c d.kind false db)
    ]

pub process_delivery_settles :
    (registry : DestinationType → Bool) (a : Attempt) (c : Delivery) (db : Db)
    → let destination = find (is_destination c.organization_id c.destination_id) db.destinations in
      SettlesTo a
        (kind_of destination)
        (has_worked registry a destination)
        c
        db
        (process_delivery registry a c db)
unfolding process_delivery
process_delivery_settles registry a c db =
    deliver_to_lem registry a c
      (find (is_destination c.organization_id c.destination_id) db.destinations) db
