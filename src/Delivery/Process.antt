-- ===== src/Delivery/Process.antt =====
-- apps/server/src/worker/index.ts, `markDestinationOutcome` to `processDelivery`. What a row
-- prepares (`buildContext`) and what the adapter answers come in as values.
use postbag.Common.{
  ℕ, ◌+◌, Bool, true, false, ◌&&◌, not, Option, none, some, [], ◌∷◌, ◌++◌, ◌==◌, leb, if◌then◌else◌,
  modify, find,
}
use postbag.Routing.Types.{Key}
use postbag.Delivery.Types.{
  sent, failed, dead, DeliveryResult, Delivery, DestinationType, webhook, Health, healthy, failing,
  Destination, RouteRow, EventType, delivery_sent, delivery_dead, destination_failing,
  destination_recovered, Db,
}
use postbag.Delivery.Backoff.{Fraction, defaults, next_attempt_at, max_attempts_for}

abbrev pub failing_threshold : ℕ
failing_threshold = 5

abbrev pub is_failing : Health → Bool
is_failing failing = true
is_failing _ = false

abbrev pub is_webhook : DestinationType → Bool
is_webhook webhook = true
is_webhook _ = false

-- `eq(organizationId, …)` and `eq(id, …)`
abbrev pub is_destination : Key → Key → Destination → Bool
is_destination org id d = (d.organization_id == org) && (d.id == id)

abbrev pub is_delivery : Delivery → Delivery → Bool
is_delivery claimed d = (d.organization_id == claimed.organization_id) && (d.id == claimed.id)

unfoldable pub record_event : Key → EventType → Key → Db → Db
record_event org kind subject db = record db {
  events = db.events ++ (record { organization_id = org; kind = kind; subject = subject } ∷ []);
}

unfoldable pub set_destination : Key → Key → (Destination → Destination) → Db → Db
set_destination org id f db = record db {
  destinations = modify (is_destination org id) f db.destinations;
}

-- The outcome at one destination: the row after it, and the event if there is one.
unfoldable pub outcome_row : Bool → Destination → Destination × Option EventType
outcome_row true d = (
  record d { consecutive_failures = 0; health = healthy },
  if is_failing d.health then some destination_recovered else none,
)
outcome_row false d =
    let failures = d.consecutive_failures + 1 in
    let now_failing = leb failing_threshold failures && not (is_failing d.health) in
    (
      record d {
        consecutive_failures = failures;
        health = if now_failing then failing else d.health;
      },
      if now_failing then some destination_failing else none,
    )

unfoldable pub record_some : Key → Key → Option EventType → Db → Db
record_some org id none db = db
record_some org id (some kind) db = record_event org kind id db

unfoldable pub mark_found : Key → Key → Bool → Option Destination → Db → Db
unfolding set_destination record_some
mark_found org id worked none db = db
mark_found org id worked (some d) db =
    let (row, event) = outcome_row worked d in
    record_some org id event (
      set_destination org id
        (λ e. record e { consecutive_failures = row.consecutive_failures; health = row.health }) db)

unfoldable pub mark_destination_outcome : Key → Key → Bool → Db → Db
unfolding mark_found
mark_destination_outcome org id worked db =
    mark_found org id worked (find (is_destination org id) db.destinations) db

unfoldable pub disable_destination : Key → Key → Db → Db
unfolding set_destination
disable_destination org id db =
    let db' = set_destination org id (λ d. record d { health = failing }) db in
    record db' {
      routes =
          modify (λ (r : RouteRow). (r.organization_id == org) && (r.destination_id == id))
            (λ r. record r { enabled = false }) db'.routes;
    }

unfoldable pub set_delivery : Delivery → (Delivery → Delivery) → Db → Db
set_delivery claimed f db = record db { deliveries = modify (is_delivery claimed) f db.deliveries }

-- A response of `undefined` leaves the column as it was.
abbrev pub keep_response : Option DeliveryResult → Option DeliveryResult → Option DeliveryResult
keep_response none old = old
keep_response (some r) old = some r

unfoldable pub sent_row : ℕ → DeliveryResult → Delivery → Delivery
sent_row now result d = record d {
  status = sent;
  sent_at = some now;
  last_response = some result;
  has_error = false;
}

unfoldable pub dead_row : Option DeliveryResult → Delivery → Delivery
dead_row result d = record d {
  status = dead;
  last_response = keep_response result d.last_response;
  has_error = true;
}

unfoldable pub failed_row : ℕ → Option DeliveryResult → Delivery → Delivery
failed_row next result d = record d {
  status = failed;
  next_attempt_at = some next;
  last_response = keep_response result d.last_response;
  has_error = true;
}

-- Give up after the last attempt, or wait for the next; `claimed` is the row as it was claimed.
unfoldable pub give_up_or_retry :
    ℕ → Fraction → Delivery → DestinationType → Option DeliveryResult → Db → Db
unfolding set_delivery
give_up_or_retry now random claimed kind result db =
    if leb (max_attempts_for kind) claimed.attempts
    then record_event claimed.organization_id delivery_dead claimed.id
        (set_delivery claimed (dead_row result) db)
    else set_delivery claimed
        (failed_row (next_attempt_at claimed.attempts now defaults random) result) db

unfoldable pub fail_delivery : ℕ → Fraction → Delivery → DestinationType → Db → Db
unfolding give_up_or_retry
fail_delivery now random claimed kind db = give_up_or_retry now random claimed kind none db

unfoldable pub is_gone : Option ℕ → Bool
is_gone none = false
is_gone (some code) = code == 410

-- What follows the answer of the adapter.
unfoldable pub settle : ℕ → Fraction → Delivery → DestinationType → DeliveryResult → Db → Db
unfolding set_delivery give_up_or_retry is_gone
settle now random claimed kind result db =
    let org = claimed.organization_id in
    if result.ok
    then mark_destination_outcome org claimed.destination_id true
        (record_event org delivery_sent claimed.id (set_delivery claimed (sent_row now result) db))
    else if is_webhook kind && is_gone result.status_code
    then record_event org delivery_dead claimed.id (
        set_delivery claimed (dead_row (some result))
          (disable_destination org claimed.destination_id db))
    else give_up_or_retry now random claimed kind (some result)
        (mark_destination_outcome org claimed.destination_id false db)

-- What the environment decides about one delivery: the preparation may throw (`none`) or find
-- the route gone (`some false`); the adapter answers, where a throw is an answer without code.
pub record Attempt : Type 0 where
  pub now : ℕ
  pub random : Fraction
  pub context : Option Bool
  pub result : DeliveryResult

abbrev pub prepared : Option Bool → Bool
prepared none = false
prepared (some b) = b

unfoldable pub deliver_to :
    (DestinationType → Bool) → Attempt → Delivery → Option Destination → Db → Db
deliver_to registry a claimed none db = fail_delivery a.now a.random claimed webhook db
deliver_to registry a claimed (some destination) db =
    if registry destination.kind && prepared a.context
    then settle a.now a.random claimed destination.kind a.result db
    else fail_delivery a.now a.random claimed destination.kind db

unfoldable pub process_delivery : (DestinationType → Bool) → Attempt → Delivery → Db → Db
unfolding deliver_to
process_delivery registry a claimed db =
    deliver_to registry a claimed
      (find (is_destination claimed.organization_id claimed.destination_id) db.destinations) db
