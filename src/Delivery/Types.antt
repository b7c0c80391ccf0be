-- ===== src/Delivery/Types.antt =====
-- The rows that the worker reads and writes, with the columns that it uses: the tables of
-- packages/db/src/schema/deliveries.ts and destinations.ts, and of the routes and events.
use postbag.Common.{ℕ, Bool, Option, List}
use postbag.Routing.Types.{Key}

pub data DeliveryStatus : Type 0 where
  pending sending sent failed dead skipped : DeliveryStatus

-- `DeliveryResult`, as far as the worker looks at it; `ok?: boolean` is true or not.
pub record DeliveryResult : Type 0 where
  pub ok : Bool
  pub status_code : Option ℕ

pub record Delivery : Type 0 where
  pub id : Key
  pub organization_id : Key
  pub submission_id : Key
  pub route_id : Key
  pub destination_id : Key
  pub status : DeliveryStatus
  pub attempts : ℕ
  pub next_attempt_at : Option ℕ
  pub created_at : ℕ
  pub worker_id : Option Key
  pub claimed_at : Option ℕ
  pub sent_at : Option ℕ
  pub last_response : Option DeliveryResult
  pub has_error : Bool

-- A destination's type is any text in the table; the known ones have a constructor.
pub data DestinationType : Type 0 where
  webhook email telegram : DestinationType
  other : ℕ → DestinationType

pub data Health : Type 0 where
  unknown healthy failing : Health

pub record Destination : Type 0 where
  pub id : Key
  pub organization_id : Key
  pub kind : DestinationType
  pub health : Health
  pub consecutive_failures : ℕ

pub record RouteRow : Type 0 where
  pub id : Key
  pub organization_id : Key
  pub destination_id : Key
  pub enabled : Bool

pub data EventType : Type 0 where
  delivery_sent delivery_dead destination_failing destination_recovered : EventType

-- The subject is the delivery or the destination that the event is about.
pub record Event : Type 0 where
  pub organization_id : Key
  pub kind : EventType
  pub subject : Key

pub record Db : Type 0 where
  pub deliveries : List Delivery
  pub destinations : List Destination
  pub routes : List RouteRow
  pub events : List Event
