-- ===== src/Delivery/Attempts.antt =====
-- The worker as a transition system: claims, settled deliveries, new rows and manual retries in
-- any order, with the claimed rows in flight. No row is attempted more than ten times in a row.
use postbag.Common.{
  ℕ, ◌≤◌, ◌<◌, ◌≡◌, refl, ap, ◌∙◌, Bool, true, false, ◌&&◌, not, some, List, [], ◌∷◌, ◌++◌, ◌==◌,
  if◌then◌else◌, modify, keep, arith, ◌⊎◌, inl, inr, Bool-cases, Has,
}
use postbag.Routing.Types.{Key}
use postbag.Delivery.Types.{pending, Delivery, DestinationType, Db}
use postbag.Delivery.Claim.{awaits, has_id, claim_deliveries}
use postbag.Delivery.Claiming.{UniqueIds}
use postbag.Delivery.Process.{Attempt, process_delivery}

-- `POST /v1/deliveries/{id}/retry`, the update of the row.
unfoldable pub retry_row : ℕ → Delivery → Delivery
retry_row now d = record d {
  status = pending;
  attempts = 0;
  next_attempt_at = some now;
  has_error = false;
}

unfoldable pub retry : ℕ → Key → Key → Db → Db
unfolding retry_row
retry now org id db = record db {
  deliveries =
      modify (λ (d : Delivery). (d.organization_id == org) && (d.id == id)) (retry_row now)
        db.deliveries;
}

pub record World : Type 0 where
  pub db : Db
  pub in_flight : List Delivery

abbrev pub claim_world : ℕ → Key → (Key → Bool) → ℕ → World → World
claim_world now worker locked limit w =
    let (db', taken) = claim_deliveries now worker locked limit w.db in
    record { db = db'; in_flight = w.in_flight ++ taken }

abbrev pub settle_world : (DestinationType → Bool) → Attempt → Delivery → World → World
settle_world registry a c w = record {
  db = process_delivery registry a c w.db;
  in_flight = keep (λ (d : Delivery). not (d.id == c.id)) w.in_flight;
}

-- New identifiers are fresh. A retry by hand asks nothing of the row.
pub data Step (registry : DestinationType → Bool) : World → World → Type 0 where
  claim :
      (now : ℕ) (worker : Key) (locked : Key → Bool) (limit : ℕ) (w : World)
      → Step registry w (claim_world now worker locked limit w)
  settle :
      (a : Attempt) (c : Delivery) (w : World)
      → Has c w.in_flight
      → Step registry w (settle_world registry a c w)
  enqueue :
      (d : Delivery) (w : World)
      → has_id w.db.deliveries d.id ≡ false
      → has_id w.in_flight d.id ≡ false
      → d.attempts ≡ 0
      → Step registry w (record w { db = record (w.db) { deliveries = d ∷ w.db.deliveries } })
  retry_by_hand :
      (now : ℕ) (org id : Key) (w : World)
      → Step registry w (record w { db = retry now org id w.db })

pub data Reach (registry : DestinationType → Bool) (w : World) : World → Type 0 where
  here : Reach registry w w
  next : {u v : World} → Reach registry w u → Step registry u v → Reach registry w v

-- A retry by hand of a row that is not in flight, and every other step.
abbrev pub IsQuiet : {registry : DestinationType → Bool} {w v : World} → Step registry w v → Type 0
IsQuiet (claim now worker locked limit w) = Unit {0}
IsQuiet (settle a c w m) = Unit {0}
IsQuiet (enqueue d w f i z) = Unit {0}
IsQuiet (retry_by_hand now org id w) = has_id w.in_flight id ≡ false

-- A run in which no row in flight is retried by hand.
abbrev pub QuietRun :
    {registry : DestinationType → Bool} {w v : World} → Reach registry w v → Type 0
QuietRun here = Unit {0}
QuietRun (next r st) = QuietRun r × IsQuiet st

abbrev pub RowOk : Delivery → Type 0
RowOk d = (awaits d.status ≡ true → d.attempts < 10) × (d.attempts ≤ 10)

-- A row in flight is being sent, with the attempts that it was claimed with.
abbrev pub Flies : Delivery → Delivery → Type 0
Flies c d = (awaits d.status ≡ false) × (d.attempts ≡ c.attempts)

pub record IsSound (w : World) : Type 0 where
  pub ids : UniqueIds w.db.deliveries
  pub rows : (d : Delivery) → Has d w.db.deliveries → RowOk d
  pub flights :
      (c d : Delivery) → Has c w.in_flight → Has d w.db.deliveries → d.id ≡ c.id → Flies c d

has_id-modify :
    (p : Delivery → Bool) (f : Delivery → Delivery)
    → ((d : Delivery) → (f d).id ≡ d.id)
    → (ds : List Delivery) (k : Key) → has_id (modify p f ds) k ≡ has_id ds k
has_id-modify p f h [] k = refl
has_id-modify p f h (d ∷ ds) k = ground (arith, h d, has_id-modify p f h ds k)

pub UniqueIds-modify :
    (p : Delivery → Bool) (f : Delivery → Delivery)
    → ((d : Delivery) → (f d).id ≡ d.id)
    → (ds : List Delivery) → UniqueIds ds
    → UniqueIds (modify p f ds)
UniqueIds-modify p f h [] u = tt
UniqueIds-modify p f h (d ∷ ds) u = (
  has_id-modify p f h ds _ ∙ ap (has_id ds) (same (Bool-cases (p d))) ∙ u.0,
  UniqueIds-modify p f h ds u.1,
)
  where
    same : ((p d ≡ true) ⊎ (p d ≡ false)) → (if p d then f d else d).id ≡ d.id
    same (inl e) = rw e (h d)
    same (inr e) = rw e
