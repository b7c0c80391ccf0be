-- ===== src/Delivery/Claim.antt =====
-- packages/db/src/deliveries.ts, `claimDeliveries`: one transaction that takes the due rows which
-- no other transaction has locked, oldest first, and marks them as being sent.
use postbag.Common.{
  ℕ, ◌+◌, Bool, true, false, ◌&&◌, ◌||◌, not, Option, none, some, List, [], ◌∷◌, ◌==◌, ltb, leb,
  if◌then◌else◌, keep, modify, take, min, max, get_or_else, any,
}
use postbag.Routing.Types.{Key}
use postbag.Delivery.Types.{DeliveryStatus, pending, sending, failed, Delivery, Db}

abbrev pub awaits : DeliveryStatus → Bool
awaits pending = true
awaits failed = true
awaits _ = false

-- `next_attempt_at <= now()`, which null is not
abbrev pub reached : ℕ → Option ℕ → Bool
reached now none = false
reached now (some t) = leb t now

unfoldable pub is_due : ℕ → (Key → Bool) → Delivery → Bool
is_due now locked d = awaits d.status && reached now d.next_attempt_at && not (locked d.id)

-- `order by next_attempt_at, created_at`
unfoldable pub comes_first : Delivery → Delivery → Bool
comes_first d e =
    let a = get_or_else d.next_attempt_at 0 in
    let b = get_or_else e.next_attempt_at 0 in
    ltb a b || ((a == b) && leb d.created_at e.created_at)

unfoldable pub insert_by : Delivery → List Delivery → List Delivery
insert_by d [] = d ∷ []
insert_by d (e ∷ es) = if comes_first d e then d ∷ e ∷ es else e ∷ insert_by d es

unfoldable pub sort_by : List Delivery → List Delivery
unfolding insert_by
sort_by [] = []
sort_by (d ∷ ds) = insert_by d (sort_by ds)

-- `Math.max(1, Math.min(500, limit))`
abbrev pub clamp_limit : ℕ → ℕ
clamp_limit limit = max 1 (min 500 limit)

unfoldable pub candidates : ℕ → (Key → Bool) → ℕ → List Delivery → List Delivery
candidates now locked limit rows =
    take (clamp_limit limit) (sort_by (keep (is_due now locked) rows))

unfoldable pub mark_sending : ℕ → Key → Delivery → Delivery
mark_sending now worker d = record d {
  status = sending;
  worker_id = some worker;
  claimed_at = some now;
  attempts = d.attempts + 1;
}

abbrev pub has_id : List Delivery → Key → Bool
has_id ds k = any (λ (e : Delivery). e.id == k) ds

-- The table after the update.
unfoldable pub claim_rows : ℕ → Key → List Delivery → List Delivery → List Delivery
claim_rows now worker chosen rows =
    modify (λ (d : Delivery). has_id chosen d.id) (mark_sending now worker) rows

-- The new state, and the rows that `returning` gives.
unfoldable pub claim_deliveries : ℕ → Key → (Key → Bool) → ℕ → Db → Db × List Delivery
unfolding candidates claim_rows
claim_deliveries now worker locked limit db =
    let chosen = candidates now locked limit db.deliveries in
    let rows = claim_rows now worker chosen db.deliveries in
    (record db { deliveries = rows }, keep (λ (d : Delivery). has_id chosen d.id) rows)
