-- ===== src/Delivery/Runs.antt =====
-- Claims, new rows and manual retries keep the rows sound too, and so does every run.
use postbag.Common.{
  ℕ, ◌≡◌, refl, sym, ap, subst, ◌∙◌, Bool, true, false, ◌&&◌, List, ◌∷◌, ◌==◌, keep, arith, inl,
  inr, Has, All-Has, Has-keep, Has-any, Has-modify, Has-append, ==_iff,
}
use postbag.Routing.Types.{Key}
use postbag.Delivery.Types.{Delivery, DestinationType}
use postbag.Delivery.Claim.{awaits, candidates, mark_sending, has_id, claim_rows, claim_deliveries}
use postbag.Delivery.Claiming.{UniqueIds, unique, chosen_due}
use postbag.Delivery.Exclusion.{is_due-awaits, claimed_sending}
use postbag.Delivery.Attempts.{
  retry_row, retry, World, claim_world, Step, claim, settle, enqueue, retry_by_hand, IsQuiet, RowOk,
  Flies, IsSound, UniqueIds-modify,
}
use postbag.Delivery.Bounded.{mark_sending-RowOk, mark_sending-id, settle-IsSound}

module _ (now : ℕ) (worker : Key) (locked : Key → Bool) (limit : ℕ) (rows : List Delivery)
    (u : UniqueIds rows) where
  abbrev chosen : List Delivery
  chosen = candidates now locked limit rows

  -- A row with a chosen identifier was awaiting.
  was_awaiting : (d : Delivery) → Has d rows → has_id chosen d.id ≡ true → awaits d.status ≡ true
  was_awaiting d m h = is_due-awaits now locked d (chosen_due now locked limit rows d u m h)

  claim_rows-RowOk :
      ((d : Delivery) → Has d rows → RowOk d)
      → (d : Delivery) → Has d (claim_rows now worker chosen rows)
      → RowOk d
  unfolding claim_rows
  claim_rows-RowOk o d m =
      let (x, n, k) =
        Has-modify (λ (z : Delivery). has_id chosen z.id) (mark_sending now worker) rows d m in
      elim k [
        | inl h ↦
            subst RowOk (sym h.1) (mark_sending-RowOk now worker x (o x n) (was_awaiting x n h.0))
        | inr h ↦ subst RowOk (sym h.1) (o x n)
      ]

  -- What was in flight before is not taken again.
  old_flights :
      (c : Delivery)
      → ((d : Delivery) → Has d rows → d.id ≡ c.id → Flies c d)
      → (d : Delivery) → Has d (claim_rows now worker chosen rows)
      → d.id ≡ c.id
      → Flies c d
  unfolding claim_rows
  old_flights c f d m q =
      let (x, n, k) =
        Has-modify (λ (z : Delivery). has_id chosen z.id) (mark_sending now worker) rows d m in
      elim k [
        | inl h ↦
            let i = ap (λ (z : Delivery). z.id) (sym h.1) ∙ q in
            absurd (cc ((f x n (sym (mark_sending-id now worker x) ∙ i)).0, was_awaiting x n h.0))
        | inr h ↦ subst (Flies c) (sym h.1) (f x n (ap (λ (z : Delivery). z.id) (sym h.1) ∙ q))
      ]

  after_ids : UniqueIds (claim_rows now worker chosen rows)
  unfolding claim_rows
  after_ids =
      UniqueIds-modify (λ (z : Delivery). has_id chosen z.id) (mark_sending now worker)
        (mark_sending-id now worker) rows u

  new_flights :
      (c d : Delivery)
      → Has c (keep (λ (z : Delivery). has_id chosen z.id) (claim_rows now worker chosen rows))
      → Has d (claim_rows now worker chosen rows)
      → d.id ≡ c.id
      → Flies c d
  new_flights c d k m q =
      let after = claim_rows now worker chosen rows in
      let (n, t) = Has-keep (λ (z : Delivery). has_id chosen z.id) after c k in
      let e = unique after d c after_ids m n q in
      let busy =
        All-Has (λ (z : Delivery). has_id chosen z.id ≡ true → awaits z.status ≡ false) after c
          (claimed_sending now worker chosen rows) n t in
      subst (Flies c) (sym e) (busy, refl)

claim-IsSound :
    (now : ℕ) (worker : Key) (locked : Key → Bool) (limit : ℕ) (w : World)
    → IsSound w
    → IsSound (claim_world now worker locked limit w)
unfolding claim_deliveries
claim-IsSound now worker locked limit w v =
    let rows = w.db.deliveries in
    record {
      ids = after_ids now worker locked limit rows v.ids;
      rows = claim_rows-RowOk now worker locked limit rows v.ids v.rows;
      flights = λ c d k m q. elim (Has-append w.in_flight _ c k) [
        | inl n ↦
            old_flights now worker locked limit rows v.ids c (λ x j r. v.flights c x n j r) d m q
        | inr n ↦ new_flights now worker locked limit rows v.ids c d n m q
      ];
    }

not_in :
    (ds : List Delivery) (k : Key) (c : Delivery) → has_id ds k ≡ false → Has c ds → c.id ≡ k → ⊥
not_in ds k c f m e = cc (Has-any (λ (z : Delivery). z.id == k) ds c m ((==_iff c.id k).1 e), f)

enqueue-IsSound :
    (d : Delivery) (w : World)
    → has_id w.db.deliveries d.id ≡ false
    → has_id w.in_flight d.id ≡ false
    → d.attempts ≡ 0
    → IsSound w
    → IsSound (record w { db = record (w.db) { deliveries = d ∷ w.db.deliveries } })
enqueue-IsSound d w fresh idle none_yet v = record {
  ids = (fresh, v.ids);
  rows = rows;
  flights = flights;
}
  where
    rows : (e : Delivery) → Has e (d ∷ w.db.deliveries) → RowOk e
    rows e (inl q) = subst RowOk q (λ _. omega arith, omega arith)
    rows e (inr m) = v.rows e m

    flights :
        (c e : Delivery) → Has c w.in_flight → Has e (d ∷ w.db.deliveries) → e.id ≡ c.id → Flies c e
    flights c e k (inl q) i =
        absurd (not_in w.in_flight d.id c idle k (sym i ∙ ap (λ (z : Delivery). z.id) (sym q)))
    flights c e k (inr m) i = v.flights c e k m i

retry-IsSound :
    (now : ℕ) (org id : Key) (w : World)
    → has_id w.in_flight id ≡ false
    → IsSound w
    → IsSound (record w { db = retry now org id w.db })
unfolding retry
retry-IsSound now org id w idle v = record {
  ids =
      UniqueIds-modify (λ (d : Delivery). (d.organization_id == org) && (d.id == id))
        (retry_row now) (λ d. refl) w.db.deliveries v.ids;
  rows = λ d m.
      let (x, n, k) =
        Has-modify (λ (d : Delivery). (d.organization_id == org) && (d.id == id)) (retry_row now)
          w.db.deliveries d m in
      elim k [
        | inl h ↦ subst RowOk (sym h.1) (λ _. omega arith, omega arith)
        | inr h ↦ subst RowOk (sym h.1) (v.rows x n)
      ];
  flights = λ c d j m q.
      let (x, n, k) =
        Has-modify (λ (d : Delivery). (d.organization_id == org) && (d.id == id)) (retry_row now)
          w.db.deliveries d m in
      elim k [
        | inl h ↦ absurd (
            not_in w.in_flight id c idle j
              (sym (ap (λ (z : Delivery). z.id) (sym h.1) ∙ q) ∙ matched x h.0))
        | inr h ↦
            subst (Flies c) (sym h.1)
              (v.flights c x j n (ap (λ (z : Delivery). z.id) (sym h.1) ∙ q))
      ];
}
  where
    matched : (x : Delivery) → ((x.organization_id == org) && (x.id == id)) ≡ true → x.id ≡ id
    matched x h = ground arith

-- Every step keeps the rows sound: a claim by any worker, a settled delivery whatever its
-- outcome, a new row, and a retry by hand of a row that is not in flight.
pub Step-IsSound :
    (registry : DestinationType → Bool) {w v : World} (st : Step registry w v)
    → IsQuiet st
    → IsSound w
    → IsSound v
Step-IsSound registry (claim now worker locked limit w) q s =
    claim-IsSound now worker locked limit w s
Step-IsSound registry (settle a c w m) q s = settle-IsSound registry a c w m s
Step-IsSound registry (enqueue d w f i z) q s = enqueue-IsSound d w f i z s
Step-IsSound registry (retry_by_hand now org id w) q s = retry-IsSound now org id w q s
