-- ===== src/Delivery/Bounded.antt =====
-- Every step of the worker keeps the rows sound, so no row passes ten attempts.
use postbag.Common.{
  ℕ, ◌≡◌, refl, sym, ap, subst, ◌∙◌, Bool, true, false, not, List, ◌==◌, modify, arith, inl, inr,
  Has, Has-keep, Has-modify, ==_iff, ◌<◌,
}
use postbag.Routing.Types.{Key}
use postbag.Delivery.Types.{Delivery, DestinationType, webhook, email, telegram, other}
use postbag.Delivery.Claim.{awaits, mark_sending}
use postbag.Delivery.Process.{is_delivery, Attempt}
use postbag.Delivery.Settling.{AttemptsLeft, Settled, sends, dies, fails, process_delivery_settles}
use postbag.Delivery.Attempts.{World, settle_world, RowOk, Flies, IsSound, UniqueIds-modify}

-- Attempts that are left are below ten.
AttemptsLeft-lt : (kind : DestinationType) (n : ℕ) → AttemptsLeft kind n → n < 10
AttemptsLeft-lt webhook n h = h
AttemptsLeft-lt email n h = omega arith
AttemptsLeft-lt telegram n h = omega arith
AttemptsLeft-lt (other t) n h = omega arith

Settled-id :
    {a : Attempt} {kind : DestinationType} {worked : Bool} (c d : Delivery)
    (g : Delivery → Delivery)
    → Settled a kind worked c g
    → (g d).id ≡ d.id
Settled-id c d g (sends w) = refl
Settled-id c d g (dies r w q e) = refl
Settled-id c d g (fails n r w q h l) = refl

Settled-RowOk :
    {a : Attempt} {kind : DestinationType} {worked : Bool} (c d : Delivery)
    (g : Delivery → Delivery)
    → Settled a kind worked c g
    → RowOk d
    → d.attempts ≡ c.attempts
    → RowOk (g d)
Settled-RowOk c d g (sends w) o e = (λ h. cc, o.1)
Settled-RowOk c d g (dies r w q z) o e = (λ h. cc, o.1)
Settled-RowOk {kind} c d g (fails n r w q h l) o e =
    let k = AttemptsLeft-lt kind c.attempts h in (λ _. omega arith, o.1)

pub mark_sending-RowOk :
    (now : ℕ) (worker : Key) (d : Delivery)
    → RowOk d
    → awaits d.status ≡ true
    → RowOk (mark_sending now worker d)
unfolding mark_sending
mark_sending-RowOk now worker d o h = let k = o.0 h in (λ e. cc, omega arith)

pub mark_sending-id :
    (now : ℕ) (worker : Key) (d : Delivery) → (mark_sending now worker d).id ≡ d.id
unfolding mark_sending
mark_sending-id now worker d = refl

same_id : (c d : Delivery) → is_delivery c d ≡ true → d.id ≡ c.id
same_id c d h = ground arith

-- The rows after a settled delivery.
rows_after :
    {a : Attempt} {kind : DestinationType} {worked : Bool} (c : Delivery) (g : Delivery → Delivery)
    (rows : List Delivery)
    → Settled a kind worked c g
    → ((d : Delivery) → Has d rows → RowOk d)
    → ((d : Delivery) → Has d rows → d.id ≡ c.id → Flies c d)
    → (d : Delivery) → Has d (modify (is_delivery c) g rows)
    → RowOk d
rows_after c g rows s o f d m =
    let (x, n, k) = Has-modify (is_delivery c) g rows d m in
    elim k [
      | inl h ↦ subst RowOk (sym h.1) (Settled-RowOk c x g s (o x n) (f x n (same_id c x h.0)).1)
      | inr h ↦ subst RowOk (sym h.1) (o x n)
    ]

flights_after :
    {a : Attempt} {kind : DestinationType} {worked : Bool} (c e : Delivery)
    (g : Delivery → Delivery) (rows : List Delivery)
    → Settled a kind worked c g
    → (e.id == c.id) ≡ false
    → ((d : Delivery) → Has d rows → d.id ≡ e.id → Flies e d)
    → (d : Delivery) → Has d (modify (is_delivery c) g rows)
    → d.id ≡ e.id
    → Flies e d
flights_after c e g rows s ne f d m q =
    let (x, n, k) = Has-modify (is_delivery c) g rows d m in
    elim k [
      | inl h ↦ absurd (other_row x h.0 (ap (λ (z : Delivery). z.id) h.1))
      | inr h ↦ subst (Flies e) (sym h.1) (f x n (ap (λ (z : Delivery). z.id) (sym h.1) ∙ q))
    ]
  where
    other_row : (x : Delivery) → is_delivery c x ≡ true → d.id ≡ (g x).id → ⊥
    other_row x t r =
        let u = Settled-id c x g s in
        let v = same_id c x t in cc ((==_iff e.id c.id).1 (sym q ∙ r ∙ u ∙ v), ne)

pub settle-IsSound :
    (registry : DestinationType → Bool) (a : Attempt) (c : Delivery) (w : World)
    → Has c w.in_flight
    → IsSound w
    → IsSound (settle_world registry a c w)
settle-IsSound registry a c w m v =
    let (g, s, e) = process_delivery_settles registry a c w.db in
    record {
      ids =
          rw e (UniqueIds-modify (is_delivery c) g (λ d. Settled-id c d g s) w.db.deliveries v.ids);
      rows = λ d n.
          rows_after c g w.db.deliveries s v.rows (λ x k q. v.flights c x m k q) d
            (subst (Has d) e n);
      flights = λ f d k n q.
          let (h, ne) = Has-keep (λ (z : Delivery). not (z.id == c.id)) w.in_flight f k in
          flights_after c f g w.db.deliveries s (ground arith) (λ x j r. v.flights f x h j r) d
            (subst (Has d) e n) q;
    }
