-- ===== src/Delivery/Exclusion.antt =====
-- No row is claimed twice without having been settled in between.
use postbag.Common.{
  ℕ, ◌≡◌, refl, sym, subst, Bool, true, false, List, [], ◌∷◌, ◌==◌, if◌then◌else◌, keep, arith, All,
  All-Has, Has-keep, any-Has, inl, inr, Bool-cases, ==_iff,
}
use postbag.Routing.Types.{Key}
use postbag.Delivery.Types.{Delivery, Db}
use postbag.Delivery.Claim.{
  awaits, is_due, candidates, mark_sending, has_id, claim_rows, claim_deliveries,
}
use postbag.Delivery.Claiming.{Has-candidates}

one_row :
    (now : ℕ) (worker : Key) (chosen : List Delivery) (d : Delivery)
    → let e = if has_id chosen d.id then mark_sending now worker d else d in
      has_id chosen e.id ≡ true → awaits e.status ≡ false
unfolding mark_sending
one_row now worker chosen d = elim (Bool-cases (has_id chosen d.id)) [
  | inl f ↦ rw f (λ h. refl)
  | inr f ↦ rw f (λ h. cc)
]

-- After a claim the rows that it took are being sent.
pub claimed_sending :
    (now : ℕ) (worker : Key) (chosen rows : List Delivery)
    → All
        (λ (e : Delivery). has_id chosen e.id ≡ true → awaits e.status ≡ false)
        (claim_rows now worker chosen rows)
unfolding claim_rows
claimed_sending now worker chosen [] = tt
claimed_sending now worker chosen (d ∷ ds) =
    (one_row now worker chosen d, claimed_sending now worker chosen ds)

pub is_due-awaits :
    (now : ℕ) (locked : Key → Bool) (d : Delivery)
    → is_due now locked d ≡ true
    → awaits d.status ≡ true
unfolding is_due
is_due-awaits now locked d h = ground arith

-- A row with an identifier that was taken has it.
taken-has_id :
    (chosen rows : List Delivery) (k : Key)
    → has_id (keep (λ (d : Delivery). has_id chosen d.id) rows) k ≡ true
    → has_id chosen k ≡ true
taken-has_id chosen rows k h =
    let (e, m, q) =
      any-Has (λ (z : Delivery). z.id == k) (keep (λ (d : Delivery). has_id chosen d.id) rows) h in
    let (n, c) = Has-keep (λ (d : Delivery). has_id chosen d.id) rows e m in
    subst (λ j. has_id chosen j ≡ true) ((==_iff e.id k).0 q) c

-- What a second claim chooses was not chosen by the first.
second_choice :
    (now now' : ℕ) (worker : Key) (locked' : Key → Bool) (limit' : ℕ) (chosen rows : List Delivery)
    (k : Key)
    → has_id (candidates now' locked' limit' (claim_rows now worker chosen rows)) k ≡ true
    → has_id chosen k ≡ true
    → ⊥
second_choice now now' worker locked' limit' chosen rows k h c =
    let after = claim_rows now worker chosen rows in
    let (e, m, q) =
      any-Has (λ (z : Delivery). z.id == k) (candidates now' locked' limit' after) h in
    let (n, due) = Has-candidates now' locked' limit' after e m in
    let busy =
      All-Has (λ (z : Delivery). has_id chosen z.id ≡ true → awaits z.status ≡ false) after e
        (claimed_sending now worker chosen rows) n in
    cc (
      busy (subst (λ j. has_id chosen j ≡ true) (sym ((==_iff e.id k).0 q)) c),
      is_due-awaits now' locked' e due,
    )

-- Two claims with nothing in between, by whichever workers, take different rows.
pub claim_deliveries_exclusive :
    (now now' : ℕ) (worker worker' : Key) (locked locked' : Key → Bool) (limit limit' : ℕ) (db : Db)
    (k : Key)
    → let (db', taken) = claim_deliveries now worker locked limit db in
      has_id (claim_deliveries now' worker' locked' limit' db').1 k ≡ true → has_id taken k ≡ false
unfolding claim_deliveries
claim_deliveries_exclusive now now' worker worker' locked locked' limit limit' db k h =
    let chosen = candidates now locked limit db.deliveries in
    let after = claim_rows now worker chosen db.deliveries in
    let later = candidates now' locked' limit' after in
    elim (Bool-cases (has_id (keep (λ (d : Delivery). has_id chosen d.id) after) k)) [
      | inl t ↦ absurd (
          second_choice now now' worker locked' limit' chosen db.deliveries k
            (taken-has_id later (claim_rows now' worker' later after) k h)
            (taken-has_id chosen after k t))
      | inr f ↦ f
    ]
