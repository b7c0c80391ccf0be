-- ===== src/Delivery/Claiming.antt =====
-- What one claim takes: due rows only, each at most once, the oldest first.
use postbag.Common.{
  ℕ, ◌≡◌, refl, sym, ap, subst, ◌∙◌, Bool, true, false, List, [], ◌∷◌, ◌==◌, if◌then◌else◌, keep,
  modify, Has, Has-take, Has-keep, any-Has, Has-any, ◌⊎◌, inl, inr, Bool-cases, ==_iff,
}
use postbag.Routing.Types.{Key}
use postbag.Delivery.Types.{Delivery, Db}
use postbag.Delivery.Claim.{
  is_due, comes_first, insert_by, sort_by, clamp_limit, candidates, mark_sending, has_id,
  claim_deliveries,
}

-- The primary key.
abbrev pub UniqueIds : List Delivery → Type 0
UniqueIds [] = Unit
UniqueIds (d ∷ ds) = (has_id ds d.id ≡ false) × UniqueIds ds

absent :
    (ds : List Delivery) (k : Key) (e : Delivery) → has_id ds k ≡ false → Has e ds → e.id ≡ k → ⊥
absent ds k e h m q = cc (Has-any (λ (z : Delivery). z.id == k) ds e m ((==_iff e.id k).1 q), h)

pub unique :
    (ds : List Delivery) (d e : Delivery) → UniqueIds ds → Has d ds → Has e ds → d.id ≡ e.id → d ≡ e
unique [] d e u m n h = absurd m
unique (x ∷ xs) d e u (inl p) (inl q) h = sym p ∙ q
unique (x ∷ xs) d e u (inl p) (inr n) h =
    absurd (absent xs x.id e u.0 n (sym h ∙ ap (λ (z : Delivery). z.id) (sym p)))
unique (x ∷ xs) d e u (inr m) (inl q) h =
    absurd (absent xs x.id d u.0 m (h ∙ ap (λ (z : Delivery). z.id) (sym q)))
unique (x ∷ xs) d e u (inr m) (inr n) h = unique xs d e u.1 m n h

Has-insert_by :
    (d : Delivery) (es : List Delivery) (a : Delivery) → Has a (insert_by d es) → Has a (d ∷ es)
unfolding insert_by
Has-insert_by d [] a m = m
Has-insert_by d (e ∷ es) a m = elim (Bool-cases (comes_first d e)) [
  | inl f ↦ rw f at m
  | inr f ↦ later (Has-insert_by d es a) (rw f at m)
]
  where
    later :
        (Has a (insert_by d es) → (d ≡ a) ⊎ Has a es)
        → (e ≡ a) ⊎ Has a (insert_by d es)
        → (d ≡ a) ⊎ ((e ≡ a) ⊎ Has a es)
    later ih (inl p) = inr (inl p)
    later ih (inr n) = elim (ih n) [ inl p ↦ inl p | inr k ↦ inr (inr k) ]

Has-sort_by : (ds : List Delivery) (a : Delivery) → Has a (sort_by ds) → Has a ds
unfolding sort_by
Has-sort_by [] a m = m
Has-sort_by (d ∷ ds) a m = elim (Has-insert_by d (sort_by ds) a m) [
  | inl e ↦ inl e
  | inr n ↦ inr (Has-sort_by ds a n)
]

-- A row that is taken stands in the table and is due.
pub Has-candidates :
    (now : ℕ) (locked : Key → Bool) (limit : ℕ) (rows : List Delivery) (a : Delivery)
    → Has a (candidates now locked limit rows)
    → Has a rows × (is_due now locked a ≡ true)
unfolding candidates
Has-candidates now locked limit rows a m = Has-keep (is_due now locked) rows a (
    Has-sort_by (keep (is_due now locked) rows) a
      (Has-take (clamp_limit limit) (sort_by (keep (is_due now locked) rows)) a m))

pub chosen_due :
    (now : ℕ) (locked : Key → Bool) (limit : ℕ) (rows : List Delivery) (d : Delivery)
    → UniqueIds rows
    → Has d rows
    → has_id (candidates now locked limit rows) d.id ≡ true
    → is_due now locked d ≡ true
chosen_due now locked limit rows d u m h =
    let (e, n, q) = any-Has (λ (z : Delivery). z.id == d.id) (candidates now locked limit rows) h in
    let (k, due) = Has-candidates now locked limit rows e n in
    subst (λ z. is_due now locked z ≡ true) (unique rows e d u k m ((==_iff e.id d.id).0 q)) due

-- Row by row: what the claim did to it.
abbrev pub Claimed : ℕ → Key → (Key → Bool) → Delivery → Delivery → Type 0
Claimed now worker locked old new =
    (new ≡ old) ⊎ ((is_due now locked old ≡ true) × (new ≡ mark_sending now worker old))

abbrev pub RowByRow : (Delivery → Delivery → Type 0) → List Delivery → List Delivery → Type 0
RowByRow R [] [] = Unit
RowByRow R (d ∷ ds) (e ∷ es) = R d e × RowByRow R ds es
RowByRow R _ _ = ⊥

RowByRow-modify :
    (R : Delivery → Delivery → Type 0) (p : Delivery → Bool) (f : Delivery → Delivery)
    (ds : List Delivery)
    → ((d : Delivery) → Has d ds → p d ≡ true → R d (f d))
    → ((d : Delivery) → R d d)
    → RowByRow R ds (modify p f ds)
RowByRow-modify R p f [] h k = tt
RowByRow-modify R p f (d ∷ ds) h k =
    (head (Bool-cases (p d)), RowByRow-modify R p f ds (λ e m. h e (inr m)) k)
  where
    head : ((p d ≡ true) ⊎ (p d ≡ false)) → R d (if p d then f d else d)
    head (inl e) = rw e (h d (inl refl) e)
    head (inr e) = rw e (k d)

-- A claim leaves every row as it was, or takes it: then the row was awaiting, its time had come,
-- no transaction had locked it, and it is now being sent, by this worker, with one attempt more.
-- The other tables stay as they were.
pub claim_deliveries_rows :
    (now : ℕ) (worker : Key) (locked : Key → Bool) (limit : ℕ) (db : Db)
    → UniqueIds db.deliveries
    → let after = (claim_deliveries now worker locked limit db).0 in
      RowByRow (Claimed now worker locked) db.deliveries after.deliveries
      × (after.destinations ≡ db.destinations)
      × (after.routes ≡ db.routes)
      × (after.events ≡ db.events)
unfolding claim_deliveries
claim_deliveries_rows now worker locked limit db u = (
  RowByRow-modify (Claimed now worker locked) _ (mark_sending now worker) db.deliveries
      (λ d m h. inr (chosen_due now locked limit db.deliveries d u m h, refl)) (λ d. inl refl),
  refl,
  refl,
  refl,
)
