-- ===== src/Submit/Receipts.antt =====
-- The receipts of earlier submissions, up to the end of the admission: they agree with the table.
use postbag.Common.{
  ◌≡◌, refl, ap, subst, sym, ◌∙◌, inl, inr, Bool, true, false, ◌&&◌, Option, none, some, List, [],
  ◌∷◌, Text, any, Bool-cases, if◌then◌else◌, ◌==◌, arith, All, find, ==_iff,
}
use postbag.Errors.{Result, err, ok, ErrorCode}
use postbag.Plan.Limits.{PlanLimits, assert_locked_attachment_storage_capacity}
use postbag.Routing.Types.{Key}
use postbag.Submit.Types.{Submission, Attachment, Db, Form}
use postbag.Submit.Requests.{
  Request, Receipt, with_key, existing_submission_receipt, receipt_of, has_text,
}
use postbag.Submit.Uploads.{
  Admission, replay, waiting, reserved, admit, admit_loop, next_round, reserve_by_hash,
  claim_leader, behind_claim, reserve_rest, reserve_if, receipt_for, replayed_or, reservation,
  insert_reservation, set_size, conflicts, insert_reservations, retained_attachment_storage_bytes,
  requested_bytes,
}
use postbag.Submit.Post.{after_failure, receipt_or}
use postbag.Submit.Unmoved.{OwnedBy, Keeps, admit-Kept}

-- The receipt is that of the submission that the rows hold for the key.
abbrev pub IsReceipt : Form → Text → List Submission → Receipt → Type 0
IsReceipt f key rows receipt =
    (s : Submission) × (find (with_key f.id key) rows ≡ some s)
    × (s.id ≡ receipt.submission_id)
    × (s.status ≡ receipt.status)

find-organization :
    (f : Form) (key : Text) (rows : List Submission)
    → OwnedBy f rows
    → find
        (λ (s : Submission). (s.organization_id == f.organization_id) && with_key f.id key s)
        rows
      ≡ find (with_key f.id key) rows
find-organization f key [] o = refl
find-organization f key (s ∷ rows) o = elim (Bool-cases (s.form_id == f.id)) [
  | inl e ↦
      let g : (s.organization_id == f.organization_id) ≡ true = (==_iff _ _).1 (o.0 e) in
      rw (g, e)
        (ap (λ t. if has_text s.idempotency_key key then some s else t)
          (find-organization f key rows o.1))
  | inr e ↦ let h = find-organization f key rows o.1 in rw e (ground arith)
]

receipt_of-IsReceipt :
    (f : Form) (key : Text) (db : Db) (o : Option Submission) (receipt : Receipt)
    → find (with_key f.id key) db.submissions ≡ o
    → receipt_of f db o ≡ some receipt
    → IsReceipt f key db.submissions receipt
receipt_of-IsReceipt f key db none receipt h e = cc
receipt_of-IsReceipt f key db (some s) receipt h e =
    let g : receipt_of f db (some s) ≡ some receipt = e in (s, h, (cc), (cc))

existing-IsReceipt :
    (f : Form) (key : Text) (db : Db) (receipt : Receipt)
    → OwnedBy f db.submissions
    → existing_submission_receipt db f key ≡ some receipt
    → IsReceipt f key db.submissions receipt
unfolding existing_submission_receipt
existing-IsReceipt f key db receipt o e =
    receipt_of-IsReceipt f key db (find (with_key f.id key) db.submissions) receipt refl
      (ap (receipt_of f db) (sym (find-organization f key db.submissions o)) ∙ e)

pub receipt_for-IsReceipt :
    (r : Request) (key : Text) (db : Db) (receipt : Receipt)
    → r.idempotency_key ≡ some key
    → OwnedBy r.form db.submissions
    → receipt_for r db ≡ some receipt
    → IsReceipt r.form key db.submissions receipt
receipt_for-IsReceipt r key db receipt k o e = existing-IsReceipt r.form key db receipt o (
    subst
      (λ (x : Option Text).
        (elim x [ none ↦ none | some t ↦ existing_submission_receipt db r.form t ]) ≡ some receipt)
      k e)

-- What an answer says of the table that the request leaves.
abbrev pub Told : Form → Text → Db × Result Receipt → Type 0
Told f key (db, err e) = Unit
Told f key (db, ok receipt) = IsReceipt f key db.submissions receipt

abbrev pub ToldAdmission : Form → Text → Db × Result Admission → Type 0
ToldAdmission f key (db, err e) = Unit
ToldAdmission f key (db, ok (replay receipt)) = IsReceipt f key db.submissions receipt
ToldAdmission f key (db, ok waiting) = Unit
ToldAdmission f key (db, ok reserved) = Unit

module _ (r : Request) (key : Text) (k : r.idempotency_key ≡ some key) where
  pub after_failure-Told :
      (e : ErrorCode) (db : Db)
      → OwnedBy r.form db.submissions
      → Told r.form key (after_failure e r db)
  after_failure-Told e db o = told (receipt_for r db) refl
    where
      told : (x : Option Receipt) → receipt_for r db ≡ x → Told r.form key (db, receipt_or e x)
      told none h = tt
      told (some receipt) h = receipt_for-IsReceipt r key db receipt k o h

  reserve_rest-Told :
      (limits : PlanLimits) (files : List Attachment) (before db : Db) (sized : Db → Db)
      → ToldAdmission r.form key (reserve_rest limits r files before sized db)
  unfolding reserve_rest
  reserve_rest-Told limits files before db sized = room (
      assert_locked_attachment_storage_capacity limits
        (retained_attachment_storage_bytes r.form.organization_id db)
        (requested_bytes r.attachments))
    where
      room :
          (c : Result (Unit {0}))
          → ToldAdmission r.form key (reserve_if c before (insert_reservations r files (sized db)))
      room (err x) = tt
      room (ok x) = tt

  claim_leader-Told :
      (limits : PlanLimits) (hash : Key) (leader : Attachment) (others : List Attachment) (db : Db)
      → OwnedBy r.form db.submissions
      → ToldAdmission r.form key (claim_leader limits r hash leader others db)
  unfolding claim_leader behind_claim
  claim_leader-Told limits hash leader others db o =
      either (any (conflicts r hash leader) db.object_deletions)
    where
      claimed : Db
      claimed = insert_reservation (reservation r (some hash) 0 leader) db

      told :
          (x : Option Receipt)
          → receipt_for r claimed ≡ x
          → ToldAdmission r.form key (behind_claim limits r leader others db claimed x)
      told none h = reserve_rest-Told limits others db claimed (set_size leader)
      told (some receipt) h = receipt_for-IsReceipt r key claimed receipt k o h

      either :
          (b : Bool)
          → ToldAdmission r.form key (
              if b
              then (db, ok waiting)
              else behind_claim limits r leader others db claimed (receipt_for r claimed))
      either true = tt
      either false = told (receipt_for r claimed) refl

  reserve_by_hash-Told :
      (limits : PlanLimits) (hash : Option Key) (files : List Attachment) (db : Db)
      → OwnedBy r.form db.submissions
      → ToldAdmission r.form key (reserve_by_hash limits r hash files db)
  unfolding reserve_by_hash
  reserve_by_hash-Told limits none files db o = reserve_rest-Told limits files db db (λ d. d)
  reserve_by_hash-Told limits (some hash) [] db o = tt
  reserve_by_hash-Told limits (some hash) (leader ∷ others) db o =
      claim_leader-Told limits hash leader others db o

  admit-Told :
      (limits : PlanLimits) (hash : Option Key) (meanwhile : Db → Db) (db : Db)
      → Keeps r.form meanwhile
      → OwnedBy r.form db.submissions
      → ToldAdmission r.form key (admit limits r hash meanwhile db)
  unfolding admit
  admit-Told limits hash meanwhile db q o = told (receipt_for r db) refl
    where
      told :
          (x : Option Receipt)
          → receipt_for r db ≡ x
          → ToldAdmission r.form key
              (replayed_or db x (reserve_by_hash limits r hash r.attachments (meanwhile db)))
      told none h = reserve_by_hash-Told limits hash r.attachments (meanwhile db) ((q db).0 o)
      told (some receipt) h = receipt_for-IsReceipt r key db receipt k o h

  next_round-Told :
      (again : Db → Db × Result Admission) (x : Db × Result Admission)
      → (OwnedBy r.form x.0.submissions → ToldAdmission r.form key (again x.0))
      → OwnedBy r.form x.0.submissions
      → ToldAdmission r.form key x
      → ToldAdmission r.form key (next_round again x)
  next_round-Told again (after, err e) g o t = tt
  next_round-Told again (after, ok (replay receipt)) g o t = t
  next_round-Told again (after, ok reserved) g o t = tt
  next_round-Told again (after, ok waiting) g o t = g o

  pub admit_loop-Told :
      (limits : PlanLimits) (hash : Option Key) (rounds : List (Db → Db)) (db : Db)
      → All (Keeps r.form) rounds
      → OwnedBy r.form db.submissions
      → ToldAdmission r.form key (admit_loop limits r hash rounds db)
  unfolding admit_loop
  admit_loop-Told limits hash [] db q o = tt
  admit_loop-Told limits hash (meanwhile ∷ rounds) db q o =
      next_round-Told (λ d. admit_loop limits r hash rounds d) (admit limits r hash meanwhile db)
        (λ p. admit_loop-Told limits hash rounds (admit limits r hash meanwhile db).0 q.1 p)
        ((admit-Kept r.form limits r hash meanwhile db q.0).0 o)
        (admit-Told limits hash meanwhile db q.0 o)
