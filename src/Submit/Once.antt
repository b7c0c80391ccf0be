-- ===== src/Submit/Once.antt =====
-- One submission for each key of a form: the handler as a register that is written once.
use postbag.Common.{
  ℕ, suc, ◌≡◌, refl, ap, subst, sym, ◌∙◌, Bool, true, false, Option, none, some, List, [], ◌∷◌,
  ◌++◌, Text, any, teq_refl, if◌then◌else◌, arith, find, find-none, length, ==_iff,
}
use postbag.Errors.{Result, err, ok, ErrorCode, internal_error, attachment_storage_unavailable}
use postbag.Plan.Limits.{PlanLimits}
use postbag.Routing.Types.{Key}
use postbag.Routing.Digest.{Platform}
use postbag.Submit.Types.{Submission, Attachment, Db, Form}
use postbag.Submit.Requests.{
  Request, Receipt, with_key, is_taken, submission_row, within_quota, has_text,
}
use postbag.Submit.Store.{Accepted, store_submission, has_files}
use postbag.Submit.Uploads.{Admission, replay, waiting, reserved, admit_loop, receipt_for}
use postbag.Submit.Post.{
  World, Connection, acknowledged, lost_applied, lost_unapplied, post, admit_and_store, admitted,
  upload_and_store, store_or_clean, put_failure, settle, connected, cleaned, after_failure,
  answered_or, fresh_receipt,
}
use postbag.Submit.Unmoved.{OwnedBy, Kept, cleaned-submissions, admit_loop-Kept}
use postbag.Submit.Rows.{store_submission-submissions}
use postbag.Submit.Kept.{Undisturbed, post-Kept}
use postbag.Submit.Receipts.{
  IsReceipt, Told, ToldAdmission, after_failure-Told, admit_loop-Told, receipt_for-IsReceipt,
}

find-append_last :
    {A : Type 0} (p : A → Bool) (xs : List A) (a : A)
    → find p xs ≡ none
    → p a ≡ true
    → find p (xs ++ (a ∷ [])) ≡ some a
find-append_last p [] a h q = rw q refl
find-append_last p (x ∷ xs) a h q = ground (arith, find-append_last p xs a)

module _ (r : Request) (key : Text) (k : r.idempotency_key ≡ some key) where
  stored-IsReceipt :
      (p : Platform) (db after : Db) (a : Accepted)
      → store_submission p r db ≡ ok (after, a)
      → IsReceipt r.form key after.submissions (fresh_receipt r a)
  stored-IsReceipt p db after a h =
      let (rows, free, same_id, same_status) = store_submission-submissions p r db after a h in
      let row = submission_row r (within_quota r db) in
      let unheld : any (with_key r.form.id key) db.submissions ≡ false =
        subst (λ x. is_taken r.form.id x db.submissions ≡ false) k free in
      let keyed : has_text r.idempotency_key key ≡ true =
        subst (λ x. has_text x key ≡ true) (sym k) (teq_refl key) in
      let ours : with_key r.form.id key row ≡ true =
        rw ((==_iff r.form.id r.form.id).1 refl, keyed) refl in
      (
        row,
        subst (λ z. find (with_key r.form.id key) z ≡ some row) (sym rows)
            (find-append_last (with_key r.form.id key) db.submissions row
              (find-none _ db.submissions unheld) ours),
        sym same_id,
        sym same_status,
      )

  connected-Told :
      (before db : Db) (a : Accepted) (c : Connection)
      → IsReceipt r.form key db.submissions (fresh_receipt r a)
      → OwnedBy r.form before.submissions
      → Told r.form key (connected r before db a c)
  connected-Told before db a acknowledged t o = t
  connected-Told before db a lost_applied t o = t
  connected-Told before db a lost_unapplied t o = after_failure-Told r key k internal_error before o

  cleaned-Told :
      (e : ErrorCode) (deleted : Attachment → Bool) (n : ℕ) (db : Db)
      → OwnedBy r.form db.submissions
      → Told r.form key (after_failure e r (cleaned r deleted n db))
  cleaned-Told e deleted n db o =
      after_failure-Told r key k e (cleaned r deleted n db)
        (subst (OwnedBy r.form) (sym (cleaned-submissions r deleted n db)) o)

  store_or_clean-Told :
      (p : Platform) (w : World) (db : Db) (n : Option ℕ)
      → OwnedBy r.form db.submissions
      → Told r.form key (store_or_clean p r w db n)
  unfolding store_or_clean settle
  store_or_clean-Told p w db (some n) o =
      cleaned-Told attachment_storage_unavailable w.deleted (suc n) db o
  store_or_clean-Told p w db none o = stored (store_submission p r db) refl
    where
      stored :
          (x : Result (Db × Accepted))
          → store_submission p r db ≡ x
          → Told r.form key (settle r w db x)
      stored (err e) h = cleaned-Told e w.deleted (length r.attachments) db o
      stored (ok (after, a)) h =
          connected-Told db after a w.connection (stored-IsReceipt p db after a h) o

  upload_and_store-Told :
      (p : Platform) (w : World) (db : Db)
      → Undisturbed r.form w
      → OwnedBy r.form db.submissions
      → Told r.form key (upload_and_store p r w db)
  unfolding upload_and_store
  upload_and_store-Told p w db q o =
      store_or_clean-Told p w (w.before_store db) (put_failure r w) ((q.2 db).0 o)

  admitted-Told :
      (store : Db → Db × Result Receipt) (x : Db × Result Admission)
      → ((d : Db) → OwnedBy r.form d.submissions → Told r.form key (store d))
      → OwnedBy r.form x.0.submissions
      → ToldAdmission r.form key x
      → Told r.form key (admitted store x)
  admitted-Told store (db, err e) g o t = tt
  admitted-Told store (db, ok (replay receipt)) g o t = t
  admitted-Told store (db, ok waiting) g o t = tt
  admitted-Told store (db, ok reserved) g o t = g db o

  admit_and_store-Told :
      (limits : PlanLimits) (p : Platform) (hash : Option Key) (w : World) (db : Db)
      → Undisturbed r.form w
      → OwnedBy r.form db.submissions
      → Told r.form key (admit_and_store limits p r hash w db)
  unfolding admit_and_store
  admit_and_store-Told limits p hash w db q o = either (has_files r.attachments)
    where
      either :
          (b : Bool)
          → Told r.form key (
              if b
              then admitted (λ d. upload_and_store p r w d) (admit_loop limits r hash w.rounds db)
              else upload_and_store p r w db)
      either true =
          admitted-Told (λ d. upload_and_store p r w d) (admit_loop limits r hash w.rounds db)
            (λ d. upload_and_store-Told p w d q)
            ((admit_loop-Kept r.form limits r hash w.rounds db q.1).0 o)
            (admit_loop-Told r key k limits hash w.rounds db q.1 o)
      either false = upload_and_store-Told p w db q o

  post-Told :
      (limits : PlanLimits) (p : Platform) (hash : Option Key) (w : World) (db : Db)
      → Undisturbed r.form w
      → OwnedBy r.form db.submissions
      → Told r.form key (post limits p r hash w db)
  unfolding post
  post-Told limits p hash w db q o = either (receipt_for r db) refl
    where
      either :
          (x : Option Receipt)
          → receipt_for r db ≡ x
          → Told r.form key
              (answered_or db x (admit_and_store limits p r hash w (w.before_admission db)))
      either none h = admit_and_store-Told limits p hash w (w.before_admission db) q ((q.0 db).0 o)
      either (some receipt) h = receipt_for-IsReceipt r key db receipt k o h

-- The abstract view: for each key of a form at most one submission, which is never replaced.
abbrev pub Ledger : Type 0
Ledger = Key → Text → Option Key

abbrev pub id_of : Option Submission → Option Key
id_of none = none
id_of (some s) = some s.id

unfoldable pub ledger : Db → Ledger
ledger db form key = id_of (find (with_key form key) db.submissions)

-- A write-once register: what an operation on the ledger may do, and what its answer may be.
abbrev pub WritesOnce : Form → Option Text → Ledger → Ledger → Result Receipt → Type 0
WritesOnce f none before after answer =
    (key : Text) (id : Key) → before f.id key ≡ some id → after f.id key ≡ some id
WritesOnce f (some key) before after (err e) =
    (other : Text) (id : Key) → before f.id other ≡ some id → after f.id other ≡ some id
WritesOnce f (some key) before after (ok receipt) =
    ((other : Text) (id : Key) → before f.id other ≡ some id → after f.id other ≡ some id)
    × (after f.id key ≡ some receipt.submission_id)

ledger-Kept :
    (f : Form) (db after : Db)
    → Kept f db after
    → (key : Text) (id : Key) → ledger db f.id key ≡ some id
    → ledger after f.id key ≡ some id
unfolding ledger
ledger-Kept f db after q key id h = held (find (with_key f.id key) db.submissions) refl h
  where
    held :
        (x : Option Submission)
        → find (with_key f.id key) db.submissions ≡ x
        → id_of x ≡ some id
        → id_of (find (with_key f.id key) after.submissions) ≡ some id
    held none e i = cc
    held (some s) e i = ap id_of (q.1 key s e) ∙ i

entry :
    (f : Form) (after : Db) (key : Text) (receipt : Receipt)
    → IsReceipt f key after.submissions receipt
    → ledger after f.id key ≡ some receipt.submission_id
unfolding ledger
entry f after key receipt (s, h, i, _) = ap id_of h ∙ ap some i

-- The handler refines a register that is written once, from a key of a form to a submission. Whatever
-- other requests do between its transactions, so long as they keep the submissions that are stored for
-- keys, and the foreign key of the form, a request leaves every entry of its form as it was; and where
-- it has a key and answers with a receipt, the entry of its key is the receipt's submission.
pub post-WritesOnce :
    (limits : PlanLimits) (p : Platform) (r : Request) (hash : Option Key) (w : World) (db : Db)
    → OwnedBy r.form db.submissions
    → Undisturbed r.form w
    → let (after, answer) = post limits p r hash w db in
      WritesOnce r.form r.idempotency_key (ledger db) (ledger after) answer
post-WritesOnce limits p r hash w db o q = by_key r.idempotency_key refl
  where
    kept :
        (key : Text) (id : Key)
        → ledger db r.form.id key ≡ some id
        → ledger (post limits p r hash w db).0 r.form.id key ≡ some id
    kept =
        ledger-Kept r.form db (post limits p r hash w db).0
          (post-Kept r.form limits p r hash w (λ e. refl) q db)

    told :
        (key : Text) (x : Db × Result Receipt)
        → ((other : Text) (id : Key)
            → ledger db r.form.id other ≡ some id
            → ledger x.0 r.form.id other ≡ some id)
        → Told r.form key x
        → WritesOnce r.form (some key) (ledger db) (ledger x.0) x.1
    told key (after, err e) g t = g
    told key (after, ok receipt) g t = (g, entry r.form after key receipt t)

    by_key :
        (x : Option Text)
        → r.idempotency_key ≡ x
        → WritesOnce r.form x
            (ledger db)
            (ledger (post limits p r hash w db).0)
            (post limits p r hash w db).1
    by_key none e = kept
    by_key (some key) e =
        told key (post limits p r hash w db) kept (post-Told r key e limits p hash w db q o)
