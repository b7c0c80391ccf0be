-- ===== src/Submit/Kept.antt =====
-- What the handler leaves in the table of submissions: what is stored for a key stays.
use postbag.Common.{
  ℕ, suc, ◌≡◌, refl, Bool, true, false, Option, none, some, if◌then◌else◌, All, length,
}
use postbag.Errors.{Result, err, ok}
use postbag.Plan.Limits.{PlanLimits}
use postbag.Routing.Types.{Key}
use postbag.Routing.Digest.{Platform}
use postbag.Submit.Types.{Db, Form}
use postbag.Submit.Requests.{Request, Receipt, within_quota}
use postbag.Submit.Store.{Accepted, store_submission, has_files}
use postbag.Submit.Uploads.{Admission, replay, waiting, reserved, admit_loop, receipt_for}
use postbag.Submit.Post.{
  World, acknowledged, lost_applied, lost_unapplied, post, admit_and_store, admitted,
  upload_and_store, put_failure, settle, cleaned, answered_or, connected, Connection,
  store_or_clean,
}
use postbag.Submit.Rows.{store_submission-submissions}
use postbag.Submit.Unmoved.{
  Kept, Keeps, Agrees, Kept-same, Kept-trans, Kept-append, cleaned-submissions, admit_loop-Kept,
}

store_submission-Kept :
    (f : Form) (p : Platform) (r : Request) (db after : Db) (a : Accepted)
    → Agrees f r.form
    → store_submission p r db ≡ ok (after, a)
    → Kept f db after
store_submission-Kept f p r db after a g h =
    Kept-append f r (within_quota r db) db after g (store_submission-submissions p r db after a h).0

-- The end of a request, from the transaction on.
connected-Kept :
    (f : Form) (p : Platform) (r : Request) (before db : Db) (a : Accepted) (c : Connection)
    → Kept f before db
    → Kept f before (connected r before db a c).0
connected-Kept f p r before db a acknowledged k = k
connected-Kept f p r before db a lost_applied k = k
connected-Kept f p r before db a lost_unapplied k = Kept-same f before before refl

store_or_clean-Kept :
    (f : Form) (p : Platform) (r : Request) (w : World) (db : Db) (n : Option ℕ)
    → Agrees f r.form
    → Kept f db (store_or_clean p r w db n).0
unfolding store_or_clean settle
store_or_clean-Kept f p r w db (some n) g =
    Kept-same f db (cleaned r w.deleted (suc n) db) (cleaned-submissions r w.deleted (suc n) db)
store_or_clean-Kept f p r w db none g = stored (store_submission p r db) refl
  where
    stored :
        (x : Result (Db × Accepted)) → store_submission p r db ≡ x → Kept f db (settle r w db x).0
    stored (err e) h =
        Kept-same f db (cleaned r w.deleted (length r.attachments) db)
          (cleaned-submissions r w.deleted (length r.attachments) db)
    stored (ok (after, a)) h =
        connected-Kept f p r db after a w.connection (store_submission-Kept f p r db after a g h)

-- What other requests do, in all the places where they may come in between.
abbrev pub Undisturbed : Form → World → Type 0
Undisturbed f w = Keeps f w.before_admission × All (Keeps f) w.rounds × Keeps f w.before_store

upload_and_store-Kept :
    (f : Form) (p : Platform) (r : Request) (w : World) (db : Db)
    → Agrees f r.form
    → Undisturbed f w
    → Kept f db (upload_and_store p r w db).0
unfolding upload_and_store
upload_and_store-Kept f p r w db g k =
    Kept-trans f db (w.before_store db)
      (store_or_clean p r w (w.before_store db) (put_failure r w)).0 (k.2 db)
      (store_or_clean-Kept f p r w (w.before_store db) (put_failure r w) g)

admitted-Kept :
    (f : Form) (db : Db) (store : Db → Db × Result Receipt) (x : Db × Result Admission)
    → ((d : Db) → Kept f d (store d).0)
    → Kept f db x.0
    → Kept f db (admitted store x).0
admitted-Kept f db store (after, err e) g k = k
admitted-Kept f db store (after, ok (replay receipt)) g k = k
admitted-Kept f db store (after, ok waiting) g k = k
admitted-Kept f db store (after, ok reserved) g k =
    Kept-trans f db after (store after).0 k (g after)

admit_and_store-Kept :
    (f : Form) (limits : PlanLimits) (p : Platform) (r : Request) (hash : Option Key) (w : World)
    (db : Db)
    → Agrees f r.form
    → Undisturbed f w
    → Kept f db (admit_and_store limits p r hash w db).0
unfolding admit_and_store
admit_and_store-Kept f limits p r hash w db g k = either (has_files r.attachments)
  where
    either :
        (b : Bool)
        → Kept f db
            (if b
              then admitted (λ d. upload_and_store p r w d) (admit_loop limits r hash w.rounds db)
              else upload_and_store p r w db).0
    either true =
        admitted-Kept f db (λ d. upload_and_store p r w d) (admit_loop limits r hash w.rounds db)
          (λ d. upload_and_store-Kept f p r w d g k)
          (admit_loop-Kept f limits r hash w.rounds db k.1)
    either false = upload_and_store-Kept f p r w db g k

-- A request leaves the submission that is stored for a key of a form the one that it is, whichever
-- form it posts to and however it ends, if what comes in between does so too.
pub post-Kept :
    (f : Form) (limits : PlanLimits) (p : Platform) (r : Request) (hash : Option Key) (w : World)
    → Agrees f r.form
    → Undisturbed f w
    → Keeps f (λ db. (post limits p r hash w db).0)
unfolding post
post-Kept f limits p r hash w g k db = either (receipt_for r db)
  where
    either :
        (o : Option Receipt)
        → Kept f db (answered_or db o (admit_and_store limits p r hash w (w.before_admission db))).0
    either (some receipt) = Kept-same f db db refl
    either none =
        Kept-trans f db (w.before_admission db)
          (admit_and_store limits p r hash w (w.before_admission db)).0 (k.0 db)
          (admit_and_store-Kept f limits p r hash w (w.before_admission db) g k)
