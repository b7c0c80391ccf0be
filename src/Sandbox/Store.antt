-- ===== src/Sandbox/Store.antt =====
-- packages/db/src/anonymousSandboxes.ts. Hashes and identifiers are compared only for equality.
-- The advisory locks make the transactions of one key follow one another, as here.
use postbag.Common.{
  ℕ, ◌+◌, Bool, true, false, ◌&&◌, not, Option, none, some, List, [], ◌∷◌, ◌++◌, ◌==◌, ltb, leb,
  if◌then◌else◌, keep, find, modify, count_of, any,
}
use postbag.Errors.{
  Result, ok, ◌>>◌, throw_if, idempotency_conflict, sandbox_capacity_reached, rate_limited,
}
use postbag.Routing.Types.{Key}

pub data SandboxStatus : Type 0 where
  active claimed expired : SandboxStatus

pub record Sandbox : Type 0 where
  pub id : Key
  pub status : SandboxStatus
  pub expires_at : ℕ
  pub accepted_count : ℕ
  pub token_hash : Key
  pub creation_key_hash : Key
  pub request_body_hash : Key
  pub abuse_source_key : Key

pub record AnonymousSubmission : Type 0 where
  pub id : Key
  pub sandbox_id : Key
  pub content : Key
  pub idempotency_key_hash : Option Key
  pub received_at : ℕ

pub record Db : Type 0 where
  pub sandboxes : List Sandbox
  pub submissions : List AnonymousSubmission

abbrev pub is_active : SandboxStatus → Bool
is_active active = true
is_active _ = false

-- `status = 'active' and expires_at > now`
abbrev pub is_live : ℕ → Sandbox → Bool
is_live now s = is_active s.status && ltb now s.expires_at

abbrev pub source_limit : ℕ
source_limit = 20

abbrev pub submission_limit : ℕ
submission_limit = 5

pub record Created : Type 0 where
  pub replayed : Bool
  pub sandbox : Sandbox

unfoldable pub replay_or_conflict : Sandbox → Db → Sandbox → Result (Db × Created)
replay_or_conflict input db existing =
    throw_if (not (existing.request_body_hash == input.request_body_hash)) idempotency_conflict
    >> ok (db, record { replayed = true; sandbox = existing })

unfoldable pub insert_new : Sandbox → ℕ → ℕ → Db → Result (Db × Created)
insert_new input global_limit now db =
    throw_if (leb global_limit (count_of (is_live now) db.sandboxes)) sandbox_capacity_reached
    >> (throw_if
          (leb source_limit (
            count_of (λ s. (s.abuse_source_key == input.abuse_source_key) && is_live now s)
              db.sandboxes))
          rate_limited
        >> ok (
          record db { sandboxes = db.sandboxes ++ (input ∷ []) },
          record { replayed = false; sandbox = input },
        ))

unfoldable pub create_after : Option Sandbox → Sandbox → ℕ → ℕ → Db → Result (Db × Created)
unfolding replay_or_conflict insert_new
create_after (some existing) input global_limit now db = replay_or_conflict input db existing
create_after none input global_limit now db = insert_new input global_limit now db

-- `input` is the row to insert.
unfoldable pub create_anonymous_sandbox : Sandbox → ℕ → ℕ → Db → Result (Db × Created)
unfolding create_after
create_anonymous_sandbox input global_limit now db =
    create_after
      (find (λ (s : Sandbox). s.creation_key_hash == input.creation_key_hash) db.sandboxes) input
      global_limit now db

pub data Accepted : Type 0 where
  accepted : (submission_id : Key) (idempotent : Bool) → Accepted
  unavailable : Option Sandbox → Accepted

abbrev pub same_key : Option Key → Key → Bool
same_key none k = false
same_key (some j) k = j == k

-- An earlier submission with the same idempotency key, if one is given.
unfoldable pub earlier : Key → Option Key → List AnonymousSubmission → Option AnonymousSubmission
earlier sandbox none rows = none
earlier sandbox (some k) rows =
    find
      (λ (r : AnonymousSubmission). (r.sandbox_id == sandbox) && same_key r.idempotency_key_hash k)
      rows

-- The row that the guarded update counts up.
abbrev pub has_room : Key → ℕ → Sandbox → Bool
has_room sandbox received_at s =
    (s.id == sandbox) && is_live received_at s && ltb s.accepted_count submission_limit

abbrev pub count_up : Sandbox → Sandbox
count_up s = record s { accepted_count = s.accepted_count + 1 }

abbrev pub room_for : AnonymousSubmission → Db → Bool
room_for row db = any (has_room row.sandbox_id row.received_at) db.sandboxes

-- `row` is the row to insert, with its new identifier.
unfoldable pub accept_fresh : AnonymousSubmission → Db → Db × Accepted
accept_fresh row db =
    if room_for row db
    then (
      record {
        sandboxes = modify (has_room row.sandbox_id row.received_at) count_up db.sandboxes;
        submissions = db.submissions ++ (row ∷ []);
      },
      accepted row.id false,
    )
    else (db, unavailable (find (λ (s : Sandbox). s.id == row.sandbox_id) db.sandboxes))

unfoldable pub accept_after : Option AnonymousSubmission → AnonymousSubmission → Db → Db × Accepted
accept_after (some r) row db = (db, accepted r.id true)
accept_after none row db = accept_fresh row db

unfoldable pub accept_anonymous_submission : AnonymousSubmission → Db → Db × Accepted
unfolding accept_after
accept_anonymous_submission row db =
    accept_after (earlier row.sandbox_id row.idempotency_key_hash db.submissions) row db

-- The submissions of a deleted sandbox go with it: `onDelete: "cascade"`.
unfoldable pub delete_expired : ℕ → Db → Db
delete_expired now db =
    let left = keep (λ (s : Sandbox). not (ltb s.expires_at now)) db.sandboxes in
    record {
      sandboxes = left;
      submissions =
          keep (λ (r : AnonymousSubmission). any (λ (s : Sandbox). s.id == r.sandbox_id) left)
            db.submissions;
    }
