-- ===== src/Sandbox/Tests.antt =====
-- Tests of the sandbox store, and the theorems at concrete inputs.
use postbag.Common.{◌≤◌, ◌≡◌, refl, true, false, some, [], ◌∷◌, Has}
use postbag.Errors.{ok}
use postbag.Sandbox.Store.{
  active, Sandbox, AnonymousSubmission, Db, Created, create_anonymous_sandbox, Accepted, accepted,
  earlier, accept_fresh, accept_anonymous_submission,
}
use postbag.Sandbox.Quota.{IsSound, Step, Reach, Reach-IsSound}
use postbag.Sandbox.Replay.{accept_repeated}

abbrev empty : Db
empty = record { sandboxes = []; submissions = [] }

abbrev input : Sandbox
input = record {
  id = 1;
  status = active;
  expires_at = 100;
  accepted_count = 0;
  token_hash = 11;
  creation_key_hash = 12;
  request_body_hash = 13;
  abuse_source_key = 14;
}

abbrev created : Db × Created
created = (record empty { sandboxes = input ∷ [] }, record { replayed = false; sandbox = input })

test_create : create_anonymous_sandbox input 5 10 empty ≡ ok created
unfolding create_anonymous_sandbox
test_create = refl

abbrev submission : AnonymousSubmission
submission = record {
  id = 21;
  sandbox_id = 1;
  content = 30;
  idempotency_key_hash = some 40;
  received_at = 20;
}

abbrev stored : Db
stored = record {
  sandboxes = record input { accepted_count = 1 } ∷ [];
  submissions = submission ∷ [];
}

test_accept : accept_anonymous_submission submission created.0 ≡ (stored, accepted 21 false)
unfolding accept_anonymous_submission accept_fresh earlier
test_accept = refl

test_full :
    (accept_anonymous_submission submission
      (record stored { sandboxes = record input { accepted_count = 5 } ∷ []; submissions = [] })).1
    ≡ Accepted.unavailable (some (record input { accepted_count = 5 }))
unfolding accept_anonymous_submission accept_fresh earlier
test_full = refl

empty_quota :
    (s : Sandbox) → Has s empty.sandboxes → (s.accepted_count ≤ 5) × (0 ≡ s.accepted_count)
empty_quota s m = absurd m

Reach-IsSound_example : IsSound (accept_anonymous_submission submission created.0).0
Reach-IsSound_example =
    Reach-IsSound
      (Reach.next
        (Reach.next Reach.here (
          Step.create input 5 10 empty created
            (record { unused = refl; empty = refl; uncounted = refl }) test_create))
        (Step.accept submission created.0))
      (record { ids = tt; quota = empty_quota })

accept_repeated_example :
    accept_anonymous_submission
      (record submission { id = 22; content = 31 })
      (accept_anonymous_submission submission created.0).0
    ≡ ((accept_anonymous_submission submission created.0).0, accepted 21 true)
unfolding accept_anonymous_submission accept_fresh earlier
accept_repeated_example =
    accept_repeated submission (record submission { id = 22; content = 31 }) created.0 40 21 false
      refl refl refl refl
