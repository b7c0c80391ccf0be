-- ===== src/Idempotency/Tests.antt =====
-- The middleware at two requests with one key, and the theorem at an example.
use postbag.Common.{ℕ, suc, ◌≡◌, refl, true, none, some, [], codes}
use postbag.Json.Values.{obj, end}
use postbag.Idempotency.Middleware.{Answer, Server, PostRequest, idempotency}
use postbag.Idempotency.Replay.{idempotency-replays}

-- The state is the number of forms; the handler makes one.
abbrev create_form : PostRequest ℕ
create_form = record {
  organization_id = 1;
  is_post = true;
  key = some (codes "k");
  path = codes "/v1/forms";
  now = 1000;
  handle = λ n. (suc n, record { status = 201; body = some (obj end) });
}

-- Another operation, a month later, with the same key.
abbrev create_stream : PostRequest ℕ
create_stream = record create_form {
  path = codes "/v1/streams";
  now = 2592000000;
  handle = λ n. (suc (suc n), record { status = 200; body = none });
}

abbrev start : Server ℕ
start = record { answers = []; rest = 0 }

abbrev first_run : Server ℕ × Answer
first_run = idempotency ℕ create_form (λ s. s) start

runs_once : first_run.0.rest ≡ 1
unfolding idempotency
runs_once = refl

idempotency-replays_example :
    idempotency ℕ create_stream (λ s. s) first_run.0 ≡ (first_run.0, first_run.1)
unfolding idempotency
idempotency-replays_example =
    idempotency-replays ℕ create_form create_stream b'k' [] (λ s. s) (λ s. s) start first_run.0
      (obj end) [] refl refl refl refl refl refl refl refl refl (λ e. cc) refl
