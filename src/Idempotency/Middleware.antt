-- ===== src/Idempotency/Middleware.antt =====
-- `idempotency` of apps/server/src/middleware/idempotency.ts with `lookupIdempotencyKey` and
-- `storeIdempotencyKey` of lib/idempotency.ts. The handler behind the middleware is an argument, as
-- is what other requests do between the look-up and the handler's end.
use postbag.Common.{
  ℕ, ◌+◌, Bool, ◌&&◌, Option, none, some, List, [], ◌∷◌, ◌++◌, Text, teq, any, find, leb, ltb, ◌==◌,
  if◌then◌else◌,
}
use postbag.Json.Values.{Value, null, bool, num, str, arr, obj}
use postbag.Routing.Types.{Key}

-- A row of `idempotency_keys`, whose primary key is the organization with the key. Its method is always
-- `POST`, and left out.
pub record StoredAnswer : Type 0 where
  pub organization_id : Key
  pub key : Text
  pub path : Text
  pub status_code : ℕ
  pub body : Value
  pub created_at : ℕ
  pub expires_at : ℕ

-- `body` is `none` where the answer is no JSON, which `json().catch(() => null)` reads as `null`.
pub record Answer : Type 0 where
  pub status : ℕ
  pub body : Option Value

-- `TTL_MS`
abbrev pub ttl_ms : ℕ
ttl_ms = 86400000

abbrev pub is_stored_for : Key → Text → StoredAnswer → Bool
is_stored_for organization key a = (a.organization_id == organization) && teq a.key key

unfoldable pub lookup_idempotency_key : List StoredAnswer → Key → Text → Option StoredAnswer
lookup_idempotency_key rows organization key = find (is_stored_for organization key) rows

unfoldable pub store_idempotency_key : StoredAnswer → List StoredAnswer → List StoredAnswer
store_idempotency_key a rows =
    if any (is_stored_for a.organization_id a.key) rows then rows else rows ++ (a ∷ [])

abbrev pub is_success : ℕ → Bool
is_success status = leb 200 status && ltb status 300

module _ (S : Type 0) where
  -- The table, and the rest of the server's state.
  pub record Server : Type 0 where
    pub answers : List StoredAnswer
    pub rest : S

  pub record PostRequest : Type 0 where
    pub organization_id : Key
    pub is_post : Bool
    pub key : Option Text
    pub path : Text
    pub now : ℕ
    pub handle : S → S × Answer

  abbrev pub stored_answer : PostRequest → Text → ℕ → Value → StoredAnswer
  stored_answer r key status body = record {
    organization_id = r.organization_id;
    key = key;
    path = r.path;
    status_code = status;
    body = body;
    created_at = r.now;
    expires_at = r.now + ttl_ms;
  }

  -- `body !== null`
  abbrev pub kept_body : Option Value → Option Value
  kept_body none = none
  kept_body (some null) = none
  kept_body (some (bool b)) = some (bool b)
  kept_body (some (num n)) = some (num n)
  kept_body (some (str t)) = some (str t)
  kept_body (some (arr xs)) = some (arr xs)
  kept_body (some (obj fs)) = some (obj fs)

  abbrev pub kept_rows : PostRequest → Text → Server → Answer → Option Value → List StoredAnswer
  kept_rows r key s a none = s.answers
  kept_rows r key s a (some body) =
      if is_success a.status
      then store_idempotency_key (stored_answer r key a.status body) s.answers
      else s.answers

  unfoldable pub keep_answer : PostRequest → Text → Server → Answer → Server
  unfolding store_idempotency_key
  keep_answer r key s a = record s { answers = kept_rows r key s a (kept_body a.body) }

  abbrev pub run : PostRequest → Server → Server × Answer
  run r s = let (rest, a) = r.handle s.rest in (record s { rest = rest }, a)

  abbrev pub keep_run : PostRequest → Text → Server × Answer → Server × Answer
  keep_run r key (s, a) = (keep_answer r key s a, a)

  abbrev pub answer_or_run :
      PostRequest → Text → (Server → Server) → Server → Option StoredAnswer → Server × Answer
  answer_or_run r key meanwhile s (some stored) =
      (s, record { status = stored.status_code; body = some stored.body })
  answer_or_run r key meanwhile s none = keep_run r key (run r (meanwhile s))

  abbrev pub by_key : PostRequest → (Server → Server) → Server → Option Text → Server × Answer
  by_key r meanwhile s none = run r (meanwhile s)
  by_key r meanwhile s (some []) = run r (meanwhile s)
  by_key r meanwhile s (some (c ∷ key)) =
      answer_or_run r (c ∷ key) meanwhile s
        (lookup_idempotency_key s.answers r.organization_id (c ∷ key))

  unfoldable pub idempotency : PostRequest → (Server → Server) → Server → Server × Answer
  unfolding lookup_idempotency_key keep_answer
  idempotency r meanwhile s = if r.is_post then by_key r meanwhile s r.key else run r (meanwhile s)
