-- ===== src/Errors.antt =====
-- packages/core/src/errors.ts: the error codes with their HTTP statuses, and the result of code
-- that may throw a `PostbagError`. Hints, messages and details carry no behaviour and are left out.
use postbag.Common.{ℕ, ◌≡◌, refl, Bool, true, false, Option, none, some}

pub data ErrorCode : Type 0 where
  not_found forbidden unauthorized validation_failed : ErrorCode
  mapping_incomplete stream_schema_missing schema_violation : ErrorCode
  payload_too_large unsupported_media_type attachment_too_large : ErrorCode
  attachment_limit_reached attachment_storage_limit_reached : ErrorCode
  attachment_storage_unavailable rate_limited origin_rejected : ErrorCode
  idempotency_conflict anonymous_quickstart_disabled sandbox_unauthorized : ErrorCode
  sandbox_expired sandbox_limit_reached sandbox_claimed sandbox_claim_email_mismatch : ErrorCode
  sandbox_capacity_reached conflict plan_limit_reached billing_disabled : ErrorCode
  billing_product_unavailable grant_not_found grant_expired grant_revoked : ErrorCode
  grant_exhausted plan_is_billing plan_not_upgrade plan_is_complimentary : ErrorCode
  expressions_not_enabled invitation_expired invitation_already_used : ErrorCode
  invitation_email_mismatch last_owner internal_error : ErrorCode

-- The `status` of `ERROR_DEFINITIONS`.
unfoldable pub status : ErrorCode → ℕ
status not_found = 404
status forbidden = 403
status unauthorized = 401
status validation_failed = 422
status mapping_incomplete = 422
status stream_schema_missing = 422
status schema_violation = 422
status payload_too_large = 413
status unsupported_media_type = 415
status attachment_too_large = 413
status attachment_limit_reached = 413
status attachment_storage_limit_reached = 402
status attachment_storage_unavailable = 503
status rate_limited = 429
status origin_rejected = 403
status idempotency_conflict = 409
status anonymous_quickstart_disabled = 503
status sandbox_unauthorized = 401
status sandbox_expired = 410
status sandbox_limit_reached = 409
status sandbox_claimed = 410
status sandbox_claim_email_mismatch = 403
status sandbox_capacity_reached = 503
status conflict = 409
status plan_limit_reached = 402
status billing_disabled = 501
status billing_product_unavailable = 422
status grant_not_found = 404
status grant_expired = 410
status grant_revoked = 410
status grant_exhausted = 410
status plan_is_billing = 409
status plan_not_upgrade = 409
status plan_is_complimentary = 409
status expressions_not_enabled = 422
status invitation_expired = 410
status invitation_already_used = 409
status invitation_email_mismatch = 403
status last_owner = 409
status internal_error = 500

-- What a call gives: the code of what it throws, or its value.
pub data Result {ℓ} (T : Type ℓ) : Type ℓ where
  err : (thrown : ErrorCode) → Result T
  ok : (value : T) → Result T

infixl 6 ◌>>=◌ ◌>>◌
abbrev pub ◌>>=◌ {ℓ ρ} : {T : Type ℓ} {U : Type ρ} → Result T → (T → Result U) → Result U
◌>>=◌ call rest = elim call [ err thrown ↦ err thrown | ok value ↦ rest value ]

abbrev pub ◌>>◌ {ρ} : {U : Type ρ} → Result (Unit {0}) → Result U → Result U
◌>>◌ check rest = elim check [ err thrown ↦ err thrown | ok _ ↦ rest ]

-- `if (b) throw new PostbagError(e)`
abbrev pub throw_if : Bool → ErrorCode → Result (Unit {0})
throw_if true e = err e
throw_if false e = ok tt

-- A row that a query must find.
abbrev pub found_or {ℓ} : {A : Type ℓ} → ErrorCode → Option A → Result A
found_or e none = err e
found_or e (some a) = ok a

-- A block that returns got a value from its first call.
pub >>=-ok {ℓ ρ} :
    {T : Type ℓ} {U : Type ρ} (call : Result T) (rest : T → Result U) {u : U}
    → (call >>= rest) ≡ ok u
    → (t : T) × (call ≡ ok t) × (rest t ≡ ok u)
>>=-ok (err thrown) rest returned = cc
>>=-ok (ok t) rest returned = (t, refl, returned)

-- Code behind a guard returned, so the guard did not throw.
pub throw_if-ok {ρ} :
    {U : Type ρ} (b : Bool) (e : ErrorCode) (rest : Result U) {u : U}
    → (throw_if b e >> rest) ≡ ok u
    → (b ≡ false) × (rest ≡ ok u)
throw_if-ok true e rest h = cc
throw_if-ok false e rest h = (refl, h)

pub ok-injective {ρ} : {U : Type ρ} {a b : U} → ok a ≡ ok b → a ≡ b
ok-injective h = cc
