-- ===== src/Submit/Verdict.antt =====
-- The status of a submission, as the handler of apps/server/src/routes/submit.ts decides it before
-- the transaction, and `decideCors` of apps/server/src/lib/cors.ts.
use postbag.Errors.{Result, ok, ◌>>=◌}
use postbag.Common.{
  ℕ, Bool, true, false, ◌&&◌, not, Option, none, some, List, [], ◌∷◌, Text, teq, any, leb,
  if◌then◌else◌, get_or_else, is_some,
}
use postbag.Json.Values.{Fields, obj}
use postbag.Routing.Types.{Key, SubmissionStatus, received, quarantined, spam}
use postbag.RateLimit.Buckets.{Rate, Limiter, consume}
use postbag.Schema.Drift.{DriftFinding, detect_drift}
use postbag.Submit.Types.{
  QuarantineReason, origin_rejected, rate_limited, turnstile_failed, schema_violation, Form,
  Settings, SchemaMode, observe, enforce, managed,
}

pub data CorsDecision : Type 0 where
  any_origin : CorsDecision
  this_origin : Text → CorsDecision
  no_origin : CorsDecision

abbrev pub same_origin : Option Text → Option Text → Bool
same_origin none o = false
same_origin (some s) none = false
same_origin (some s) (some t) = teq s t

-- `canonical_origin` is `new URL(value).origin`, or `none` where the text is no URL.
abbrev pub decide_some : (Text → Option Text) → Text → List Text → CorsDecision
decide_some canonical_origin origin allowed =
    if any (λ a. same_origin (canonical_origin a) (canonical_origin origin)) allowed
    then this_origin origin
    else no_origin

unfoldable pub decide_cors : (Text → Option Text) → Option Text → List Text → CorsDecision
decide_cors canonical_origin origin [] = any_origin
decide_cors canonical_origin none (a ∷ allowed) = no_origin
decide_cors canonical_origin (some origin) (a ∷ allowed) =
    decide_some canonical_origin origin (a ∷ allowed)

-- `status` and `quarantineReason`
pub record Verdict : Type 0 where
  pub status : SubmissionStatus
  pub reason : Option QuarantineReason

abbrev pub is_received : SubmissionStatus → Bool
is_received received = true
is_received quarantined = false
is_received spam = false

abbrev pub is_spam : SubmissionStatus → Bool
is_spam spam = true
is_spam received = false
is_spam quarantined = false

abbrev pub quarantine : QuarantineReason → Verdict
quarantine reason = record { status = quarantined; reason = some reason }

-- `spam.score >= 0.5`; scores are rounded to hundredths.
abbrev pub by_score : ℕ → Verdict
by_score hundredths =
    if leb 50 hundredths
    then record { status = spam; reason = none }
    else record { status = received; reason = none }

abbrev pub is_no_origin : CorsDecision → Bool
is_no_origin no_origin = true
is_no_origin any_origin = false
is_no_origin (this_origin o) = false

abbrev pub has_any : List Text → Bool
has_any [] = false
has_any (o ∷ os) = true

unfoldable pub check_origin : Settings → Option Text → CorsDecision → Verdict → Verdict
check_origin settings origin cors v =
    if not (is_spam v.status)
      && is_some origin
      && has_any settings.allowed_origins
      && is_no_origin cors
    then quarantine origin_rejected
    else v

-- `rateLimit.per_minute ?? 10` and `rateLimit.burst ?? 20`
abbrev pub rate_of : Settings → Rate
rate_of settings = record {
  num = get_or_else settings.per_minute 10;
  den = 1;
  burst = get_or_else settings.burst 20;
}

abbrev pub if_allowed : Verdict → Limiter × Bool → Limiter × Verdict
if_allowed v (l, allowed) = (l, (if allowed then v else quarantine rate_limited))

-- The limiter is asked about a received submission only; `bucket` is `${formId}:${ip}`.
unfoldable pub check_rate : Settings → Key → ℕ → Limiter → Verdict → Limiter × Verdict
unfolding consume
check_rate settings bucket now l v =
    if is_received v.status then if_allowed v (consume (rate_of settings) bucket now l) else (l, v)

-- `verified` is what `verifyTurnstile` gives: a token, and the service's answer for it.
unfoldable pub check_turnstile : Settings → Bool → Verdict → Verdict
check_turnstile settings verified v =
    if is_received v.status
      && settings.turnstile_enabled
      && settings.turnstile_secret
      && not verified
    then quarantine turnstile_failed
    else v

abbrev pub is_enforced : SchemaMode → Bool
is_enforced enforce = true
is_enforced managed = true
is_enforced observe = false

-- What `validateAgainstSchema` gives where the schema is asked for: it throws where the schema does not
-- compile. `validates` is its answer for the data.
unfoldable pub schema_answer : Form → (Fields → Result Bool) → Result Bool
schema_answer form validates = elim form.schema [
  | none ↦ ok true
  | some schema ↦ if is_enforced form.schema_mode then validates schema else ok true
]

unfoldable pub with_answer : Form → Fields → Verdict → Bool → Verdict × List DriftFinding
unfolding detect_drift
with_answer form fields v valid = elim form.schema [
  | none ↦ (v, [])
  | some schema ↦
      if is_enforced form.schema_mode
      then (if valid then (v, []) else (
        (if is_received v.status then quarantine schema_violation else v),
        detect_drift (obj fields) schema,
      ))
      else (v, detect_drift (obj fields) schema)
]

unfoldable pub check_schema :
    Form → Fields → (Fields → Result Bool) → Verdict → Result (Verdict × List DriftFinding)
unfolding schema_answer with_answer
check_schema form fields validates v = do
  valid ← schema_answer form validates
  ok (with_answer form fields v valid)

-- What the request and the services say of a submission.
pub record Evidence : Type 0 where
  pub origin : Option Text
  pub cors : CorsDecision
  pub score : ℕ
  pub bucket : Key
  pub at : ℕ
  pub verified : Bool
  pub validates : Fields → Result Bool

-- The limiter after it, and the verdict with the drift, or what the validation throws.
pub record Decided : Type 0 where
  pub limiter : Limiter
  pub outcome : Result (Verdict × List DriftFinding)

unfoldable pub then_check : Form → Settings → Fields → Evidence → Limiter × Verdict → Decided
unfolding check_turnstile check_schema
then_check form settings fields e (l, v) = record {
  limiter = l;
  outcome = check_schema form fields e.validates (check_turnstile settings e.verified v);
}

unfoldable pub decide : Form → Settings → Fields → Evidence → Limiter → Decided
unfolding check_origin check_rate then_check
decide form settings fields e l =
    then_check form settings fields e (
      check_rate settings e.bucket e.at l
        (check_origin settings e.origin e.cors (by_score e.score)))
