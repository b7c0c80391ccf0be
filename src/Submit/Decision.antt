-- ===== src/Submit/Decision.antt =====
-- The status of a submission against a list of reasons, the first of which decides.
use postbag.Schema.Drift.{DriftFinding, detect_drift}
use postbag.Common.{
  ◌≡◌, refl, ap, ◌∙◌, inl, inr, Bool, true, false, ◌&&◌, ◌||◌, not, Option, none, some, leb,
  is_some, Bool-cases, if◌then◌else◌, arith, List, [],
}
use postbag.Errors.{ErrorCode, Result, err, ok, ◌>>=◌}
use postbag.Json.Values.{Fields, obj}
use postbag.Routing.Types.{received, spam}
use postbag.RateLimit.Buckets.{Limiter, consume}
use postbag.Submit.Types.{
  Form, Settings, origin_rejected, rate_limited, turnstile_failed, schema_violation,
}
use postbag.Submit.Verdict.{
  Verdict, Evidence, decide, quarantine, rate_of, has_any, is_no_origin, is_enforced, then_check,
  check_origin, check_rate, check_turnstile, schema_answer, with_answer, check_schema, if_allowed,
  by_score, is_received,
}

abbrev pub refuses_origin : Settings → Evidence → Bool
refuses_origin settings e =
    is_some e.origin && has_any settings.allowed_origins && is_no_origin e.cors

abbrev pub refuses_turnstile : Settings → Evidence → Bool
refuses_turnstile settings e =
    settings.turnstile_enabled && settings.turnstile_secret && not e.verified

-- The reasons in their order; `allowed` is the limiter's answer, and `valid` the schema's.
abbrev pub first_reason : Settings → Evidence → Bool → Bool → Verdict
first_reason settings e allowed valid =
    if leb 50 e.score
    then record { status = spam; reason = none }
    else if refuses_origin settings e
    then quarantine origin_rejected
    else if not allowed
    then quarantine rate_limited
    else if refuses_turnstile settings e
    then quarantine turnstile_failed
    else if not valid
    then quarantine schema_violation
    else record { status = received; reason = none }

abbrev pub verdict_in : Result (Verdict × List DriftFinding) → Result Verdict
verdict_in (err thrown) = err thrown
verdict_in (ok (v, drift)) = ok v

-- The schema does not change a verdict that is already against the submission.
with_answer-verdict :
    (form : Form) (fields : Fields) (e : Evidence) (v : Verdict) (valid : Bool)
    → schema_answer form e.validates ≡ ok valid
    → (with_answer form fields v valid).0
      ≡ (if not valid && is_received v.status then quarantine schema_violation else v)
unfolding with_answer schema_answer
with_answer-verdict form fields e v valid = of_schema form.schema
  where
    of_schema :
        (o : Option Fields)
        → (elim o as (λ x. Result Bool) [
          | none ↦ ok true
          | some schema ↦ if is_enforced form.schema_mode then e.validates schema else ok true
        ])
          ≡ ok valid
        → (elim o as (λ x. Verdict × List DriftFinding) [
          | none ↦ (v, [])
          | some schema ↦
              if is_enforced form.schema_mode
              then (if valid then (v, []) else (
                (if is_received v.status then quarantine schema_violation else v),
                detect_drift (obj fields) schema,
              ))
              else (v, detect_drift (obj fields) schema)
        ]).0
          ≡ (if not valid && is_received v.status then quarantine schema_violation else v)
    of_schema none h = ground arith
    of_schema (some schema) h = ground arith

-- From the limiter's answer on.
rest_of : Settings → Evidence → Bool → Verdict → Verdict
unfolding check_turnstile
rest_of settings e valid v =
    let t = check_turnstile settings e.verified v in
    if not valid && is_received t.status then quarantine schema_violation else t

rest_of-against :
    (settings : Settings) (e : Evidence) (valid : Bool) (v : Verdict)
    → is_received v.status ≡ false
    → rest_of settings e valid v ≡ v
unfolding rest_of
rest_of-against settings e valid v h = ground arith

rest_of-received :
    (settings : Settings) (e : Evidence) (valid : Bool)
    → rest_of settings e valid (record { status = received; reason = none }) ≡ (
        if refuses_turnstile settings e
        then quarantine turnstile_failed
        else if not valid
        then quarantine schema_violation
        else record { status = received; reason = none })
unfolding rest_of
rest_of-received settings e valid = ground arith

after_origin : (settings : Settings) (e : Evidence) → Verdict
after_origin settings e =
    if leb 50 e.score
    then record { status = spam; reason = none }
    else if refuses_origin settings e
    then quarantine origin_rejected
    else record { status = received; reason = none }

check_origin-after_origin :
    (settings : Settings) (e : Evidence)
    → check_origin settings e.origin e.cors (by_score e.score) ≡ after_origin settings e
unfolding check_origin after_origin
check_origin-after_origin settings e = ground arith

limiter_after :
    (settings : Settings) (e : Evidence) (l : Limiter)
    → (check_rate settings e.bucket e.at l (after_origin settings e)).0 ≡ (
        if leb 50 e.score || refuses_origin settings e
        then l
        else (consume (rate_of settings) e.bucket e.at l).0)
unfolding check_rate after_origin
limiter_after settings e l = elim (Bool-cases (leb 50 e.score)) [
  | inl s ↦ rw s refl
  | inr s ↦ elim (Bool-cases (refuses_origin settings e)) [
    | inl o ↦ rw (s, o) refl
    | inr o ↦ rw (s, o) refl
  ]
]

module _ (form : Form) (settings : Settings) (fields : Fields) (e : Evidence) (valid : Bool)
    (answered : schema_answer form e.validates ≡ ok valid) where
  then_check-rest_of :
      (l : Limiter) (v : Verdict)
      → verdict_in (then_check form settings fields e (l, v)).outcome
        ≡ ok (rest_of settings e valid v)
  unfolding then_check rest_of check_schema
  then_check-rest_of l v =
      let t = check_turnstile settings e.verified v in
      ap (λ r. verdict_in (r >>= λ b. ok (with_answer form fields t b))) answered
      ∙ ap ok (with_answer-verdict form fields e t valid answered)

  -- The verdict behind `check_rate`.
  behind_rate_against :
      (l : Limiter) (v : Verdict)
      → is_received v.status ≡ false
      → verdict_in
          (then_check form settings fields e (check_rate settings e.bucket e.at l v)).outcome
        ≡ ok v
  unfolding check_rate
  behind_rate_against l v g =
      rw g (then_check-rest_of l v ∙ ap ok (rest_of-against settings e valid v g))

  behind_rate_received :
      (l : Limiter) (asked : Limiter × Bool)
      → consume (rate_of settings) e.bucket e.at l ≡ asked
      → let v : Verdict = record { status = received; reason = none } in
        verdict_in
          (then_check form settings fields e (check_rate settings e.bucket e.at l v)).outcome
        ≡ ok (rest_of settings e valid (if asked.1 then v else quarantine rate_limited))
  unfolding check_rate
  behind_rate_received l (l', allowed) h =
      let v : Verdict = record { status = received; reason = none } in
      ap (λ x. verdict_in (then_check form settings fields e (if_allowed v x)).outcome) h
      ∙ then_check-rest_of l' (if allowed then v else quarantine rate_limited)

  decided_from :
      (l : Limiter) (asked : Limiter × Bool)
      → consume (rate_of settings) e.bucket e.at l ≡ asked
      → verdict_in
          (then_check form settings fields e
            (check_rate settings e.bucket e.at l (after_origin settings e))).outcome
        ≡ ok (first_reason settings e asked.1 valid)
  unfolding after_origin
  decided_from l asked h = elim (Bool-cases (leb 50 e.score)) [
    | inl s ↦ rw s (behind_rate_against l (record { status = spam; reason = none }) refl)
    | inr s ↦ elim (Bool-cases (refuses_origin settings e)) [
      | inl o ↦ rw (s, o) (behind_rate_against l (quarantine origin_rejected) refl)
      | inr o ↦
          let a = behind_rate_received l asked h in
          rw (s, o)
            (elim (Bool-cases asked.1) [
              | inl q ↦ rw q (rw q at a ∙ ap ok (rest_of-received settings e valid))
              | inr q ↦ rw q (
                  rw q at a
                  ∙ ap ok (rest_of-against settings e valid (quarantine rate_limited) refl))
            ])
    ]
  ]

thrown :
    (form : Form) (settings : Settings) (fields : Fields) (e : Evidence) (x : ErrorCode)
    → schema_answer form e.validates ≡ err x
    → (asked : Limiter × Verdict)
    → verdict_in (then_check form settings fields e asked).outcome ≡ err x
unfolding then_check check_schema
thrown form settings fields e x q (l, v) =
    ap
      (λ (r : Result Bool).
        verdict_in
          (r >>= λ b. ok (with_answer form fields (check_turnstile settings e.verified v) b)))
      q

-- A submission's status and reason are those of the first of these that holds, and it is received
-- where none does: a spam score of half or more; an origin outside the form's list; the rate limiter's
-- refusal; a Turnstile token that does not verify, where the form asks for one; data that an enforced
-- or managed schema does not allow. Where such a schema does not compile the handler throws instead,
-- whatever the rest says. The limiter is asked, and its state changed, only where the first two do not
-- hold.
pub decide_lem :
    (form : Form) (settings : Settings) (fields : Fields) (e : Evidence) (l : Limiter)
    → let asked = consume (rate_of settings) e.bucket e.at l in
      let d = decide form settings fields e l in
      (verdict_in d.outcome
        ≡ (schema_answer form e.validates >>= λ valid. ok (first_reason settings e asked.1 valid)))
      × (d.limiter ≡ (if leb 50 e.score || refuses_origin settings e then l else asked.0))
unfolding decide then_check
decide_lem form settings fields e l =
    let o = check_origin-after_origin settings e in
    (
      ap
            (λ v.
              verdict_in
                (then_check form settings fields e (check_rate settings e.bucket e.at l v)).outcome)
            o
          ∙ answer (schema_answer form e.validates) refl,
      ap (λ v. (check_rate settings e.bucket e.at l v).0) o ∙ limiter_after settings e l,
    )
  where
    answer :
        (r : Result Bool)
        → schema_answer form e.validates ≡ r
        → verdict_in
            (then_check form settings fields e
              (check_rate settings e.bucket e.at l (after_origin settings e))).outcome
          ≡ (r >>= λ valid.
              ok (first_reason settings e (consume (rate_of settings) e.bucket e.at l).1 valid))
    answer (ok valid) q =
        decided_from form settings fields e valid q l (consume (rate_of settings) e.bucket e.at l)
          refl
    answer (err x) q =
        thrown form settings fields e x q
          (check_rate settings e.bucket e.at l (after_origin settings e))
