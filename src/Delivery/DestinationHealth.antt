-- ===== src/Delivery/DestinationHealth.antt =====
-- The health of a destination over a series of outcomes, `markDestinationOutcome` for each.
use postbag.Common.{
  ℕ, suc, ◌+◌, ◌≡◌, refl, ◌∙◌, Bool, true, false, Option, none, some, List, [], ◌∷◌, ◌++◌, leb,
  if◌then◌else◌, arith, count_of,
}
use postbag.Delivery.Types.{Destination, EventType, destination_failing, destination_recovered}
use postbag.Delivery.Process.{failing_threshold, is_failing, outcome_row}

abbrev append_some : List EventType → Option EventType → List EventType
append_some es none = es
append_some es (some e) = es ++ (e ∷ [])

-- The destination and the events after outcomes, the latest of which stands first.
pub run : Destination → List Bool → Destination × List EventType
run d [] = (d, [])
run d (worked ∷ earlier) =
    let (d', events) = run d earlier in
    let (d'', event) = outcome_row worked d' in (d'', append_some events event)

-- How many of the latest outcomes are failures, without a success between.
abbrev pub failures_in_a_row : List Bool → ℕ
failures_in_a_row [] = 0
failures_in_a_row (true ∷ earlier) = 0
failures_in_a_row (false ∷ earlier) = suc (failures_in_a_row earlier)

abbrev is_alert : EventType → Bool
is_alert destination_failing = true
is_alert _ = false

abbrev is_recovery : EventType → Bool
is_recovery destination_recovered = true
is_recovery _ = false

-- How many alerts and recoveries there are among the events.
abbrev pub alerts : List EventType → ℕ
alerts = count_of is_alert

abbrev pub recoveries : List EventType → ℕ
recoveries = count_of is_recovery

pub record IsNew (d : Destination) : Type 0 where
  pub no_failures : d.consecutive_failures ≡ 0
  pub not_failing : is_failing d.health ≡ false

outcome_row-failures :
    (d : Destination) (n : ℕ)
    → d.consecutive_failures ≡ n
    → is_failing d.health ≡ leb failing_threshold n
    → ((outcome_row false d).0.consecutive_failures ≡ suc n)
      × (is_failing (outcome_row false d).0.health ≡ leb failing_threshold (suc n))
      × ((outcome_row true d).0.consecutive_failures ≡ 0)
      × (is_failing (outcome_row true d).0.health ≡ false)
unfolding outcome_row
outcome_row-failures d n h k = ground arith

run_lem :
    (d : Destination) (outcomes : List Bool)
    → IsNew d
    → let after = (run d outcomes).0 in
      (after.consecutive_failures ≡ failures_in_a_row outcomes)
      × (is_failing after.health ≡ leb failing_threshold (failures_in_a_row outcomes))
unfolding run
run_lem d [] v = (v.no_failures, v.not_failing)
run_lem d (true ∷ outcomes) v =
    let (a, b) = run_lem d outcomes v in
    let k = outcome_row-failures (run d outcomes).0 (failures_in_a_row outcomes) a b in (k.2, k.3)
run_lem d (false ∷ outcomes) v =
    let (a, b) = run_lem d outcomes v in
    let k = outcome_row-failures (run d outcomes).0 (failures_in_a_row outcomes) a b in (k.0, k.1)

count-append_some :
    (p : EventType → Bool) (es : List EventType) (e : Option EventType)
    → count_of p (append_some es e) ≡ count_of p es + count_of p (append_some [] e)
count-append_some p es none = omega arith
count-append_some p [] (some e) = omega arith
count-append_some p (x ∷ es) (some e) = omega (arith, count-append_some p es (some e))

bit : Bool → ℕ
bit true = 1
bit false = 0

-- One outcome moves alerts, recoveries and the state together.
balance_step :
    (worked : Bool) (d : Destination)
    → alerts (append_some [] (outcome_row worked d).1) + bit (is_failing d.health)
      ≡ recoveries (append_some [] (outcome_row worked d).1)
        + bit (is_failing (outcome_row worked d).0.health)
unfolding outcome_row bit
balance_step true d = ground arith
balance_step false d = ground arith

balance :
    (d : Destination) (outcomes : List Bool)
    → IsNew d
    → alerts (run d outcomes).1
      ≡ recoveries (run d outcomes).1 + bit (is_failing (run d outcomes).0.health)
unfolding run
balance d [] v = rw (v.not_failing) (unfold bit in refl)
balance d (worked ∷ outcomes) v =
    let before = (run d outcomes).0 in
    omega (
      arith,
      balance d outcomes v,
      balance_step worked before,
      count-append_some is_alert (run d outcomes).1 (outcome_row worked before).1,
      count-append_some is_recovery (run d outcomes).1 (outcome_row worked before).1,
    )

-- From a destination without failures: its counter is the number of failures since the last
-- success; it is failing exactly from the fifth of these on; and there is one alert for each
-- recovery, and one more while it is failing.
pub run_health :
    (d : Destination) (outcomes : List Bool)
    → IsNew d
    → let (after, events) = run d outcomes in
      (after.consecutive_failures ≡ failures_in_a_row outcomes)
      × (is_failing after.health ≡ leb 5 (failures_in_a_row outcomes))
      × (alerts events ≡ recoveries events + (if leb 5 (failures_in_a_row outcomes) then 1 else 0))
run_health d outcomes v =
    let (a, b) = run_lem d outcomes v in
    (a, b, balance d outcomes v ∙ as_if (is_failing (run d outcomes).0.health) _ b)
  where
    as_if :
        (x y : Bool)
        → x ≡ y
        → recoveries (run d outcomes).1 + bit x
          ≡ recoveries (run d outcomes).1 + (if y then 1 else 0)
    as_if x y e = unfold bit in ground arith
