-- ===== src/Routing/Uniqueness.antt =====
-- What `planDeliveries` plans, and for which routes: against the description by `first_of`.
use postbag.Common.{◌≡◌, Bool, false, ◌||◌, not, List, [], ◌∷◌, ◌==◌, if◌then◌else◌, any}
use postbag.Routing.Types.{Key, DeliveryPlan}
use postbag.Routing.Plan.{Candidate}

abbrev pub holds : Key → List Key → Bool
holds k ks = any (λ j. j == k) ks

-- No route has two plans.
abbrev pub AllDifferent : List Key → Type 0
AllDifferent [] = Unit
AllDifferent (k ∷ ks) = (holds k ks ≡ false) × AllDifferent ks

abbrev pub route_ids : List DeliveryPlan → List Key
route_ids [] = []
route_ids (d ∷ ds) = d.route_id ∷ route_ids ds

-- The keys of the enabled routes that are not yet planned, each where it stands first.
abbrev pub first_enabled : List Key → List Candidate → List Key
first_enabled planned [] = []
first_enabled planned (c ∷ cs) =
    if not c.route.enabled || holds c.route.id planned
    then first_enabled planned cs
    else c.route.id ∷ first_enabled (c.route.id ∷ planned) cs
