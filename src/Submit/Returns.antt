-- ===== src/Submit/Returns.antt =====
-- That the transaction which stores a submission comes to its end.
use postbag.Common.{
  ◌≡◌, Bool, false, ◌||◌, not, Option, none, some, List, any, ◌==◌, All, length, count_of,
}
use postbag.Errors.{ok, Result}
use postbag.Json.Values.{Value}
use postbag.Mapping.Apply.{Mapping}
use postbag.Routing.Types.{DeliveryPlan}
use postbag.Submit.Types.{Db}
use postbag.Submit.Requests.{Request}
use postbag.Submit.Store.{has_files, is_reserved, is_dedupe}

-- What the database and the mappings must allow for the rows of plans.
abbrev Free : Request → List DeliveryPlan → Db → Type 0
Free r plans db =
    All (λ (p : DeliveryPlan). any (is_dedupe r.id p.route_id) db.deliveries ≡ false) plans

-- No entry of the mapping is an expression.
abbrev pub Plain : Option Mapping → Type 0
Plain none = Unit
Plain (some mapping) = any (λ e. e.1.has_expr) mapping ≡ false

-- A schema that compiles: the validation answers for every value.
abbrev pub Compiles : (Value → Result Bool) → Type 0
Compiles validate = (v : Value) → (valid : Bool) × (validate v ≡ ok valid)

-- Every file of the request has its reservation.
abbrev pub is_reserved_whole : Request → Db → Bool
is_reserved_whole r db =
    not (has_files r.attachments)
    || (count_of (is_reserved r.attachments) db.object_deletions == length r.attachments)
