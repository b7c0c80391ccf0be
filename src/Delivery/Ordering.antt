-- ===== src/Delivery/Ordering.antt =====
-- A claim takes the oldest due rows, as many as it may.
use postbag.Common.{◌≡◌, true, List, [], ◌∷◌, All}
use postbag.Delivery.Types.{Delivery}
use postbag.Delivery.Claim.{comes_first}

abbrev pub Before : Delivery → Delivery → Type 0
Before d e = comes_first d e ≡ true

abbrev Sorted : List Delivery → Type 0
Sorted [] = Unit
Sorted (d ∷ ds) = All (Before d) ds × Sorted ds
