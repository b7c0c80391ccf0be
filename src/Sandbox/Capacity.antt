-- ===== src/Sandbox/Capacity.antt =====
-- The limits on sandboxes that are active and not expired.
use postbag.Common.{
  ℕ, ◌≤◌, ◌≡◌, subst, Bool, false, ◌&&◌, not, Option, none, some, List, [], ◌∷◌, ◌++◌, ◌==◌, leb,
  find, count_of, arith, count_of-append,
}
use postbag.Errors.{
  ok, throw_if-ok, ok-injective, idempotency_conflict, sandbox_capacity_reached, rate_limited,
}
use postbag.Routing.Types.{Key}
use postbag.Sandbox.Store.{Sandbox, Db, Created, create_after, create_anonymous_sandbox, is_live}

abbrev pub live : ℕ → Db → ℕ
live now db = count_of (is_live now) db.sandboxes

abbrev pub live_of : Key → ℕ → Db → ℕ
live_of source now db =
    count_of (λ (s : Sandbox). (s.abuse_source_key == source) && is_live now s) db.sandboxes

one_more :
    (p : Sandbox → Bool) (xs : List Sandbox) (s : Sandbox) (n : ℕ)
    → leb n (count_of p xs) ≡ false
    → count_of p (xs ++ (s ∷ [])) ≤ n
one_more p xs s n h = ground (arith, count_of-append p xs (s ∷ []))

created_within :
    (o : Option Sandbox) (input : Sandbox) (limit now : ℕ) (db : Db) (r : Db × Created)
    → create_after o input limit now db ≡ ok r
    → (r.1).replayed ≡ false
    → (live now (r.0) ≤ limit) × (live_of input.abuse_source_key now (r.0) ≤ 20)
unfolding create_after
created_within (some s) input limit now db r h f =
    let (_, k) =
      throw_if-ok (not (s.request_body_hash == input.request_body_hash)) idempotency_conflict _ h in
    absurd (cc (ok-injective k, f))
created_within none input limit now db r h f =
    let (a, k) = throw_if-ok (leb limit (live now db)) sandbox_capacity_reached _ h in
    let (b, l) = throw_if-ok (leb 20 (live_of input.abuse_source_key now db)) rate_limited _ k in
    subst
      (λ (z : Db × Created).
        (live now (z.0) ≤ limit) × (live_of input.abuse_source_key now (z.0) ≤ 20))
      (ok-injective l)
      (one_more (is_live now) db.sandboxes input limit a, one_more _ db.sandboxes input 20 b)

-- A creation that is no replay leaves at most as many live sandboxes as the global limit allows,
-- and at most twenty from its source.
pub create_within_limits :
    (input : Sandbox) (limit now : ℕ) (db : Db) (r : Db × Created)
    → create_anonymous_sandbox input limit now db ≡ ok r
    → (r.1).replayed ≡ false
    → (live now (r.0) ≤ limit) × (live_of input.abuse_source_key now (r.0) ≤ 20)
unfolding create_anonymous_sandbox
create_within_limits input limit now db r h f =
    created_within
      (find (λ (s : Sandbox). s.creation_key_hash == input.creation_key_hash) db.sandboxes) input
      limit now db r h f
