-- ===== src/Sandbox/Replay.antt =====
-- A repeated request has the answer of the first and changes nothing.
use postbag.Common.{
  ℕ, ◌≡◌, refl, sym, ap, subst, ◌∙◌, Bool, true, false, ◌&&◌, not, Option, none, some, List, [],
  ◌∷◌, ◌++◌, ◌==◌, leb, if◌then◌else◌, find, count_of, arith, inl, inr, Bool-cases,
}
use postbag.Errors.{
  Result, ok, err, ◌>>◌, throw_if, throw_if-ok, ok-injective, idempotency_conflict,
  sandbox_capacity_reached, rate_limited,
}
use postbag.Routing.Types.{Key}
use postbag.Sandbox.Store
use postbag.Sandbox.Store.{
  Sandbox, AnonymousSubmission, Db, Created, create_after, create_anonymous_sandbox, Accepted,
  accepted, unavailable, same_key, earlier, accept_fresh, accept_after, accept_anonymous_submission,
  is_live,
}

module _ {A : Type 0} (p : A → Bool) where
  find-append_some : (xs ys : List A) (a : A) → find p xs ≡ some a → find p (xs ++ ys) ≡ some a
  find-append_some [] ys a h = cc
  find-append_some (x ∷ xs) ys a h = ground (arith, find-append_some xs ys a)

  find-append_none : (xs ys : List A) → find p xs ≡ none → find p (xs ++ ys) ≡ find p ys
  find-append_none [] ys h = refl
  find-append_none (x ∷ xs) ys h = ground (arith, find-append_none xs ys)

-- What a fresh submission leaves for a repetition to find.
fresh_found :
    (row : AnonymousSubmission) (db : Db) (k id : Key) (b : Bool)
    → row.idempotency_key_hash ≡ some k
    → earlier row.sandbox_id (some k) db.submissions ≡ none
    → (accept_fresh row db).1 ≡ accepted id b
    → (r : AnonymousSubmission) × (earlier row.sandbox_id
          (some k)
          (accept_fresh row db).0.submissions
        ≡ some r)
      × (r.id ≡ id)
unfolding accept_fresh earlier
fresh_found row db k id b e n h = elim (Bool-cases (Store.room_for row db)) [
  | inl t ↦
      let u : accepted row.id false ≡ accepted id b = rw t at h in
      (
        row,
        rw t (
            find-append_none
              (λ (r : AnonymousSubmission).
                (r.sandbox_id == row.sandbox_id) && same_key r.idempotency_key_hash k)
              db.submissions (row ∷ []) n
            ∙ own),
        cc,
      )
  | inr t ↦
      let u : unavailable (find (λ (s : Sandbox). s.id == row.sandbox_id) db.sandboxes)
          ≡ accepted id b =
        rw t at h in
      cc
]
  where
    own :
        find
          (λ (r : AnonymousSubmission).
            (r.sandbox_id == row.sandbox_id) && same_key r.idempotency_key_hash k)
          (row ∷ [])
        ≡ some row
    own = ground arith

repeated :
    (o : Option AnonymousSubmission) (row : AnonymousSubmission) (db : Db) (k id : Key) (b : Bool)
    → row.idempotency_key_hash ≡ some k
    → earlier row.sandbox_id (some k) db.submissions ≡ o
    → (accept_after o row db).1 ≡ accepted id b
    → (r : AnonymousSubmission) × (earlier row.sandbox_id
          (some k)
          (accept_after o row db).0.submissions
        ≡ some r)
      × (r.id ≡ id)
unfolding accept_after
repeated (some r) row db k id b e n h = (r, n, cc)
repeated none row db k id b e n h = fresh_found row db k id b e n h

found_again :
    (o : Option AnonymousSubmission) (r row : AnonymousSubmission) (db : Db) (id : Key)
    → o ≡ some r
    → r.id ≡ id
    → accept_after o row db ≡ (db, accepted id true)
unfolding accept_after
found_again o r row db id e f =
    ap (λ (z : Option AnonymousSubmission). accept_after z row db) e
    ∙ ap (λ (i : Key). (db, accepted i true)) f

-- A submission with an idempotency key that was accepted is accepted again under the same
-- identifier, whatever its content, and changes no row.
pub accept_repeated :
    (row row' : AnonymousSubmission) (db : Db) (k id : Key) (b : Bool)
    → row.idempotency_key_hash ≡ some k
    → row'.idempotency_key_hash ≡ some k
    → row'.sandbox_id ≡ row.sandbox_id
    → (accept_anonymous_submission row db).1 ≡ accepted id b
    → let after = (accept_anonymous_submission row db).0 in
      accept_anonymous_submission row' after ≡ (after, accepted id true)
unfolding accept_anonymous_submission
accept_repeated row row' db k id b e e' q h =
    let o = earlier row.sandbox_id row.idempotency_key_hash db.submissions in
    let after = (accept_after o row db).0 in
    let (r, f, g) =
      repeated o row db k id b e
        (ap (λ (z : Option Key). earlier row.sandbox_id z db.submissions) (sym e)) h in
    let same =
      ap (λ (z : Key). earlier z row'.idempotency_key_hash after.submissions) q
      ∙ (ap (λ (z : Option Key). earlier row.sandbox_id z after.submissions) e' ∙ f) in
    found_again (earlier row'.sandbox_id row'.idempotency_key_hash after.submissions) r row' after
      id same g

-- What a creation leaves for a repetition to find.
created_found :
    (o : Option Sandbox) (input : Sandbox) (limit now : ℕ) (db : Db) (r : Db × Created)
    → find (λ (s : Sandbox). s.creation_key_hash == input.creation_key_hash) db.sandboxes ≡ o
    → create_after o input limit now db ≡ ok r
    → (find (λ (s : Sandbox). s.creation_key_hash == input.creation_key_hash) (r.0).sandboxes
        ≡ some (r.1).sandbox)
      × ((r.1).sandbox.request_body_hash ≡ input.request_body_hash)
unfolding create_after
created_found (some s) input limit now db r e h =
    let (t, k) =
      throw_if-ok (not (s.request_body_hash == input.request_body_hash)) idempotency_conflict _ h in
    subst
      (λ (z : Db × Created).
        (find (λ (x : Sandbox). x.creation_key_hash == input.creation_key_hash) (z.0).sandboxes
          ≡ some (z.1).sandbox)
        × ((z.1).sandbox.request_body_hash ≡ input.request_body_hash))
      (ok-injective k) (e, ground arith)
created_found none input limit now db r e h =
    let (_, k) =
      throw_if-ok (leb limit (count_of (is_live now) db.sandboxes)) sandbox_capacity_reached _ h in
    let (_, l) = throw_if-ok _ rate_limited _ k in
    subst
      (λ (z : Db × Created).
        (find (λ (x : Sandbox). x.creation_key_hash == input.creation_key_hash) (z.0).sandboxes
          ≡ some (z.1).sandbox)
        × ((z.1).sandbox.request_body_hash ≡ input.request_body_hash))
      (ok-injective l)
      (
        find-append_none (λ (x : Sandbox). x.creation_key_hash == input.creation_key_hash)
              db.sandboxes (input ∷ []) e
            ∙ own,
        refl,
      )
  where
    own :
        find (λ (x : Sandbox). x.creation_key_hash == input.creation_key_hash) (input ∷ [])
        ≡ some input
    own = ground arith

abbrev again : Sandbox → Db → Result (Db × Created)
again s db = ok (db, record { replayed = true; sandbox = s })

answer :
    (s input : Sandbox) (limit now : ℕ) (db : Db) (o : Option Sandbox)
    → o ≡ some s
    → create_after o input limit now db ≡ (
        if s.request_body_hash == input.request_body_hash
        then ok (db, record { replayed = true; sandbox = s })
        else err idempotency_conflict)
unfolding create_after
answer s input limit now db o e =
    ap (λ (z : Option Sandbox). create_after z input limit now db) e
    ∙ by_test (s.request_body_hash == input.request_body_hash)
  where
    by_test :
        (b : Bool)
        → (throw_if (not b) idempotency_conflict >> again s db)
          ≡ (if b then again s db else err idempotency_conflict)
    by_test true = refl
    by_test false = refl

-- After a creation succeeded, a creation under the same idempotency key gives the same sandbox
-- and changes nothing if the request is the same, and is a conflict if it is another.
pub create_repeated :
    (input input' : Sandbox) (limit limit' now now' : ℕ) (db : Db) (r : Db × Created)
    → input'.creation_key_hash ≡ input.creation_key_hash
    → create_anonymous_sandbox input limit now db ≡ ok r
    → create_anonymous_sandbox input' limit' now' (r.0) ≡ (
        if input.request_body_hash == input'.request_body_hash
        then ok (r.0, record { replayed = true; sandbox = (r.1).sandbox })
        else err idempotency_conflict)
unfolding create_anonymous_sandbox
create_repeated input input' limit limit' now now' db r q h =
    let (f, g) =
      created_found
        (find (λ (s : Sandbox). s.creation_key_hash == input.creation_key_hash) db.sandboxes) input
        limit now db r refl h in
    let same =
      ap (λ (z : Key). find (λ (s : Sandbox). s.creation_key_hash == z) (r.0).sandboxes) q ∙ f in
    answer (r.1).sandbox input' limit' now' (r.0)
      (find (λ (s : Sandbox). s.creation_key_hash == input'.creation_key_hash) (r.0).sandboxes) same
    ∙ ap
        (λ (z : Key).
          if z == input'.request_body_hash
          then ok (r.0, record { replayed = true; sandbox = (r.1).sandbox })
          else err idempotency_conflict)
        g
