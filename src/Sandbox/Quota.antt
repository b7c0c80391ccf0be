-- ===== src/Sandbox/Quota.antt =====
-- Every sandbox holds as many submissions as it counts, and at most five.
use postbag.Common.{
  ℕ, ◌+◌, ◌≤◌, ◌≡◌, refl, sym, subst, ◌∙◌, Bool, true, false, not, Option, none, some, List, [],
  ◌∷◌, ◌++◌, ◌==◌, ltb, leb, if◌then◌else◌, keep, find, modify, count_of, any, arith, Has, Has-any,
  any-Has, Has-keep, Has-append, Has-modify, inl, inr, Bool-cases, has_key, UniqueKeys, unique_key,
  UniqueKeys-modify, UniqueKeys-keep, UniqueKeys-append, count_of-append, count_of-keep,
  count_of-none,
}
use postbag.Errors.{
  ok, throw_if-ok, ok-injective, idempotency_conflict, sandbox_capacity_reached, rate_limited,
}
use postbag.Routing.Types.{Key}
use postbag.Sandbox.Store.{
  Sandbox, AnonymousSubmission, Db, Created, create_anonymous_sandbox, earlier, has_room, count_up,
  is_live, accept_fresh, accept_anonymous_submission, delete_expired, create_after, accept_after,
}

abbrev pub sandbox_id : Sandbox → Key
sandbox_id s = s.id

abbrev pub belongs : Key → AnonymousSubmission → Bool
belongs k r = r.sandbox_id == k

-- The submissions of a sandbox.
abbrev pub held : Key → List AnonymousSubmission → ℕ
held k rows = count_of (belongs k) rows

pub record IsSound (db : Db) : Type 0 where
  pub ids : UniqueKeys sandbox_id db.sandboxes
  pub quota :
      (s : Sandbox)
      → Has s db.sandboxes
      → (s.accepted_count ≤ 5) × (held s.id db.submissions ≡ s.accepted_count)

-- The count of one sandbox before and after a new row.
held_more :
    (k : Key) (rows : List AnonymousSubmission) (r : AnonymousSubmission)
    → held k (rows ++ (r ∷ [])) ≡ held k rows + (if r.sandbox_id == k then 1 else 0)
held_more k rows r = omega (arith, count_of-append (belongs k) rows (r ∷ []))

counted :
    (row : AnonymousSubmission) (db : Db)
    → IsSound db
    → any (has_room row.sandbox_id row.received_at) db.sandboxes ≡ true
    → (s : Sandbox) → Has s (modify (has_room row.sandbox_id row.received_at) count_up db.sandboxes)
    → (s.accepted_count ≤ 5) × (held s.id (db.submissions ++ (row ∷ [])) ≡ s.accepted_count)
counted row db v room s m =
    let (x, n, k) =
      Has-modify (has_room row.sandbox_id row.received_at) count_up db.sandboxes s m in
    let (q, h) = v.quota x n in
    let more = held_more x.id db.submissions row in
    elim k [
      | inl t ↦
          subst
            (λ (z : Sandbox).
              (z.accepted_count ≤ 5)
              × (held z.id (db.submissions ++ (row ∷ [])) ≡ z.accepted_count))
            (sym t.1) (ground arith)
      | inr t ↦
          subst
            (λ (z : Sandbox).
              (z.accepted_count ≤ 5)
              × (held z.id (db.submissions ++ (row ∷ [])) ≡ z.accepted_count))
            (sym t.1) (q, more ∙ rw (other_row x n t.0) (omega arith))
    ]
  where
    other_row :
        (x : Sandbox)
        → Has x db.sandboxes
        → has_room row.sandbox_id row.received_at x ≡ false
        → (row.sandbox_id == x.id) ≡ false
    other_row x n f = elim (Bool-cases (row.sandbox_id == x.id)) [
      | inr e ↦ e
      | inl e ↦
          let (y, j, g) = any-Has (has_room row.sandbox_id row.received_at) db.sandboxes room in
          let same : y ≡ x = unique_key sandbox_id db.sandboxes y x v.ids j n (ground arith) in
          absurd (cc (subst (λ z. has_room row.sandbox_id row.received_at z ≡ true) same g, f))
    ]

accept_fresh-IsSound :
    (row : AnonymousSubmission) (db : Db) → IsSound db → IsSound (accept_fresh row db).0
unfolding accept_fresh
accept_fresh-IsSound row db v =
    elim (Bool-cases (any (has_room row.sandbox_id row.received_at) db.sandboxes)) [
      | inl e ↦ rw e (record {
        ids =
            UniqueKeys-modify sandbox_id (has_room row.sandbox_id row.received_at) count_up
              (λ s. refl) db.sandboxes v.ids;
        quota = counted row db v e;
      })
      | inr e ↦ rw e v
    ]

accept_after-IsSound :
    (e : Option AnonymousSubmission) (row : AnonymousSubmission) (db : Db)
    → IsSound db
    → IsSound (accept_after e row db).0
unfolding accept_after
accept_after-IsSound (some r) row db v = v
accept_after-IsSound none row db v = accept_fresh-IsSound row db v

accept-IsSound :
    (row : AnonymousSubmission) (db : Db)
    → IsSound db
    → IsSound (accept_anonymous_submission row db).0
unfolding accept_anonymous_submission
accept-IsSound row db v =
    accept_after-IsSound (earlier row.sandbox_id row.idempotency_key_hash db.submissions) row db v

delete-IsSound : (now : ℕ) (db : Db) → IsSound db → IsSound (delete_expired now db)
unfolding delete_expired
delete-IsSound now db v =
    let stays : Sandbox → Bool = λ s. not (ltb s.expires_at now) in
    let left = keep stays db.sandboxes in
    record {
      ids = UniqueKeys-keep sandbox_id stays db.sandboxes v.ids;
      quota = λ s m.
          let (n, t) = Has-keep stays db.sandboxes s m in
          let (q, h) = v.quota s n in
          (
            q,
            count_of-keep (belongs s.id)
                  (λ (r : AnonymousSubmission). any (λ (x : Sandbox). x.id == r.sandbox_id) left)
                  (λ r e. Has-any (λ (x : Sandbox). x.id == r.sandbox_id) left s m (ground arith))
                  db.submissions
                ∙ h,
          );
    }

-- A new row whose identifier is nowhere yet.
pub record IsFresh (input : Sandbox) (db : Db) : Type 0 where
  pub unused : has_key sandbox_id db.sandboxes input.id ≡ false
  pub empty : any (belongs input.id) db.submissions ≡ false
  pub uncounted : input.accepted_count ≡ 0

inserted-IsSound :
    (input : Sandbox) (db : Db)
    → IsFresh input db
    → IsSound db
    → IsSound (record db { sandboxes = db.sandboxes ++ (input ∷ []) })
inserted-IsSound input db f v = record {
  ids = UniqueKeys-append sandbox_id db.sandboxes input v.ids f.unused;
  quota = λ s m. elim (Has-append db.sandboxes (input ∷ []) s m) [
    | inl n ↦ v.quota s n
    | inr (inl e) ↦
        subst
          (λ (z : Sandbox). (z.accepted_count ≤ 5) × (held z.id db.submissions ≡ z.accepted_count))
          e
          (
            omega (arith, f.uncounted),
            count_of-none (belongs input.id) db.submissions f.empty ∙ sym f.uncounted,
          )
    | inr (inr n) ↦ absurd n
  ];
}

create_after-IsSound :
    (e : Option Sandbox) (input : Sandbox) (limit now : ℕ) (db : Db) (r : Db × Created)
    → IsFresh input db
    → IsSound db
    → create_after e input limit now db ≡ ok r
    → IsSound r.0
unfolding create_after
create_after-IsSound (some s) input limit now db r f v h =
    let (_, k) =
      throw_if-ok (not (s.request_body_hash == input.request_body_hash)) idempotency_conflict _ h in
    subst (λ (z : Db × Created). IsSound z.0) (ok-injective k) v
create_after-IsSound none input limit now db r f v h =
    let (_, k) =
      throw_if-ok (leb limit (count_of (is_live now) db.sandboxes)) sandbox_capacity_reached _ h in
    let (_, l) = throw_if-ok _ rate_limited _ k in
    subst (λ (z : Db × Created). IsSound z.0) (ok-injective l) (inserted-IsSound input db f v)

-- The transactions of the program on these rows, in any order.
pub data Step : Db → Db → Type 0 where
  create :
      (input : Sandbox) (limit now : ℕ) (db : Db) (r : Db × Created)
      → IsFresh input db
      → create_anonymous_sandbox input limit now db ≡ ok r
      → Step db r.0
  accept : (row : AnonymousSubmission) (db : Db) → Step db (accept_anonymous_submission row db).0
  clean : (now : ℕ) (db : Db) → Step db (delete_expired now db)

pub data Reach (db : Db) : Db → Type 0 where
  here : Reach db db
  next : {a b : Db} → Reach db a → Step a b → Reach db b

Step-IsSound : {a b : Db} → Step a b → IsSound a → IsSound b
unfolding create_anonymous_sandbox
Step-IsSound (create input limit now db r f h) v =
    create_after-IsSound
      (find (λ (s : Sandbox). s.creation_key_hash == input.creation_key_hash) db.sandboxes) input
      limit now db r f v h
Step-IsSound (accept row db) v = accept-IsSound row db v
Step-IsSound (clean now db) v = delete-IsSound now db v

-- From rows that are sound (identifiers differ, and each sandbox counts its submissions, at most
-- five), every series of creations, submissions and cleanups leads to rows that are sound.
pub Reach-IsSound : {a b : Db} → Reach a b → IsSound a → IsSound b
Reach-IsSound here v = v
Reach-IsSound (next r s) v = Step-IsSound s (Reach-IsSound r v)
