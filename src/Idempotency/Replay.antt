-- ===== src/Idempotency/Replay.antt =====
-- A key that was answered is answered alike.
use postbag.Common.{
  ℕ, ◌≡◌, ◌≢◌, refl, ap, subst, sym, ◌∙◌, Bool, true, false, Option, none, some, List, [], ◌∷◌,
  ◌++◌, Text, teq_refl, any, find, if◌then◌else◌, ==_iff, arith,
}
use postbag.Json.Values.{Value, null, bool, num, str, arr, obj}
use postbag.Idempotency.Middleware.{
  StoredAnswer, Answer, is_stored_for, lookup_idempotency_key, store_idempotency_key, Server,
  PostRequest, is_success, stored_answer, kept_body, kept_rows, keep_answer, run, by_key,
  answer_or_run, idempotency,
}

none-any : {A : Type 0} (p : A → Bool) (xs : List A) → find p xs ≡ none → any p xs ≡ false
none-any p [] h = refl
none-any p (x ∷ xs) h = ground (arith, none-any p xs)

find-behind :
    {A : Type 0} (p : A → Bool) (xs ys : List A) (a : A)
    → find p xs ≡ none
    → p a ≡ true
    → find p ((xs ++ (a ∷ [])) ++ ys) ≡ some a
find-behind p [] ys a h q = rw q refl
find-behind p (x ∷ xs) ys a h q = ground (arith, find-behind p xs ys a)

module _ (S : Type 0) (r : PostRequest S) (c : ℕ) (key : Text) (posts : r.is_post ≡ true)
    (keyed : r.key ≡ some (c ∷ key)) where
  -- The middleware goes by the look-up.
  by_look_up :
      (meanwhile : Server S → Server S) (s : Server S) (found : Option StoredAnswer)
      → lookup_idempotency_key s.answers r.organization_id (c ∷ key) ≡ found
      → idempotency S r meanwhile s ≡ answer_or_run S r (c ∷ key) meanwhile s found
  unfolding idempotency
  by_look_up meanwhile s found e =
      ap (λ b. if b then by_key S r meanwhile s r.key else run S r (meanwhile s)) posts
      ∙ ap (by_key S r meanwhile s) keyed
      ∙ ap (answer_or_run S r (c ∷ key) meanwhile s) e

not_null : (S : Type 0) (body : Value) → body ≢ null → kept_body S (some body) ≡ some body
not_null S null h = absurd (h refl)
not_null S (bool b) h = refl
not_null S (num n) h = refl
not_null S (str t) h = refl
not_null S (arr xs) h = refl
not_null S (obj fs) h = refl

-- The row that a successful run leaves is found again, behind whatever rows.
kept_found :
    (S : Type 0) (r : PostRequest S) (key : Text) (s : Server S) (a : Answer) (body : Value)
    (more : List StoredAnswer)
    → lookup_idempotency_key s.answers r.organization_id key ≡ none
    → is_success a.status ≡ true
    → a.body ≡ some body
    → body ≢ null
    → lookup_idempotency_key ((keep_answer S r key s a).answers ++ more) r.organization_id key
      ≡ some (stored_answer S r key a.status body)
unfolding lookup_idempotency_key keep_answer store_idempotency_key
kept_found S r key s a body more n ok b some_body =
    let free = none-any (is_stored_for r.organization_id key) s.answers n in
    let ours : is_stored_for r.organization_id key (stored_answer S r key a.status body) ≡ true =
      rw ((==_iff r.organization_id r.organization_id).1 refl, teq_refl key) refl in
    let stored_body : kept_body S a.body ≡ some body =
      ap (kept_body S) b ∙ not_null S body some_body in
    subst
      (λ o.
        lookup_idempotency_key (kept_rows S r key s a o ++ more) r.organization_id key
        ≡ some (stored_answer S r key a.status body))
      (sym stored_body)
      (rw (ok, free) (find-behind (is_stored_for r.organization_id key) s.answers more _ n ours))

-- A key that was answered with success and with JSON other than `null` is answered alike from then on: a later POST of the
-- organization with the key gets the stored answer and is not run, whatever its path, its body and
-- its handler are, however much later it comes, and whatever other answers were stored since. The first
-- request found no answer for its key, and none was stored until its handler ended.
pub idempotency-replays :
    (S : Type 0) (r again : PostRequest S) (c : ℕ) (key : Text)
    (meanwhile elsewhere : Server S → Server S) (s later : Server S) (body : Value)
    (more : List StoredAnswer)
    → r.is_post ≡ true
    → r.key ≡ some (c ∷ key)
    → again.is_post ≡ true
    → again.key ≡ some (c ∷ key)
    → again.organization_id ≡ r.organization_id
    → lookup_idempotency_key s.answers r.organization_id (c ∷ key) ≡ none
    → lookup_idempotency_key (meanwhile s).answers r.organization_id (c ∷ key) ≡ none
    → let (after, answer) = idempotency S r meanwhile s in
      is_success answer.status ≡ true
      → answer.body ≡ some body
      → body ≢ null
      → later.answers ≡ after.answers ++ more
      → idempotency S again elsewhere later ≡ (later, answer)
idempotency-replays S r again c key meanwhile elsewhere s later body more p k p2 k2 o n n2 fine b
      some_body l =
    let ran = run S r (meanwhile s) in
    let e = by_look_up S r c key p k meanwhile s none n in
    let fine' : is_success ran.1.status ≡ true = subst (λ x. is_success x.1.status ≡ true) e fine in
    let b' : ran.1.body ≡ some body = subst (λ x. x.1.body ≡ some body) e b in
    let l' : later.answers ≡ (keep_answer S r (c ∷ key) ran.0 ran.1).answers ++ more =
      subst (λ x. later.answers ≡ x.0.answers ++ more) e l in
    let g : lookup_idempotency_key later.answers again.organization_id (c ∷ key)
        ≡ some (stored_answer S r (c ∷ key) ran.1.status body) =
      ap (λ z. lookup_idempotency_key later.answers z (c ∷ key)) o
      ∙ ap (λ z. lookup_idempotency_key z r.organization_id (c ∷ key)) l'
      ∙ kept_found S r (c ∷ key) ran.0 ran.1 body more n2 fine' b' some_body in
    let alike : record { status = ran.1.status; body = some body } ≡ ran.1 =
      ap (λ z. record { status = ran.1.status; body = z }) (sym b') in
    by_look_up S again c key p2 k2 elsewhere later
      (some (stored_answer S r (c ∷ key) ran.1.status body)) g
    ∙ ap (λ a. (later, a)) (alike ∙ ap (λ x. x.1) (sym e))
