-- ===== src/Pagination/Coverage.antt =====
-- Following the cursors shows every row once where creation times are whole milliseconds, and
-- leaves rows out where they are not.
use postbag.Common.{
  ℕ, zero, suc, ◌+◌, ◌*◌, ◌/◌, ◌%◌, ◌≤◌, ◌<◌, ◌≡◌, refl, sym, ap, ◌∙◌, subst, Bool, true, false,
  ◌&&◌, ◌||◌, Option, none, some, List, [], ◌∷◌, ◌++◌, ◌==◌, ltb, arith, inl, inr, Bool-cases,
  length, length-append, length-take, take, drop, take-append-drop, keep, All, Has, Has-keep,
  Has-take,
}
use mathlib.Core.List.{append_assoc}
use postbag.Pagination.Pages.{
  Row, Cursor, cursor_of, beyond, in_range, Page, at_last, page, list_page, joined, collect,
}

-- `desc(createdAt), desc(id)`, without two rows alike
abbrev pub comes_after : Row → Row → Bool
comes_after x y = ltb y.created_at x.created_at || ((y.created_at == x.created_at) && ltb y.id x.id)

abbrev pub Descending : List Row → Type 0
Descending [] = Unit
Descending (x ∷ xs) = All (λ (y : Row). comes_after x y ≡ true) xs × Descending xs

abbrev pub Whole : List Row → Type 0
Whole rows = All (λ (r : Row). r.created_at % 1000 ≡ 0) rows

whole_lem : (t : ℕ) → t % 1000 ≡ 0 → t / 1000 * 1000 ≡ t
whole_lem t h = omega (arith, h)

beyond_after :
    (x y : Row) → x.created_at % 1000 ≡ 0 → comes_after x y ≡ true → beyond (cursor_of x) y ≡ true
beyond_after x y h e = let w = whole_lem x.created_at h in ground arith

not_beyond :
    (x y : Row) → x.created_at % 1000 ≡ 0 → comes_after y x ≡ true → beyond (cursor_of x) y ≡ false
not_beyond x y h e = let w = whole_lem x.created_at h in ground arith

not_beyond_self : (x : Row) → x.created_at % 1000 ≡ 0 → beyond (cursor_of x) x ≡ false
not_beyond_self x h = let w = whole_lem x.created_at h in ground arith

keep_behind :
    (x : Row) (rows : List Row)
    → x.created_at % 1000 ≡ 0
    → All (λ (y : Row). comes_after x y ≡ true) rows
    → keep (beyond (cursor_of x)) rows ≡ rows
keep_behind x [] h a = refl
keep_behind x (y ∷ rows) h a =
    rw (beyond_after x y h a.0) (ap (λ (r : List Row). y ∷ r) (keep_behind x rows h a.1))

-- The rows beyond a cursor are those behind its row.
keep_rest :
    (pre rest : List Row) (x : Row)
    → x.created_at % 1000 ≡ 0
    → Descending (pre ++ (x ∷ rest))
    → keep (beyond (cursor_of x)) (pre ++ (x ∷ rest)) ≡ rest
keep_rest [] rest x h d = rw (not_beyond_self x h) (keep_behind x rest h d.0)
keep_rest (y ∷ pre) rest x h d = rw (not_beyond x y h (middle pre d.0)) (keep_rest pre rest x h d.1)
  where
    middle :
        (pre : List Row)
        → All (λ (z : Row). comes_after y z ≡ true) (pre ++ (x ∷ rest))
        → comes_after y x ≡ true
    middle [] a = a.0
    middle (z ∷ pre) a = middle pre a.1

Whole-at : (pre rest : List Row) (x : Row) → Whole (pre ++ (x ∷ rest)) → x.created_at % 1000 ≡ 0
Whole-at [] rest x w = w.0
Whole-at (y ∷ pre) rest x w = Whole-at pre rest x w.1

-- The last row of a page that has another behind it.
last_of :
    (n : ℕ) (rows : List Row)
    → suc n < length rows
    → (pre : List Row) × (x : Row) × (rows ≡ pre ++ (x ∷ drop (suc n) rows))
      × (at_last (take (suc n) rows) ≡ some x)
last_of n [] h = absurd (omega arith)
last_of zero (x ∷ rows) h = ([], x, refl, refl)
last_of (suc n) (y ∷ []) h = absurd (omega arith)
last_of (suc n) (y ∷ z ∷ rows) h =
    let (pre, x, e, l) = last_of n (z ∷ rows) (omega arith) in
    (y ∷ pre, x, ap (λ (r : List Row). y ∷ r) e, l)

take_all : (m : ℕ) (xs : List Row) → length xs ≤ m → take m xs ≡ xs
take_all zero [] h = refl
take_all zero (x ∷ xs) h = absurd (omega arith)
take_all (suc m) [] h = refl
take_all (suc m) (x ∷ xs) h = ap (λ (r : List Row). x ∷ r) (take_all m xs (omega arith))

take-take : (m : ℕ) (xs : List Row) → take m (take (suc m) xs) ≡ take m xs
take-take zero xs = refl
take-take (suc m) [] = refl
take-take (suc m) (x ∷ xs) = ap (λ (r : List Row). x ∷ r) (take-take m xs)

last_page :
    (m : ℕ) (rest : List Row)
    → length rest ≤ m
    → page (take (suc m) rest) m ≡ record { rows = rest; next_cursor = none }
unfolding page
last_page m rest h =
    let t = take_all (suc m) rest (omega (arith, h)) in
    let l : ltb m (length rest) ≡ false = ground arith in rw (t, l) refl

full_page :
    (m : ℕ) (rest : List Row) (x : Row)
    → m < length rest
    → at_last (take m rest) ≡ some x
    → page (take (suc m) rest) m ≡ record { rows = take m rest; next_cursor = some (cursor_of x) }
unfolding page
full_page m rest x h e =
    let l : ltb m (length (take (suc m) rest)) ≡ true = ground (arith, length-take (suc m) rest) in
    rw (l, take-take m rest, e) refl

list_page_lem :
    (rows : List Row) (m : ℕ) (cursor : Option Cursor) (rest : List Row)
    → keep (in_range cursor) rows ≡ rest
    → list_page rows m cursor ≡ page (take (suc m) rest) m
unfolding list_page
list_page_lem rows m cursor rest k = let e : m + 1 ≡ suc m = omega arith in rw (k, e) refl

module _ (rows : List Row) (n : ℕ) (ordered : Descending rows) (whole : Whole rows) where
  collect_from :
      (fuel : ℕ) (pre rest : List Row) (cursor : Option Cursor)
      → rows ≡ pre ++ rest
      → keep (in_range cursor) rows ≡ rest
      → length rest ≤ fuel
      → collect rows (suc n) fuel cursor ≡ rest
  unfolding collect
  collect_from zero pre [] cursor e k l = refl
  collect_from zero pre (x ∷ rest) cursor e k l = absurd (omega arith)
  collect_from (suc fuel) pre rest cursor e k l = elim (Bool-cases (ltb (suc n) (length rest))) [
    | inr f ↦
        ap (λ (p : Page). joined p.rows p.next_cursor more)
          (list_page_lem rows (suc n) cursor rest k ∙ last_page (suc n) rest (ground arith))
    | inl f ↦
        let (init, x, s, t) = last_of n rest (ground arith) in
        let behind = drop (suc n) rest in
        let split : rows ≡ (pre ++ init) ++ (x ∷ behind) =
          e ∙ (ap (λ (r : List Row). pre ++ r) s ∙ sym (append_assoc pre init (x ∷ behind))) in
        let known =
          keep_rest (pre ++ init) behind x
            (Whole-at (pre ++ init) behind x (subst Whole split whole))
            (subst Descending split ordered) in
        ap (λ (p : Page). joined p.rows p.next_cursor more)
          (list_page_lem rows (suc n) cursor rest k ∙ full_page (suc n) rest x (ground arith) t)
        ∙ (ap (λ (r : List Row). take (suc n) rest ++ r)
              (collect_from fuel ((pre ++ init) ++ (x ∷ [])) behind (some (cursor_of x))
                (split ∙ sym (append_assoc (pre ++ init) (x ∷ []) behind))
                (ap (keep (beyond (cursor_of x))) split ∙ known) (shorter (ground arith)))
            ∙ take-append-drop (suc n) rest)
  ]
    where
      more : Cursor → List Row
      more c = collect rows (suc n) fuel (some c)

      shorter : suc n < length rest → length (drop (suc n) rest) ≤ fuel
      shorter h = omega (
        arith,
        h,
        l,
        ap length (take-append-drop (suc n) rest),
        length-append (take (suc n) rest) (drop (suc n) rest),
        length-take (suc n) rest,
      )

-- Where all creation times are whole milliseconds, a client that follows the cursors from the
-- start, for as many requests as there are rows, sees exactly the rows of the list, in their order.
pub collect_lem :
    (rows : List Row) (limit : ℕ)
    → Descending rows
    → Whole rows
    → 1 ≤ limit
    → collect rows limit (length rows) none ≡ rows
collect_lem rows zero d w h = absurd (omega arith)
collect_lem rows (suc n) d w h =
    collect_from rows n d w (length rows) [] rows none refl (keep_true rows) (omega arith)
  where
    keep_true : (rows : List Row) → keep (in_range none) rows ≡ rows
    keep_true [] = refl
    keep_true (x ∷ rows) = ap (λ (r : List Row). x ∷ r) (keep_true rows)

Has-page : (limit : ℕ) (xs : List Row) (r : Row) → Has r (page xs limit).rows → Has r xs
unfolding page
Has-page limit xs r m = elim (Bool-cases (ltb limit (length xs))) [
  | inl e ↦ Has-take limit xs r (rw e at m)
  | inr e ↦ rw e at m
]

-- A row that was created in the same millisecond as the row of a cursor, and not at its start, is
-- on no page behind that cursor, wherever it stands in the list.
pub same_millisecond_skipped :
    (rows : List Row) (limit : ℕ) (last r : Row)
    → last.created_at / 1000 ≡ r.created_at / 1000
    → 1 ≤ r.created_at % 1000
    → Has r (list_page rows limit (some (cursor_of last))).rows
    → ⊥
unfolding list_page
same_millisecond_skipped rows limit last r same inside m =
    let (_, e) =
      Has-keep (beyond (cursor_of last)) rows r (Has-take (limit + 1) _ r (Has-page limit _ r m)) in
    absurd (not_in e)
  where
    not_in : beyond (cursor_of last) r ≡ true → ⊥
    not_in e =
        let d : last.created_at / 1000 * 1000 < r.created_at = omega (arith, same, inside) in
        absurd (ground arith)
