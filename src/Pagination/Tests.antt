-- ===== src/Pagination/Tests.antt =====
-- Tests of pages, and the theorems at concrete inputs.
use postbag.Common.{ℕ, ◌≡◌, refl, none, some, List, [], ◌∷◌, arith, Has}
use postbag.Pagination.Pages.{Row, cursor_of, page, list_page, collect}
use postbag.Pagination.Coverage.{collect_lem, same_millisecond_skipped}

abbrev row : ℕ → ℕ → Row
row t k = record { created_at = t; id = k }

abbrev three : List Row
three = row 3000 1 ∷ row 2000 9 ∷ row 2000 4 ∷ []

collect_lem_example : collect three 1 3 none ≡ three
collect_lem_example =
    collect_lem three 1 ((refl, (refl, tt)), ((refl, tt), (tt, tt))) (omega arith) (omega arith)

-- Two deliveries of one submission, which one transaction gave the same moment.
abbrev twins : List Row
twins = row 2345 9 ∷ row 2345 4 ∷ []

test_first_page : (list_page twins 1 none).rows ≡ row 2345 9 ∷ []
unfolding list_page page
test_first_page = refl

test_left_out : collect twins 1 5 none ≡ row 2345 9 ∷ []
unfolding collect list_page page
test_left_out = refl

same_millisecond_skipped_example :
    Has (row 2345 4) (list_page twins 1 (some (cursor_of (row 2345 9)))).rows → ⊥
same_millisecond_skipped_example =
    same_millisecond_skipped twins 1 (row 2345 9) (row 2345 4) refl (omega arith)
