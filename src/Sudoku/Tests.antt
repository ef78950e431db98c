-- ===== src/Sudoku/Tests.antt =====
-- The board of solve.c, and a board that the check accepts though it is no sudoku.
use cprogramming.Prelude.{ℕ, zero, suc, ◌<◌, ◌≡◌, ◌↔◌, refl, true, false, [], ◌∷◌, ℤ, pos}
use cprogramming.Sudoku.Board.{Sudoku, Line, solved}
use cprogramming.Sudoku.{
  GridData, check_grid, check_lines, check_row, check_column, check_, check_values, values_from,
  board_at, check_elem,
}
use cprogramming.Sudoku.Whole.{BothLines, check_grid_lem}

abbrev start : Sudoku → GridData
start b = record { row = pos 9; column = pos 9; board = b; res = false }

solved_accepted : (check_grid (start solved)).0 ≡ true
unfolding check_grid check_lines check_row check_column check_ check_values values_from board_at
    check_elem
solved_accepted = refl

check_grid_lem_example :
    (((check_grid (start solved)).0 ≡ true) ↔ ((j : ℕ) → j < 9 → BothLines solved j))
    × ((check_grid (start solved)).1 ≡ record (start solved) { row = pos 9; column = pos 9 })
check_grid_lem_example = check_grid_lem (start solved)

-- Each line is the one above moved by one place.
abbrev moved : ℤ → Line → Line
moved v [] = v ∷ []
moved v (x ∷ l) = x ∷ moved v l

abbrev shifts : ℕ → Line → Sudoku
shifts zero l = []
shifts (suc n) [] = []
shifts (suc n) (x ∷ l) = (x ∷ l) ∷ shifts n (moved x l)

abbrev one_to_nine : Line
one_to_nine = pos 1 ∷ pos 2 ∷ pos 3 ∷ pos 4 ∷ pos 5 ∷ pos 6 ∷ pos 7 ∷ pos 8 ∷ pos 9 ∷ []

-- The square at the top left has the 2 and the 3 more than once, and yet the board is accepted.
squares_not_checked : (check_grid (start (shifts 9 one_to_nine))).0 ≡ true
unfolding check_grid check_lines check_row check_column check_ check_values values_from board_at
    check_elem
squares_not_checked = refl
