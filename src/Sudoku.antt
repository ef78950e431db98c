-- ===== src/Sudoku.antt =====
-- The check of a sudoku, sudoku.c of 9.sudoku, and the board of solve.c there. A board is its lines,
-- each a list of elements.
pub mod Board
pub mod Lines
pub mod Whole
mod Tests
use cprogramming.Prelude.{
  ℕ, zero, suc, ◌+◌, ◌-◌, Bool, true, false, not, ◌&&◌, ◌||◌, List, [], ◌∷◌, ◌==◌, if◌then◌else◌,
  get_or, set, ℤ, pos, negsuc, leb_ℤ, eq_ℤ,
}
use cprogramming.Sudoku.Board.{Line, Sudoku}

abbrev pub grid_size : ℕ
grid_size = 9

unfoldable pub check_elem : ℤ → Bool
check_elem val = leb_ℤ (pos 1) val && leb_ℤ val (pos 9)

-- `total` is what has been seen: the entry below a value is 0, or the value.
abbrev pub slot : ℤ → ℕ
slot (pos n) = n - 1
slot (negsuc n) = 0

unfoldable pub board_at : Sudoku → ℕ → ℕ → ℤ
board_at board row col = get_or (get_or board row []) col (pos 0)

abbrev pub value_at : Sudoku → Bool → ℕ → ℕ → ℤ
value_at board row_on row_col i =
    if row_on then board_at board row_col i else board_at board i row_col

-- The loop of check_ over the values, given those seen.
unfoldable pub check_values : List ℤ → List ℤ → Bool
check_values total [] = true
check_values total (val ∷ vals) =
    let rest = check_values (set total (slot val) val) vals in
    if check_elem val && eq_ℤ (get_or total (slot val) (pos 0)) (pos 0) then rest else false

-- The `n` values from `i` on.
unfoldable pub values_from : (ℕ → ℤ) → ℕ → ℕ → List ℤ
values_from f i zero = []
values_from f i (suc n) = f i ∷ values_from f (suc i) n

abbrev pub nothing_seen : List ℤ
nothing_seen = pos 0 ∷ pos 0 ∷ pos 0 ∷ pos 0 ∷ pos 0 ∷ pos 0 ∷ pos 0 ∷ pos 0 ∷ pos 0 ∷ []

unfoldable pub check_ : Sudoku → Bool → ℕ → Bool
check_ board row_on row_col =
    check_values nothing_seen (values_from (value_at board row_on row_col) 0 grid_size)

-- `struct _grid`: -1 as the row or the column stands for none.
pub record GridData : Type 0 where
  pub row : ℤ
  pub column : ℤ
  pub board : Sudoku
  pub res : Bool

abbrev pub index_of : ℤ → ℕ
index_of (pos n) = n
index_of (negsuc n) = 0

unfoldable pub check_row : GridData → Bool
check_row grid = eq_ℤ grid.row (negsuc 0) || check_ grid.board true (index_of grid.row)

unfoldable pub check_column : GridData → Bool
check_column grid = eq_ℤ grid.column (negsuc 0) || check_ grid.board false (index_of grid.column)

-- The loop of check_grid, with `n` rounds to go from `i`: what `b` and `i` are at its end.
unfoldable pub check_lines : GridData → ℕ → ℕ → Bool × ℕ
check_lines grid i zero = (true, i)
check_lines grid i (suc n) =
    let line = record grid { row = pos i; column = pos i } in
    let rest = check_lines grid (suc i) n in
    if check_column line && check_row line then rest else (false, suc i)

unfoldable pub check_grid : GridData → Bool × GridData
check_grid grid =
    let (b, i) = check_lines grid 0 grid_size in
    (b && i == grid_size, record grid { row = pos grid_size; column = pos grid_size })

-- The body of a thread, up to the result that is kept.
unfoldable pub routine : GridData → GridData
routine grid = record grid { res = check_column grid && check_row grid }
