-- ===== src/Battle/Agent.antt =====
-- agent.c: how an agent chooses the cell that it shoots at next.
pub mod Scan
pub mod Guess
mod Tests
use cprogramming.Prelude.{
  ℕ, zero, suc, ◌+◌, ◌-◌, ◌%◌, Bool, true, false, not, ◌&&◌, Option, none, some, ◌==◌, ltb, leb,
  if◌then◌else◌, ℤ, pos, negsuc, eq_ℤ,
}
use cprogramming.Battle.Move.{miss, hit, down}

-- `move` and `move_i`: the column, which may be -1, and the row
pub record Cell : Type 0 where
  pub column : ℤ
  pub row : ℕ

-- One less
abbrev pub before : ℤ → ℤ
before (pos zero) = negsuc 0
before (pos (suc n)) = pos n
before (negsuc n) = negsuc (suc n)

-- `coln[0] > coln[1]`, where `coln[0]` is never negative
abbrev pub is_above : ℕ → ℤ → Bool
is_above left (pos right) = ltb right left
is_above left (negsuc right) = true

-- `row`, `coln` and `move` of agent_move
pub record Scanner : Type 0 where
  pub row : ℕ
  pub left : ℕ
  pub right : ℤ
  pub move : Cell

-- Where the row is done, the next one begins.
unfoldable pub new_row : ℕ → Scanner → Scanner
new_row max_c s =
    if is_above s.left s.right
    then record s { row = s.row + 1; left = 0; right = before (pos max_c) }
    else s

unfoldable pub choose : Scanner → Scanner
choose s =
    if is_above s.left s.right
    then s
    else if s.row % 2 == 0
    then record s { move = record { column = pos s.left; row = s.row }; left = s.left + 1 }
    else record s { move = record { column = s.right; row = s.row }; right = before s.right }

unfoldable pub agent_move : ℕ → Scanner → Scanner
agent_move max_c s = choose (new_row max_c s)

-- What agent1 and agent2 begin with
abbrev pub fresh_scanner : Scanner
fresh_scanner = record {
  row = 0;
  left = 0;
  right = pos 7;
  move = record { column = pos 0; row = 0 };
}

-- `f_height`, `f_width`, `f_move_r`, `f_move_c`, `f_d_i`, and whether `mode_fight` is 1
pub record Fighter : Type 0 where
  pub height : ℕ
  pub width : ℕ
  pub move_r : ℕ
  pub move_c : ℕ
  pub d_i : ℕ
  pub mode_fight : Bool

-- The first tests of fighter_guess. Its test for `f_d_i == 4` comes behind a reset of `f_d_i`.
unfoldable pub set_mode : ℤ → Fighter → Fighter
set_mode result f =
    let f' = if leb 4 f.d_i then record f { d_i = 0; mode_fight = false } else f in
    if eq_ℤ result hit
    then record f' { mode_fight = true }
    else if eq_ℤ result down
    then record f' { mode_fight = false }
    else if eq_ℤ result miss
    then if f'.mode_fight && f'.d_i == 4 then record f' { d_i = 0; mode_fight = false } else f'
    else f'

-- The case of each direction
unfoldable pub guess_north : Fighter → Fighter × Cell
guess_north f =
    if f.move_r == 0
    then (record f { d_i = f.d_i + 1 }, record { row = 0; column = pos (f.move_c + 1) })
    else (f, record { row = f.move_r - 1; column = pos f.move_c })

unfoldable pub guess_east : Fighter → Fighter × Cell
guess_east f =
    if leb f.width (f.move_c + 1)
    then (record f { d_i = f.d_i + 1 }, record { row = f.move_r + 1; column = pos (f.width - 1) })
    else (f, record { row = f.move_r; column = pos (f.move_c + 1) })

unfoldable pub guess_south : Fighter → Fighter × Cell
guess_south f =
    if leb f.height (f.move_r + 1)
    then (
      record f { d_i = f.d_i + 1 },
      record { row = f.height - 1; column = before (pos f.move_c) },
    )
    else (f, record { row = f.move_r + 1; column = pos f.move_c })

-- With the two numbers that `rand` would give
unfoldable pub guess_west : ℕ → ℕ → Fighter → Fighter × Cell
guess_west r_row r_column f =
    if f.move_c == 0
    then (
      record f { d_i = 0; mode_fight = false },
      record { row = r_row % f.height; column = pos (r_column % f.width) },
    )
    else (f, record { row = f.move_r; column = before (pos f.move_c) })

-- By `f_directions`; where `f_d_i` is behind the table, none.
unfoldable pub attack : ℕ → ℕ → Fighter → Option (Fighter × Cell)
attack r_row r_column f =
    if f.d_i == 0
    then some (guess_north f)
    else if f.d_i == 1
    then some (guess_east f)
    else if f.d_i == 2
    then some (guess_south f)
    else if f.d_i == 3
    then some (guess_west r_row r_column f)
    else none

unfoldable pub search_cell : ℕ → ℕ → Fighter → Fighter × Cell
search_cell r_row r_column f =
    let row = r_row % f.height in
    let column = r_column % f.width in
    (record f { move_r = row; move_c = column }, record { row = row; column = pos column })

abbrev next_direction : ℤ → Fighter → Fighter
next_direction result f = if eq_ℤ result miss then record f { d_i = f.d_i + 1 } else f

-- The fighter and its guess; none where a direction behind the table is read.
unfoldable pub fighter_guess : ℤ → ℕ → ℕ → Fighter → Option (Fighter × Cell)
fighter_guess result r_row r_column f =
    let f' = set_mode result f in
    let g = next_direction result f' in
    if not f'.mode_fight then some (search_cell r_row r_column f') else attack r_row r_column g
