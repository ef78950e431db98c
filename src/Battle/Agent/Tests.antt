-- ===== src/Battle/Agent/Tests.antt =====
-- The agents on small boards.
use cprogramming.Prelude.{ℕ, ◌+◌, ◌*◌, ◌≡◌, refl, arith, true, none, some, [], ◌∷◌, ◌++◌, pos}
use cprogramming.Battle.Move.{miss, hit}
use cprogramming.Battle.Agent.{
  Cell, Fighter, fresh_scanner, new_row, choose, agent_move, set_mode, guess_north, guess_west,
  attack, fighter_guess,
}
use cprogramming.Battle.Agent.Scan.{scan, row_cells, rows_cells, agent_move-rows}
use cprogramming.Battle.Agent.Guess.{GuessSpec, fighter_guess_lem}

abbrev cell : ℕ → ℕ → Cell
cell column row = record { column = pos column; row = row }

-- On a board of three columns, the first row has eight cells all the same.
scan_three :
    scan 11 3 fresh_scanner
    ≡ cell 0 0
      ∷ cell 1 0
      ∷ cell 2 0
      ∷ cell 3 0
      ∷ cell 4 0
      ∷ cell 5 0
      ∷ cell 6 0
      ∷ cell 7 0
      ∷ cell 2 1
      ∷ cell 1 1
      ∷ cell 0 1
      ∷ []
unfolding agent_move new_row choose
scan_three = refl

agent_move-rows_example : scan (8 + 7 * 8) 8 fresh_scanner ≡ row_cells 0 8 ++ rows_cells 1 7 8
agent_move-rows_example = agent_move-rows 7 7

-- It attacks by the last direction.
abbrev fighter : Fighter
fighter = record { height = 8; width = 8; move_r = 4; move_c = 4; d_i = 3; mode_fight = true }

fighter_hits : fighter_guess hit 0 0 fighter ≡ some (fighter, cell 3 4)
unfolding fighter_guess set_mode attack guess_west
fighter_hits = refl

fighter_misses : fighter_guess miss 0 0 fighter ≡ none
unfolding fighter_guess set_mode attack
fighter_misses = refl

-- North of a cell in the last column of the first row comes one that is not on the board.
corner_leaves :
    fighter_guess hit 0 0 (record fighter { move_r = 0; move_c = 7; d_i = 0 })
    ≡ some (record fighter { move_r = 0; move_c = 7; d_i = 1 }, cell 8 0)
unfolding fighter_guess set_mode attack guess_north
corner_leaves = refl

fighter_guess_lem_example : GuessSpec fighter true (fighter_guess miss 0 0 fighter)
fighter_guess_lem_example = fighter_guess_lem miss 0 0 fighter (omega arith)
