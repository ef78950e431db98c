-- ===== src/Sudoku/Board.antt =====
-- Boards, and the one that solve.c writes, cell by cell, into a board of nine lines.
use cprogramming.Prelude.{List, [], ◌∷◌, ℤ, pos}

abbrev pub Line : Type 0
Line = List ℤ

abbrev pub Sudoku : Type 0
Sudoku = List Line

abbrev pub solved : Sudoku
solved =
    (pos 8 ∷ pos 6 ∷ pos 1 ∷ pos 7 ∷ pos 9 ∷ pos 4 ∷ pos 3 ∷ pos 5 ∷ pos 2 ∷ [])
    ∷ (pos 3 ∷ pos 5 ∷ pos 2 ∷ pos 1 ∷ pos 6 ∷ pos 8 ∷ pos 7 ∷ pos 4 ∷ pos 9 ∷ [])
    ∷ (pos 4 ∷ pos 9 ∷ pos 7 ∷ pos 2 ∷ pos 5 ∷ pos 3 ∷ pos 1 ∷ pos 8 ∷ pos 6 ∷ [])
    ∷ (pos 2 ∷ pos 1 ∷ pos 8 ∷ pos 9 ∷ pos 7 ∷ pos 5 ∷ pos 6 ∷ pos 3 ∷ pos 4 ∷ [])
    ∷ (pos 6 ∷ pos 7 ∷ pos 5 ∷ pos 3 ∷ pos 4 ∷ pos 1 ∷ pos 9 ∷ pos 2 ∷ pos 8 ∷ [])
    ∷ (pos 9 ∷ pos 3 ∷ pos 4 ∷ pos 6 ∷ pos 8 ∷ pos 2 ∷ pos 5 ∷ pos 1 ∷ pos 7 ∷ [])
    ∷ (pos 5 ∷ pos 2 ∷ pos 6 ∷ pos 8 ∷ pos 1 ∷ pos 9 ∷ pos 4 ∷ pos 7 ∷ pos 3 ∷ [])
    ∷ (pos 7 ∷ pos 4 ∷ pos 3 ∷ pos 5 ∷ pos 2 ∷ pos 6 ∷ pos 8 ∷ pos 9 ∷ pos 1 ∷ [])
    ∷ (pos 1 ∷ pos 8 ∷ pos 9 ∷ pos 4 ∷ pos 3 ∷ pos 7 ∷ pos 2 ∷ pos 6 ∷ pos 5 ∷ [])
    ∷ []
