-- ===== src/Battle/Agent/Scan.antt =====
-- agent.c: the cells that agent_move chooses, one call after the other.
use cprogramming.Prelude.{
  ℕ, zero, suc, ◌+◌, ◌*◌, ◌%◌, ◌≡◌, refl, sym, subst, ◌∙◌, ap, inl, inr, Bool-cases, arith, true,
  false, List, [], ◌∷◌, ◌++◌, ◌==◌, ltb, if◌then◌else◌, ℤ, pos,
}
use native.Mathlib.Numerals.{unary_clauses}
use cprogramming.Battle.Agent.{
  Cell, Scanner, before, is_above, new_row, choose, agent_move, fresh_scanner,
}

-- The moves of `n` calls, and what is left behind them
abbrev pub scan : ℕ → ℕ → Scanner → List Cell
scan zero w s = []
scan (suc n) w s = let s' = agent_move w s in s'.move ∷ scan n w s'

abbrev after : ℕ → ℕ → Scanner → Scanner
after zero w s = s
after (suc n) w s = after n w (agent_move w s)

joined : {a b c d : List Cell} → a ≡ b → c ≡ d → a ++ c ≡ b ++ d
joined e f = rw (e, f)

scan-split : (m n w : ℕ) (s : Scanner) → scan (m + n) w s ≡ scan m w s ++ scan n w (after m w s)
scan-split zero n w s = ap (λ k. scan k w s) (omega arith)
scan-split (suc m) n w s =
    let count : suc m + n ≡ suc (m + n) = omega arith in
    ap (λ k. scan k w s) count
    ∙ ap (λ l. (agent_move w s).move ∷ l) (scan-split m n w (agent_move w s))

-- Cells of a row, from a column on to the right, and from the one before a column to the left
abbrev pub rightwards : (row column n : ℕ) → List Cell
rightwards row column zero = []
rightwards row column (suc n) =
    record { column = pos column; row = row } ∷ rightwards row (column + 1) n

abbrev pub leftwards : (row n : ℕ) → List Cell
leftwards row zero = []
leftwards row (suc n) = record { column = pos n; row = row } ∷ leftwards row n

-- A row, the even ones to the right and the odd ones to the left
abbrev pub row_cells : (row width : ℕ) → List Cell
row_cells row width = if row % 2 == 0 then rightwards row 0 width else leftwards row width

-- The rows from `row` on
abbrev pub rows_cells : (row n width : ℕ) → List Cell
rows_cells row zero width = []
rows_cells row (suc n) width = row_cells row width ++ rows_cells (row + 1) n width

abbrev at : ℕ → ℕ → ℤ → Cell → Scanner
at row left right move = record { row = row; left = left; right = right; move = move }

abbrev IsDone : ℕ → Scanner → Type 0
IsDone row s = (is_above s.left s.right ≡ true) × (s.row ≡ row)

step_right :
    (w row left r : ℕ) (m : Cell)
    → ltb r left ≡ false
    → row % 2 == 0 ≡ true
    → agent_move w (at row left (pos r) m)
      ≡ at row (left + 1) (pos r) (record { column = pos left; row = row })
unfolding agent_move new_row choose
step_right w row left r m h even = rw (h, h, even)

-- A call that is known, and the calls behind it
module _ (n w row : ℕ) (s s' : Scanner) {l : List Cell} (e : agent_move w s ≡ s') where
  scan-first :
      (scan n w s' ≡ l) × IsDone row (after n w s')
      → (scan (suc n) w s ≡ s'.move ∷ l) × IsDone row (after (suc n) w s)
  scan-first (cells, done) = (
    ap (λ t. t.move ∷ scan n w t) e ∙ ap (λ l. s'.move ∷ l) cells,
    subst (λ t. IsDone row (after n w t)) (sym e) done,
  )

run_right :
    (n w row left r : ℕ) (m : Cell)
    → r + 1 ≡ left + n
    → row % 2 == 0 ≡ true
    → (scan n w (at row left (pos r) m) ≡ rightwards row left n)
      × IsDone row (after n w (at row left (pos r) m))
run_right zero w row left r m h even = (refl, (ground arith, refl))
run_right (suc n) w row left r m h even =
    scan-first n w row _ _ (step_right w row left r m (ground arith) even)
      (run_right n w row (left + 1) r _ (omega arith) even)

step_left :
    (w row n : ℕ) (m : Cell)
    → ltb n 0 ≡ false
    → row % 2 == 0 ≡ false
    → agent_move w (at row 0 (pos n) m)
      ≡ at row 0 (before (pos n)) (record { column = pos n; row = row })
unfolding agent_move new_row choose
step_left w row n m h odd = rw (h, h, odd)

run_left :
    (n w row : ℕ) (m : Cell)
    → row % 2 == 0 ≡ false
    → (scan n w (at row 0 (before (pos n)) m) ≡ leftwards row n)
      × IsDone row (after n w (at row 0 (before (pos n)) m))
run_left zero w row m odd = (refl, (refl, refl))
run_left (suc n) w row m odd =
    scan-first n w row _ _ (step_left w row n m (ground arith) odd) (run_left n w row _ odd)

run_row :
    (k w row : ℕ) (m : Cell)
    → (scan (suc k) w (at row 0 (pos k) m) ≡ row_cells row (suc k))
      × IsDone row (after (suc k) w (at row 0 (pos k) m))
run_row k w row m = elim (Bool-cases (row % 2 == 0)) [
  | inl even ↦
      let (cells, done) = run_right (suc k) w row 0 k m (omega arith) even in
      (cells ∙ rw even refl, done)
  | inr odd ↦ let (cells, done) = run_left (suc k) w row m odd in (cells ∙ rw odd refl, done)
]

begin_row :
    (k row : ℕ) (s : Scanner)
    → IsDone row s
    → ltb k 0 ≡ false
    → agent_move (suc k) s ≡ agent_move (suc k) (at (row + 1) 0 (pos k) s.move)
unfolding agent_move new_row
begin_row k row s (done, same) h = rw (done, same, h)

next_row :
    (k row : ℕ) (s : Scanner)
    → IsDone row s
    → (scan (suc k) (suc k) s ≡ row_cells (row + 1) (suc k))
      × IsDone (row + 1) (after (suc k) (suc k) s)
next_row k row s done =
    let (cells, done') = run_row k (suc k) (row + 1) s.move in
    let e = begin_row k row s done (ground arith) in
    (
      ap (λ t. t.move ∷ scan k (suc k) t) e ∙ cells,
      subst (λ t. IsDone (row + 1) (after k (suc k) t)) (sym e) done',
    )

run_rows :
    (n k row : ℕ) (s : Scanner)
    → IsDone row s
    → scan (n * suc k) (suc k) s ≡ rows_cells (row + 1) n (suc k)
run_rows zero k row s done =
    let none : zero * suc k ≡ 0 = simp unary_clauses (omega arith) in
    ap (λ m. scan m (suc k) s) none
run_rows (suc n) k row s done =
    let (cells, done') = next_row k row s done in
    let count : suc n * suc k ≡ suc k + n * suc k = simp unary_clauses (omega arith) in
    ap (λ m. scan m (suc k) s) count
    ∙ scan-split (suc k) (n * suc k) (suc k) s
    ∙ joined cells (run_rows n k (row + 1) _ done')

-- The first eight calls choose the cells of the first row, whatever the width of the board is; each
-- `width` calls behind them choose those of one row more, the even rows to the right and the odd ones
-- to the left.
pub agent_move-rows :
    (n k : ℕ) → scan (8 + n * suc k) (suc k) fresh_scanner ≡ row_cells 0 8 ++ rows_cells 1 n (suc k)
agent_move-rows n k =
    let (cells, done) = run_row 7 (suc k) 0 (record { column = pos 0; row = 0 }) in
    scan-split 8 (n * suc k) (suc k) fresh_scanner ∙ joined cells (run_rows n k 0 _ done)
