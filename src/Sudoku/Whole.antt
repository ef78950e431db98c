-- ===== src/Sudoku/Whole.antt =====
-- check_grid: the whole board is accepted just when every row and every column is.
use cprogramming.Prelude.{
  ℕ, zero, suc, ◌+◌, ◌≤◌, ◌<◌, ◌≡◌, ◌≢◌, ◌↔◌, refl, subst, inl, inr, arith, Bool, true, sym, false,
  ◌&&◌, ◌==◌, List, [], ◌∷◌, get_or, ℤ, pos, Bool-cases,
}
use cprogramming.Sudoku.{
  GridData, value_at, check_, check_row, check_column, check_lines, check_grid, nothing_seen,
}
use cprogramming.Sudoku.Lines.{InRange, check_values-IsNew, first_or_later}
use cprogramming.Sudoku.Board.{Sudoku}

-- Nine elements from 1 to 9, no two of them the same.
pub record IsLine (f : ℕ → ℤ) : Type 0 where
  pub ranged : (j : ℕ) → j < 9 → InRange (f j)
  pub apart : (j k : ℕ) → j < k → k < 9 → f j ≢ f k

abbrev AllZero : List ℤ → Type 0
AllZero [] = Unit {0}
AllZero (z ∷ zs) = (z ≡ pos 0) × AllZero zs

get_or-AllZero : (zs : List ℤ) (k : ℕ) → AllZero zs → get_or zs k (pos 0) ≡ pos 0
get_or-AllZero [] k h = refl
get_or-AllZero (z ∷ zs) zero h = h.0
get_or-AllZero (z ∷ zs) (suc k) h = get_or-AllZero zs k h.1

unseen_at_first : (k : ℕ) → get_or nothing_seen k (pos 0) ≡ pos 0
unseen_at_first k =
    get_or-AllZero nothing_seen k
      (refl, (refl, (refl, (refl, (refl, (refl, (refl, (refl, (refl, tt)))))))))

check_-IsLine :
    (board : Sudoku) (row_on : Bool) (n : ℕ)
    → (check_ board row_on n ≡ true) ↔ IsLine (value_at board row_on n)
unfolding check_
check_-IsLine board row_on n =
    let law = check_values-IsNew 9 nothing_seen (value_at board row_on n) 0 refl in
    (
      λ h. record {
        ranged = λ j p. (law.0 h).ranged j (omega arith) p;
        apart = λ j k p q. (law.0 h).apart j k (omega arith) p q;
      },
      λ l. law.1 (record {
        ranged = λ j p q. l.ranged j q;
        unseen = λ j p q. unseen_at_first _;
        apart = λ j k p q t. l.apart j k q t;
      }),
    )

-- Row `j` and column `j`.
abbrev pub BothLines : Sudoku → ℕ → Type 0
BothLines board j = IsLine (value_at board true j) × IsLine (value_at board false j)

abbrev passed : Bool × ℕ → Bool
passed (b, i) = b && i == 9

both_tests :
    (g : GridData) (i : ℕ)
    → ((check_column (record g { row = pos i; column = pos i })
          && check_row (record g { row = pos i; column = pos i }))
        ≡ true)
      ↔ BothLines g.board i
unfolding check_row check_column
both_tests g i = joined _ _ (check_-IsLine g.board false i) (check_-IsLine g.board true i)
  where
    joined :
        (c r : Bool) {P Q : Type 0} → (c ≡ true) ↔ P → (r ≡ true) ↔ Q → ((c && r) ≡ true) ↔ (Q × P)
    joined true r p q = (λ h. (q.0 h, p.0 refl), λ b. q.1 b.0)
    joined false r p q = (λ h. absurd (ground arith), λ b. absurd (ground (arith, p.1 b.1)))

check_lines-BothLines :
    (n i : ℕ) (g : GridData)
    → i + n ≡ 9
    → (passed (check_lines g i n) ≡ true) ↔ ((j : ℕ) → i ≤ j → j < 9 → BothLines g.board j)
unfolding check_lines
check_lines-BothLines zero i g e = (λ h j p q. absurd (omega arith), λ _. ground arith)
check_lines-BothLines (suc n) i g e =
    let later = check_lines-BothLines n (suc i) g (omega arith) in
    elim (Bool-cases (
      check_column (record g { row = pos i; column = pos i })
      && check_row (record g { row = pos i; column = pos i }))) [
        | inl both ↦ rw both (
          λ h j p q. elim (first_or_later i j p) [
            | inl s ↦ subst (BothLines g.board) (sym s) ((both_tests g i).0 both)
            | inr l ↦ later.0 h j l q
          ],
          λ all. later.1 (λ j p q. all j (omega arith) q),
        )
        | inr not_both ↦ rw not_both (
          λ h. absurd (ground arith),
          λ all. absurd (unequal not_both ((both_tests g i).1 (all i (omega arith) (omega arith)))),
        )
      ]
  where
    unequal : {c : Bool} → c ≡ false → c ≡ true → ⊥
    unequal p q = cc

-- check_grid accepts a board just when each of the nine rows and of the nine columns has nine
-- elements from 1 to 9, no two of them the same. It leaves the row and the column at 9, and the board
-- as it was.
pub check_grid_lem :
    (g : GridData)
    → (((check_grid g).0 ≡ true) ↔ ((j : ℕ) → j < 9 → BothLines g.board j))
      × ((check_grid g).1 ≡ record g { row = pos 9; column = pos 9 })
unfolding check_grid
check_grid_lem g =
    let law = check_lines-BothLines 9 0 g refl in
    ((λ h j q. law.0 h j (omega arith) q, λ all. law.1 (λ j p q. all j q)), refl)
