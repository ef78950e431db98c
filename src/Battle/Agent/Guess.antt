-- ===== src/Battle/Agent/Guess.antt =====
-- agent.c: whether a cell that the fighter guesses is on the board.
use cprogramming.Prelude.{
  ℕ, zero, suc, ◌+◌, ◌≡◌, ◌<◌, refl, sym, ◌∙◌, ap, subst, arith, ◌⊎◌, inl, inr, Bool, true, false,
  not, ◌&&◌, Option, none, some, ◌==◌, ltb, leb, if◌then◌else◌, Bool-cases, ℤ, pos, negsuc, eq_ℤ,
}
use native.Mathlib.Nat.{mod-lt}
use cprogramming.Battle.Move.{miss}
use cprogramming.Battle.Agent.{
  Cell, before, Fighter, set_mode, guess_north, guess_east, guess_south, guess_west, attack,
  search_cell, next_direction, fighter_guess,
}

abbrev pub IsBelow : ℤ → ℕ → Type 0
IsBelow (pos n) m = n < m
IsBelow (negsuc n) m = ⊥

abbrev pub OnBoard : Fighter → Cell → Type 0
OnBoard f c = (c.row < f.height) × IsBelow c.column f.width

-- The cell that is remembered is on the board.
abbrev pub IsFighter : Fighter → Type 0
IsFighter f = (f.move_r < f.height) × (f.move_c < f.width)

-- It is in a corner of the board, that on the top left excepted.
abbrev pub InCorner : Fighter → Type 0
InCorner f =
    ((f.move_r ≡ 0) × (f.move_c + 1 ≡ f.width))
    ⊎ ((f.move_r + 1 ≡ f.height) × (f.move_c + 1 ≡ f.width))
    ⊎ ((f.move_r + 1 ≡ f.height) × (f.move_c ≡ 0))

-- The same board and the same cell
abbrev SameCell : Fighter → Fighter → Type 0
SameCell f g =
    (g.height ≡ f.height) × (g.width ≡ f.width) × (g.move_r ≡ f.move_r) × (g.move_c ≡ f.move_c)

-- A fighter that remembers a cell of the same board, and a guess on it
abbrev pub Guessed : Fighter → Fighter × Cell → Type 0
Guessed f (g, c) =
    (g.height ≡ f.height) × (g.width ≡ f.width) × IsFighter g × (OnBoard f c ⊎ InCorner f)

set_mode-SameCell : (result : ℤ) (f : Fighter) → SameCell f (set_mode result f)
unfolding set_mode
set_mode-SameCell result f = ground arith

guess_north-Guessed : (f : Fighter) → IsFighter f → Guessed f (guess_north f)
unfolding guess_north
guess_north-Guessed f (r, c) = elim (Bool-cases (f.move_r == 0)) [
  | inl top ↦ rw top (
    refl,
    refl,
    (r, c),
    elim (Bool-cases (ltb (f.move_c + 1) f.width)) [
      | inl room ↦ inl (ground arith, ground arith)
      | inr full ↦ inr (inl (ground arith, ground arith))
    ],
  )
  | inr below ↦ rw below (refl, refl, (r, c), inl (ground arith, c))
]

guess_east-Guessed : (f : Fighter) → IsFighter f → Guessed f (guess_east f)
unfolding guess_east
guess_east-Guessed f (r, c) = elim (Bool-cases (leb f.width (f.move_c + 1))) [
  | inl edge ↦ rw edge (
    refl,
    refl,
    (r, c),
    elim (Bool-cases (ltb (f.move_r + 1) f.height)) [
      | inl room ↦ inl (ground arith, ground arith)
      | inr full ↦ inr (inr (inl (ground arith, ground arith)))
    ],
  )
  | inr inside ↦ rw inside (refl, refl, (r, c), inl (r, ground arith))
]

column_before : (n m : ℕ) → n < m → (n ≡ 0) ⊎ IsBelow (before (pos n)) m
column_before zero m h = inl refl
column_before (suc n) m h = inr (omega arith)

guess_south-Guessed : (f : Fighter) → IsFighter f → Guessed f (guess_south f)
unfolding guess_south
guess_south-Guessed f (r, c) = elim (Bool-cases (leb f.height (f.move_r + 1))) [
  | inl edge ↦ rw edge (
    refl,
    refl,
    (r, c),
    elim (column_before f.move_c f.width c) [
      | inl first ↦ inr (inr (inr (ground arith, first)))
      | inr room ↦ inl (ground arith, room)
    ],
  )
  | inr inside ↦ rw inside (refl, refl, (r, c), inl (ground arith, c))
]

guess_west-Guessed :
    (r_row r_column : ℕ) (f : Fighter) → IsFighter f → Guessed f (guess_west r_row r_column f)
unfolding guess_west
guess_west-Guessed r_row r_column f (r, c) = elim (Bool-cases (f.move_c == 0)) [
  | inl edge ↦
      rw edge (refl, refl, (r, c), inl (mod-lt r_row (omega arith), mod-lt r_column (omega arith)))
  | inr inside ↦ rw inside (
    refl,
    refl,
    (r, c),
    elim (column_before f.move_c f.width c) [
      | inl first ↦ absurd (ground arith)
      | inr room ↦ inl (r, room)
    ],
  )
]

-- The fifth direction is read: it attacks by the last of the four, and the shot has missed.
abbrev pub beyond : ℤ → Fighter → Bool
beyond result f = f.mode_fight && (f.d_i == 3 && eq_ℤ result miss)

set_mode-search :
    (result : ℤ) (f : Fighter) → (set_mode result f).mode_fight ≡ false → beyond result f ≡ false
unfolding set_mode
set_mode-search (pos n) f h = ground arith
set_mode-search (negsuc n) f h = ground arith

set_mode-attack :
    (result : ℤ) (f : Fighter)
    → (set_mode result f).mode_fight ≡ true
    → leb 4 (next_direction result (set_mode result f)).d_i ≡ beyond result f
unfolding set_mode
set_mode-attack (pos n) f h = ground arith
set_mode-attack (negsuc n) f h = ground arith

next_direction-SameCell : (result : ℤ) (f : Fighter) → SameCell f (next_direction result f)
next_direction-SameCell result f = ground arith

SameCell-trans : (f g h : Fighter) → SameCell f g → SameCell g h → SameCell f h
SameCell-trans f g h (a, b, c, d) (a', b', c', d') = (a' ∙ a, b' ∙ b, c' ∙ c, d' ∙ d)

SameCell-IsFighter : (f g : Fighter) → SameCell f g → IsFighter f → IsFighter g
SameCell-IsFighter f g same fighter = (omega arith, omega arith)

SameCell-InCorner : (f g : Fighter) → SameCell f g → InCorner g → InCorner f
SameCell-InCorner f g same (inl a) = inl (omega arith, omega arith)
SameCell-InCorner f g same (inr (inl a)) = inr (inl (omega arith, omega arith))
SameCell-InCorner f g same (inr (inr a)) = inr (inr (omega arith, omega arith))

SameCell-Guessed : (f g : Fighter) (p : Fighter × Cell) → SameCell f g → Guessed g p → Guessed f p
SameCell-Guessed f g (h, c) same (x, y, fighter, inl (row, column)) = (
  x ∙ same.0,
  y ∙ same.1,
  fighter,
  inl (omega arith, subst (λ n. IsBelow c.column n) same.1 column),
)
SameCell-Guessed f g (h, c) same (x, y, fighter, inr corner) =
    (x ∙ same.0, y ∙ same.1, fighter, inr (SameCell-InCorner f g same corner))

-- A guess by a direction, `off` saying whether it is behind the table
abbrev pub GuessSpec : Fighter → Bool → Option (Fighter × Cell) → Type 0
GuessSpec f off none = off ≡ true
GuessSpec f off (some p) = (off ≡ false) × Guessed f p

attack-GuessSpec :
    (r_row r_column : ℕ) (f : Fighter)
    → IsFighter f
    → GuessSpec f (leb 4 f.d_i) (attack r_row r_column f)
unfolding attack
attack-GuessSpec r_row r_column f fighter = elim (Bool-cases (f.d_i == 0)) [
  | inl north ↦ rw north (ground arith, guess_north-Guessed f fighter)
  | inr n0 ↦ elim (Bool-cases (f.d_i == 1)) [
    | inl east ↦ rw (n0, east) (ground arith, guess_east-Guessed f fighter)
    | inr n1 ↦ elim (Bool-cases (f.d_i == 2)) [
      | inl south ↦ rw (n0, n1, south) (ground arith, guess_south-Guessed f fighter)
      | inr n2 ↦ elim (Bool-cases (f.d_i == 3)) [
        | inl west ↦
            rw (n0, n1, n2, west) (ground arith, guess_west-Guessed r_row r_column f fighter)
        | inr n3 ↦ rw (n0, n1, n2, n3) (ground arith)
      ]
    ]
  ]
]

search_cell-Guessed :
    (r_row r_column : ℕ) (f : Fighter) → IsFighter f → Guessed f (search_cell r_row r_column f)
unfolding search_cell
search_cell-Guessed r_row r_column f fighter =
    let row = mod-lt r_row {m = f.height} (omega arith) in
    let column = mod-lt r_column {m = f.width} (omega arith) in
    (refl, refl, (row, column), inl (row, column))

GuessSpec-same :
    (f g : Fighter) (off : Bool) (o : Option (Fighter × Cell))
    → SameCell f g
    → GuessSpec g off o
    → GuessSpec f off o
GuessSpec-same f g off none same spec = spec
GuessSpec-same f g off (some p) same (on, guessed) = (on, SameCell-Guessed f g p same guessed)

fighter_guess-mode :
    (result : ℤ) (r_row r_column : ℕ) (f : Fighter) (b : Bool)
    → (set_mode result f).mode_fight ≡ b
    → fighter_guess result r_row r_column f ≡ (
        if not b
        then some (search_cell r_row r_column (set_mode result f))
        else attack r_row r_column (next_direction result (set_mode result f)))
unfolding fighter_guess
fighter_guess-mode result r_row r_column f b e =
    let f' = set_mode result f in
    ap
      (λ b.
        if not b
        then some (search_cell r_row r_column f')
        else attack r_row r_column (next_direction result f'))
      e

-- Where the cell that is remembered is on the board, one behind the table of directions is read just
-- when the fighter attacks by the last direction and the result is a miss. Otherwise it remembers a
-- cell of the board again, and the guess is on the board or the cell it remembered was in a corner
-- (that on the top left excepted).
pub fighter_guess_lem :
    (result : ℤ) (r_row r_column : ℕ) (f : Fighter)
    → IsFighter f
    → GuessSpec f (beyond result f) (fighter_guess result r_row r_column f)
fighter_guess_lem result r_row r_column f fighter =
    let f' = set_mode result f in
    let g = next_direction result f' in
    let same = set_mode-SameCell result f in
    let same' = SameCell-trans f f' g same (next_direction-SameCell result f') in
    let spec = GuessSpec f (beyond result f) in
    elim (Bool-cases f'.mode_fight) [
      | inr off ↦ subst spec (sym (fighter_guess-mode result r_row r_column f false off)) (
        set_mode-search result f off,
        SameCell-Guessed f f' (search_cell r_row r_column f') same
            (search_cell-Guessed r_row r_column f' (SameCell-IsFighter f f' same fighter)),
      )
      | inl on ↦ subst spec (sym (fighter_guess-mode result r_row r_column f true on)) (
          subst (λ b. GuessSpec f b (attack r_row r_column g)) (set_mode-attack result f on)
            (GuessSpec-same f g (leb 4 g.d_i) (attack r_row r_column g) same'
              (attack-GuessSpec r_row r_column g (SameCell-IsFighter f g same' fighter))))
    ]
