-- ===== src/Battle/Game/Fleet.antt =====
-- The ships of one side: each counter is the number of its cells that are still on the board, and the
-- total is the number of ships with a cell left. A shot keeps this.
pub mod Shots
use cprogramming.Prelude.{
  ℕ, zero, suc, ◌+◌, ◌-◌, ◌≤◌, ◌<◌, ◌≡◌, ◌≢◌, ◌∙◌, ap, sym, ◌⊎◌, inl, inr, arith, true, false,
  if◌then◌else◌, List, [], ◌∷◌, length, get_or, set, ℤ, pos, ◌-ℤ◌, eq_ℤ, ℤ-cases, subst₂,
}
use cprogramming.Battle.Grid.{
  Grid, check_inside_this, element_at, write_at, grid_get, grid_set, position_resolve, ship_element,
}
use cprogramming.Battle.Grid.Cells.{
  IsGrid, write_at-IsGrid, element_at-write_self, element_at-write_ne, count_element,
  count-write_at, width-write_at, height-write_at,
}

-- How many ships are not sunk.
abbrev pub afloat : List ℤ → ℕ
afloat [] = 0
afloat (s ∷ ships) = (if eq_ℤ s (pos 0) then 0 else 1) + afloat ships

-- The element of ship `i` on the board.
abbrev pub hull : ℕ → ℕ
hull i = ship_element (i + b'1')

pub record IsFleet (total : ℤ) (g : Grid) (ships : List ℤ) : Type 0 where
  pub valid : IsGrid g
  pub hulls : (i : ℕ) → i < length ships → get_or ships i (pos 0) ≡ pos (count_element (hull i) g)
  pub numbers :
      (x y : ℤ)
      → check_inside_this g x y ≡ true
      → b'1' ≤ element_at g x y
      → element_at g x y ≤ b'9'
      → element_at g x y - b'1' < length ships
  pub total_afloat : total ≡ pos (afloat ships)

pub afloat-set :
    (ships : List ℤ) (i : ℕ) (v : ℤ)
    → i < length ships
    → afloat (set ships i v) + (if eq_ℤ (get_or ships i (pos 0)) (pos 0) then 0 else 1)
      ≡ afloat ships + (if eq_ℤ v (pos 0) then 0 else 1)
afloat-set [] i v h = absurd (omega arith)
afloat-set (s ∷ ships) zero v h = omega arith
afloat-set (s ∷ ships) (suc i) v h = omega (arith, afloat-set ships i v (omega arith))

pub hull-digit : (e : ℕ) → b'1' ≤ e → e ≤ b'9' → hull (e - b'1') ≡ e
hull-digit e p q = ground arith

pub hull_inj : (i j : ℕ) → i ≢ j → hull i ≤ b'9' → hull j ≢ hull i
hull_inj i j ne h = ground arith

hull_high : (i : ℕ) → b'1' ≤ hull i
hull_high i = ground arith

same_cell : (x y x' y' : ℤ) → (x ≡ x') × (y ≡ y') ⊎ ((x ≢ x') ⊎ (y ≢ y'))
same_cell x y x' y' = elim (ℤ-cases x x') [
  | inr n ↦ inr (inl n)
  | inl p ↦ elim (ℤ-cases y y') [ inl q ↦ inl (p, q) | inr n ↦ inr (inr n) ]
]

-- A cell that is overwritten by a sign that is no ship.
module _ (g : Grid) (v : IsGrid g) (x y : ℤ) (inside : check_inside_this g x y ≡ true) (sign : ℕ)
    (low : sign < b'1') where
  -- Another ship's cells are as many as before, and of the ship that was hit there is one fewer.
  pub count_other :
      (i : ℕ)
      → hull i ≢ element_at g x y
      → count_element (hull i) (write_at g x y sign) ≡ count_element (hull i) g
  count_other i ne = ground (arith, count-write_at (hull i) g x y sign v inside, hull_high i)

  pub count_hit :
      (i : ℕ)
      → hull i ≡ element_at g x y
      → count_element (hull i) (write_at g x y sign) + 1 ≡ count_element (hull i) g
  count_hit i e = ground (arith, count-write_at (hull i) g x y sign v inside, hull_high i)

  sign_there : (x' y' : ℤ) → x ≡ x' → y ≡ y' → element_at (write_at g x y sign) x' y' ≡ sign
  sign_there x' y' p q =
      subst₂ (λ a b. element_at (write_at g x y sign) a b ≡ sign) p q
        (element_at-write_self g v x y inside sign)

  pub numbers_after :
      (n : ℕ)
      → ((x' y' : ℤ)
          → check_inside_this g x' y' ≡ true
          → b'1' ≤ element_at g x' y'
          → element_at g x' y' ≤ b'9'
          → element_at g x' y' - b'1' < n)
      → (x' y' : ℤ) → check_inside_this g x' y' ≡ true
      → b'1' ≤ element_at (write_at g x y sign) x' y'
      → element_at (write_at g x y sign) x' y' ≤ b'9'
      → element_at (write_at g x y sign) x' y' - b'1' < n
  numbers_after n before x' y' in' a b = elim (same_cell x y x' y') [
    | inl (p, q) ↦ absurd (ground (arith, sign_there x' y' p q))
    | inr apart ↦
        let kept = element_at-write_ne g v x y inside sign x' y' in' apart in
        ground (arith, kept, before x' y' in')
  ]

pub grid_set-inside :
    (g : Grid) (x y : ℤ) (e : ℕ)
    → check_inside_this g (position_resolve x) (position_resolve y) ≡ true
    → (grid_set g x y e).1 ≡ write_at g (position_resolve x) (position_resolve y) e
unfolding grid_set
grid_set-inside g x y e h = rw h

pub grid_get-inside :
    (g : Grid) (x y : ℤ)
    → check_inside_this g (position_resolve x) (position_resolve y) ≡ true
    → grid_get g x y ≡ element_at g (position_resolve x) (position_resolve y)
unfolding grid_get
grid_get-inside g x y h = rw h

pub grid_get-outside :
    (g : Grid) (x y : ℤ)
    → check_inside_this g (position_resolve x) (position_resolve y) ≡ false
    → grid_get g x y ≡ 0
unfolding grid_get
grid_get-outside g x y h = rw h

module _ (total : ℤ) (g : Grid) (s : List ℤ) (f : IsFleet total g s) (x y : ℤ)
    (inside : check_inside_this g x y ≡ true) where
  -- A shot into the water.
  pub IsFleet-water : element_at g x y < b'1' → IsFleet total (write_at g x y b'/') s
  IsFleet-water water = record {
    valid = write_at-IsGrid g f.valid x y inside b'/';
    hulls = λ i lt.
        f.hulls i lt
        ∙ ap pos (
            sym (
              count_other g f.valid x y inside b'/' (omega arith) i (ground (arith, hull_high i))));
    numbers = λ x' y' h.
        numbers_after g f.valid x y inside b'/' (omega arith) (length s) f.numbers x' y'
          (in_g x' y' h);
    total_afloat = f.total_afloat;
  }
    where
      in_g :
          (x' y' : ℤ)
          → check_inside_this (write_at g x y b'/') x' y' ≡ true
          → check_inside_this g x' y' ≡ true
      in_g x' y' h = rw (width-write_at, height-write_at) at h
