-- ===== src/Battle/Grid/Ship.antt =====
-- What grid_draw does: it places a whole ship on free cells, or leaves the board alone.
use cprogramming.Prelude.{
  refl, eq_ℤ→≡, ℕ, zero, suc, ◌+◌, ◌≤◌, ◌<◌, ◌≡◌, ◌≢◌, ◌∙◌, sym, ap, ◌⊎◌, inl, inr, arith, true,
  ◌==◌, if◌then◌else◌, ℤ, pos_part, neg_part, pos, eq_ℤ, Bool-cases, false, ==→≡,
}
use cprogramming.Battle.Grid.{
  Grid, default_element, check_inside_this, element_at, write_at, is_direction, direction_east,
  direction_west, direction_north, direction_south, resolve_cord_x, resolve_cord_y, draw, draw_cell,
  grid_draw, draw_direction_invalid, position_resolve, ship_element,
}
use cprogramming.Battle.Grid.Cells.{
  IsGrid, write_at-IsGrid, element_at-write_self, element_at-write_ne, count_element,
  count-write_at, width-write_at, height-write_at,
}

-- The coordinates of the ship's cells, from its head on.
abbrev pub ship_x : ℕ → ℤ → ℕ → ℤ
ship_x d x zero = x
ship_x d x (suc i) = ship_x d (resolve_cord_x x d) i

abbrev pub ship_y : ℕ → ℤ → ℕ → ℤ
ship_y d y zero = y
ship_y d y (suc i) = ship_y d (resolve_cord_y y d) i

abbrev LeInt : ℤ → ℤ → Type 0
LeInt a b = pos_part a + neg_part b ≤ pos_part b + neg_part a

-- Each direction moves one coordinate by one.
LtInt : ℤ → ℤ → Type 0
LtInt a b = pos_part a + neg_part b < pos_part b + neg_part a

east_step : (d : ℕ) (x : ℤ) → (d == direction_east) ≡ true → LtInt x (resolve_cord_x x d)
unfolding resolve_cord_x LtInt
east_step d x h = ground arith

west_step : (d : ℕ) (x : ℤ) → (d == direction_west) ≡ true → LtInt (resolve_cord_x x d) x
unfolding resolve_cord_x LtInt
west_step d x h = ground arith

north_step : (d : ℕ) (y : ℤ) → (d == direction_north) ≡ true → LtInt (resolve_cord_y y d) y
unfolding resolve_cord_y LtInt
north_step d y h = ground arith

south_step : (d : ℕ) (y : ℤ) → (d == direction_south) ≡ true → LtInt y (resolve_cord_y y d)
unfolding resolve_cord_y LtInt
south_step d y h = ground arith

east : (d i : ℕ) (x : ℤ) → (d == direction_east) ≡ true → LeInt x (ship_x d x i)
unfolding LtInt
east d zero x h = omega arith
east d (suc i) x h = omega (arith, east d i (resolve_cord_x x d) h, east_step d x h)

west : (d i : ℕ) (x : ℤ) → (d == direction_west) ≡ true → LeInt (ship_x d x i) x
unfolding LtInt
west d zero x h = omega arith
west d (suc i) x h = omega (arith, west d i (resolve_cord_x x d) h, west_step d x h)

north : (d i : ℕ) (y : ℤ) → (d == direction_north) ≡ true → LeInt (ship_y d y i) y
unfolding LtInt
north d zero y h = omega arith
north d (suc i) y h = omega (arith, north d i (resolve_cord_y y d) h, north_step d y h)

south : (d i : ℕ) (y : ℤ) → (d == direction_south) ≡ true → LeInt y (ship_y d y i)
unfolding LtInt
south d zero y h = omega arith
south d (suc i) y h = omega (arith, south d i (resolve_cord_y y d) h, south_step d y h)

LtInt-ne : (a b c : ℤ) → LtInt a b → LeInt b c → a ≢ c
unfolding LtInt
LtInt-ne a b c p q e = omega (arith, ap pos_part e, ap neg_part e)

LtInt-ne' : (a b c : ℤ) → LtInt b a → LeInt c b → a ≢ c
unfolding LtInt
LtInt-ne' a b c p q e = omega (arith, ap pos_part e, ap neg_part e)

directions :
    (d : ℕ)
    → is_direction d ≡ true
    → ((d == direction_east) ≡ true)
      ⊎ ((d == direction_north) ≡ true)
      ⊎ ((d == direction_south) ≡ true)
      ⊎ ((d == direction_west) ≡ true)
directions d h = ground arith

-- A ship does not come back to its head.
leaves_head :
    (d i : ℕ) (x y : ℤ)
    → is_direction d ≡ true
    → (x ≢ ship_x d (resolve_cord_x x d) i) ⊎ (y ≢ ship_y d (resolve_cord_y y d) i)
leaves_head d i x y h = elim (directions d h) [
  | inl e ↦ inl (LtInt-ne x _ _ (east_step d x e) (east d i _ e))
  | inr (inl e) ↦ inr (LtInt-ne' y _ _ (north_step d y e) (north d i _ e))
  | inr (inr (inl e)) ↦ inr (LtInt-ne y _ _ (south_step d y e) (south d i _ e))
  | inr (inr (inr e)) ↦ inl (LtInt-ne' x _ _ (west_step d x e) (west d i _ e))
]

-- Every cell of the ship is on the board and free.
abbrev pub Fits : Grid → ℤ → ℤ → ℕ → ℕ → Type 0
Fits g x y m d =
    (i : ℕ)
    → i < m
    → (check_inside_this g (ship_x d x i) (ship_y d y i) ≡ true)
      × (element_at g (ship_x d x i) (ship_y d y i) ≡ default_element)

-- `g'` is `g` with a ship of `m` elements `e` on it.
pub record Placed (g g' : Grid) (x y : ℤ) (e m d : ℕ) : Type 0 where
  pub valid : IsGrid g'
  pub width : g'.size_x ≡ g.size_x
  pub height : g'.size_y ≡ g.size_y
  pub filled : (i : ℕ) → i < m → element_at g' (ship_x d x i) (ship_y d y i) ≡ e
  pub kept :
      (x' y' : ℤ)
      → check_inside_this g x' y' ≡ true
      → ((i : ℕ) → i < m → (ship_x d x i ≢ x') ⊎ (ship_y d y i ≢ y'))
      → element_at g' x' y' ≡ element_at g x' y'
  pub counted :
      (c : ℕ)
      → c ≢ default_element
      → count_element c g' ≡ count_element c g + (if e == c then m else 0)

module _ (g : Grid) (x y : ℤ) (e m d : ℕ) (dir : is_direction d ≡ true)
    (fits : Fits g x y (suc m) d) (g1 : Grid)
    (p : Placed g g1 (resolve_cord_x x d) (resolve_cord_y y d) e m d) where
  still : (x' y' : ℤ) → check_inside_this g x' y' ≡ true → check_inside_this g1 x' y' ≡ true
  still x' y' h = rw (p.width, p.height) h

  head_in : check_inside_this g1 x y ≡ true
  head_in = still x y (fits 0 (omega arith)).0

  head_free : element_at g1 x y ≡ default_element
  head_free =
      p.kept x y (fits 0 (omega arith)).0 (λ i h. swapped i (leaves_head d i x y dir))
      ∙ (fits 0 (omega arith)).1
    where
      swapped :
          (i : ℕ)
          → (x ≢ ship_x d (resolve_cord_x x d) i) ⊎ (y ≢ ship_y d (resolve_cord_y y d) i)
          → (ship_x d (resolve_cord_x x d) i ≢ x) ⊎ (ship_y d (resolve_cord_y y d) i ≢ y)
      swapped i (inl n) = inl (λ q. n (sym q))
      swapped i (inr n) = inr (λ q. n (sym q))

  filled_suc :
      (i : ℕ) → i < suc m → element_at (write_at g1 x y e) (ship_x d x i) (ship_y d y i) ≡ e
  filled_suc zero h = element_at-write_self g1 p.valid x y head_in e
  filled_suc (suc i) h =
      element_at-write_ne g1 p.valid x y head_in e _ _ (still _ _ (fits (suc i) h).0)
        (leaves_head d i x y dir)
      ∙ p.filled i (omega arith)

  Placed-suc : Placed g (write_at g1 x y e) x y e (suc m) d
  Placed-suc = record {
    valid = write_at-IsGrid g1 p.valid x y head_in e;
    width = same_width ∙ p.width;
    height = same_height ∙ p.height;
    filled = filled_suc;
    kept = λ x' y' h off.
        element_at-write_ne g1 p.valid x y head_in e x' y' (still x' y' h) (off 0 (omega arith))
        ∙ p.kept x' y' h (λ i lt. off (suc i) (omega arith));
    counted = λ c ne.
        ground (arith, p.counted c ne, count-write_at c g1 x y e p.valid head_in, head_free, ne);
  }
    where
      same_width : (write_at g1 x y e).size_x ≡ g1.size_x
      same_width = width-write_at g1 x y e

      same_height : (write_at g1 x y e).size_y ≡ g1.size_y
      same_height = height-write_at g1 x y e

-- The three ways in which a draw ends.
abbrev pub DrawSpec : Grid → ℤ → ℤ → ℕ → ℕ → ℕ → ℤ × Grid → Type 0
DrawSpec g x y e m d (r, g') =
    (r ≡ pos 0) × Fits g x y m d × Placed g g' x y e m d
    ⊎ (r ≢ pos 0) × (g' ≡ g) × (¬ Fits g x y m d)

Fits-cons :
    (g : Grid) (x y : ℤ) (m d : ℕ)
    → check_inside_this g x y ≡ true
    → element_at g x y ≡ default_element
    → Fits g (resolve_cord_x x d) (resolve_cord_y y d) m d
    → Fits g x y (suc m) d
Fits-cons g x y m d inside free rest zero lt = (inside, free)
Fits-cons g x y m d inside free rest (suc i) lt = rest i (omega arith)

not_zero : (r : ℤ) → r ≢ pos 0 → eq_ℤ r (pos 0) ≡ false
not_zero r h = elim (Bool-cases (eq_ℤ r (pos 0))) [
  | inl e ↦ absurd (h (eq_ℤ→≡ r (pos 0) e))
  | inr e ↦ e
]

zero_test : (r : ℤ) → r ≡ pos 0 → eq_ℤ r (pos 0) ≡ true
zero_test r h = rw h

DrawSpec-cell :
    (g : Grid) (x y : ℤ) (e m d : ℕ) (r : ℤ) (g1 : Grid)
    → is_direction d ≡ true
    → DrawSpec g (resolve_cord_x x d) (resolve_cord_y y d) e m d (r, g1)
    → DrawSpec g x y e (suc m) d (draw_cell g x y e (r, g1))
unfolding draw_cell
DrawSpec-cell g x y e m d r g1 dir rest = elim (Bool-cases (check_inside_this g x y)) [
  | inr out ↦
      rw out (inr (λ q. cc, refl, λ fits. absurd (ground (arith, (fits 0 (omega arith)).0))))
  | inl inside ↦ elim (Bool-cases (element_at g x y == default_element)) [
    | inr taken ↦
        rw (inside, taken)
          (inr (λ q. cc, refl, λ fits. absurd (ground (arith, (fits 0 (omega arith)).1))))
    | inl free ↦ elim rest [
      | inl (done, fits, placed) ↦
          let all = Fits-cons g x y m d inside (==→≡ _ _ free) fits in
          rw (inside, free, zero_test r done)
            (inl (done, all, Placed-suc g x y e m d dir all g1 placed))
      | inr (failed, same, unfit) ↦
          rw (inside, free, not_zero r failed)
            (inr (failed, same, λ fits. unfit (λ i lt. fits (suc i) (omega arith))))
    ]
  ]
]

-- From a well-formed board draw places the whole ship if every cell of it is on the board and free,
-- and returns 0. Otherwise it returns an error and the board is unchanged.
pub draw_lem :
    (g : Grid) (x y : ℤ) (e m d : ℕ)
    → IsGrid g
    → is_direction d ≡ true
    → DrawSpec g x y e m d (draw g x y e m d)
unfolding draw
draw_lem g x y e zero d v dir = inl (
  refl,
  λ i lt. absurd (omega arith),
  record {
    valid = v;
    width = refl;
    height = refl;
    filled = λ i lt. absurd (omega arith);
    kept = λ x' y' h off. refl;
    counted = λ c ne. ground arith;
  },
)
draw_lem g x y e (suc m) d v dir =
    DrawSpec-cell g x y e m d _ _ dir
      (draw_lem g (resolve_cord_x x d) (resolve_cord_y y d) e m d v dir)

-- From a well-formed board grid_draw refuses a direction that is not N, E, S or W. Else it draws the
-- ship, its head at the position given, from 1, with the element that stands for its number: if every
-- cell of the ship is on the board and free, it returns 0 and all of them have the element, no other
-- cell changes, and the counts of elements grow by the ship alone; otherwise it returns an error and
-- the board is unchanged.
pub grid_draw_lem :
    (g : Grid) (x y : ℤ) (e m d : ℕ)
    → IsGrid g
    → (is_direction d ≡ false → grid_draw g x y e m d ≡ (draw_direction_invalid, g))
      × (is_direction d ≡ true
          → DrawSpec g
              (position_resolve x)
              (position_resolve y)
              (ship_element e)
              m
              d
              (grid_draw g x y e m d))
unfolding grid_draw
grid_draw_lem g x y e m d v = (
  λ h. rw h,
  λ h. rw h (draw_lem g (position_resolve x) (position_resolve y) (ship_element e) m d v h),
)
