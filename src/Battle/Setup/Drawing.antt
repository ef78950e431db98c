-- ===== src/Battle/Setup/Drawing.antt =====
-- What drawing the ships of a map does to a fresh board: how many cells of each element there are then.
use cprogramming.Prelude.{
  ℕ, zero, suc, ◌+◌, ◌≡◌, ◌≢◌, refl, ap, subst, inl, inr, arith, true, List, [], ◌∷◌, ◌==◌,
  if◌then◌else◌, length, ℤ, pos, eq_ℤ, Bool-cases, Option-cases, eq_ℤ→≡, sub_ℕ, pos_part,
}
use cprogramming.Battle.Text.{Queue, queue_dequeue}
use cprogramming.Battle.Grid.{
  Grid, index, grid_draw, replicate, default_element, is_direction, position_resolve, ship_element,
  draw_direction_invalid, draw, draw_cell, resolve_cord_x, resolve_cord_y,
}
use cprogramming.Battle.Grid.Cells.{IsGrid, Rows, count, count_rows, count_element}
use cprogramming.Battle.Grid.Ship.{Placed, grid_draw_lem}
use cprogramming.Battle.Game.Fleet.{hull}
use cprogramming.Battle.Setup.{read_place, draw_ships, game_errors_offset}

-- A fresh board.
pub Rows-replicate : (w n : ℕ) → Rows w (replicate n (replicate w default_element))
Rows-replicate w zero = tt
Rows-replicate w (suc n) = (width w, Rows-replicate w n)
  where
    width : (w : ℕ) → length (replicate w default_element) ≡ w
    width zero = refl
    width (suc w) = ap suc (width w)

pub length-replicate : (n : ℕ) (r : List ℕ) → length (replicate n r) ≡ n
length-replicate zero r = refl
length-replicate (suc n) r = ap suc (length-replicate n r)

count-replicate : (c w : ℕ) → c ≢ default_element → count c (replicate w default_element) ≡ 0
count-replicate c zero h = refl
count-replicate c (suc w) h = ground (arith, count-replicate c w h)

pub count_rows-replicate :
    (c w n : ℕ) → c ≢ default_element → count_rows c (replicate n (replicate w default_element)) ≡ 0
count_rows-replicate c w zero h = refl
count_rows-replicate c w (suc n) h =
    omega (arith, count_rows-replicate c w n h, count-replicate c w h)

-- How many cells with the element `c` the ships from number `s` on have.
abbrev pub drawn : ℕ → ℕ → List ℤ → ℕ
drawn c s [] = 0
drawn c s (m ∷ ms) = (if hull s == c then index m else 0) + drawn c (suc s) ms

-- What drawing the ships has done to a board.
pub record Drawn (g g' : Grid) (s : ℕ) (ms : List ℤ) : Type 0 where
  pub valid : IsGrid g'
  pub counted :
      (c : ℕ) → c ≢ default_element → count_element c g' ≡ count_element c g + drawn c s ms

Drawn-cons :
    (g g1 g2 : Grid) (x y : ℤ) (s d : ℕ) (m : ℤ) (ms : List ℤ)
    → Placed g g1 x y (hull s) (index m) d
    → Drawn g1 g2 (suc s) ms
    → Drawn g g2 s (m ∷ ms)
Drawn-cons g g1 g2 x y s d m ms p r = record {
  valid = r.valid;
  counted = λ c n. omega (arith, r.counted c n, p.counted c n);
}

-- A ship that grid_draw says is placed.
placed :
    (g : Grid) (x y : ℤ) (s m d : ℕ)
    → IsGrid g
    → eq_ℤ (grid_draw g x y (s + b'1') m d).0 (pos 0) ≡ true
    → Placed g
        (grid_draw g x y (s + b'1') m d).1
        (position_resolve x)
        (position_resolve y)
        (hull s)
        m
        d
placed g x y s m d v h = elim (Bool-cases (is_direction d)) [
  | inr e ↦
      absurd
        (bad (subst (λ r. eq_ℤ r.0 (pos 0) ≡ true) ((grid_draw_lem g x y (s + b'1') m d v).0 e) h))
  | inl e ↦ elim ((grid_draw_lem g x y (s + b'1') m d v).1 e) [
    | inl done ↦ done.2
    | inr not_done ↦ absurd (not_done.0 (eq_ℤ→≡ _ _ h))
  ]
]
  where
    bad : eq_ℤ draw_direction_invalid (pos 0) ≡ true → ⊥
    bad h = cc

-- The errors are negative, so they are errors of game_draw too.
draw-negative : (g : Grid) (x y : ℤ) (e m d : ℕ) → pos_part (draw g x y e m d).0 ≡ 0
unfolding draw draw_cell
draw-negative g x y e zero d = refl
draw-negative g x y e (suc m) d =
    ground (arith, draw-negative g (resolve_cord_x x d) (resolve_cord_y y d) e m d)

grid_draw-negative : (g : Grid) (x y : ℤ) (e m d : ℕ) → pos_part (grid_draw g x y e m d).0 ≡ 0
unfolding grid_draw
grid_draw-negative g x y e m d =
    ground (arith, draw-negative g (position_resolve x) (position_resolve y) (ship_element e) m d)

offset_error : (r : ℤ) → pos_part r ≡ 0 → game_errors_offset r ≢ pos 0
unfolding game_errors_offset
offset_error r h e = ground arith

abbrev pub DrawnIf : Grid → ℕ → List ℤ → ℤ × Grid → Type 0
DrawnIf g s ms (r, g') = r ≡ pos 0 → Drawn g g' s ms

pub draw_ships-Drawn :
    (g : Grid) (s : ℕ) (ms : List ℤ) (q : Queue) → IsGrid g → DrawnIf g s ms (draw_ships g s ms q)
unfolding draw_ships
draw_ships-Drawn g s [] q v = λ h. record { valid = v; counted = λ c n. omega arith }
draw_ships-Drawn g s (m ∷ ms) q v = elim (Option-cases (read_place (queue_dequeue q).0)) [
  | inl e ↦ rw (e, draw_ships) (λ h. absurd (ground arith))
  | inr ((x, y, d), e) ↦
      elim (Bool-cases (eq_ℤ (grid_draw g (sub_ℕ x 64) y (s + b'1') (index m) d).0 (pos 0))) [
        | inl fine ↦
            let p = placed g (sub_ℕ x 64) y s (index m) d v fine in
            rw (e, draw_ships, fine)
              (λ h. Drawn-cons g _ _ _ _ s d m ms p (
                draw_ships-Drawn (grid_draw g (sub_ℕ x 64) y (s + b'1') (index m) d).1 (suc s) ms
                  (queue_dequeue q).1 p.valid h))
        | inr wrong ↦
            rw (e, draw_ships, wrong)
              (λ h. absurd (
                offset_error (grid_draw g (sub_ℕ x 64) y (s + b'1') (index m) d).0
                  (grid_draw-negative g (sub_ℕ x 64) y (s + b'1') (index m) d) h))
      ]
]
