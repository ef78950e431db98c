-- ===== src/Battle/Grid.antt =====
-- grid.c: a board of at most 26 by 26 elements, kept row by row. Positions are from 1 where a caller
-- gives them, and from 0 inside.
pub mod Cells
pub mod Ship
use cprogramming.Prelude.{
  ℕ, zero, suc, ◌+◌, ◌-◌, ◌*◌, Bool, true, false, not, ◌&&◌, ◌||◌, Option, none, some, List, [],
  ◌∷◌, ◌==◌, ltb, leb, if◌then◌else◌, get_or, set, ℤ, pos, negsuc, ◌+ℤ◌, ◌-ℤ◌, eq_ℤ,
}

-- A row is as long as the board is wide; the NUL behind it is left out.
pub record Grid : Type 0 where
  pub plain : List (List ℕ)
  pub size_x : ℕ
  pub size_y : ℕ

abbrev pub grid_max : ℕ
grid_max = 26

abbrev pub default_element : ℕ
default_element = b'.'

abbrev pub direction_north : ℕ
direction_north = b'N'

abbrev pub direction_south : ℕ
direction_south = b'S'

abbrev pub direction_east : ℕ
direction_east = b'E'

abbrev pub direction_west : ℕ
direction_west = b'W'

-- DRAW_BOUND_ERROR, DRAW_OVERLAP_ERROR and DRAW_DIRECTION_INVALID are -1, -2 and -6.
abbrev pub draw_bound_error : ℤ
draw_bound_error = negsuc 0

abbrev pub draw_overlap_error : ℤ
draw_overlap_error = negsuc 1

abbrev pub draw_direction_invalid : ℤ
draw_direction_invalid = negsuc 5

abbrev pub position_resolve : ℤ → ℤ
position_resolve p = p -ℤ pos 1

-- 0 ≤ x < max
abbrev pub in_range : ℤ → ℕ → Bool
in_range (pos n) max = ltb n max
in_range (negsuc n) max = false

unfoldable pub check_inside : ℤ → ℕ → ℤ → ℕ → Bool
check_inside x max_x y max_y = in_range x max_x && in_range y max_y

unfoldable pub check_inside_max : ℤ → ℤ → Bool
check_inside_max x y = check_inside (x -ℤ pos 1) grid_max (y -ℤ pos 1) grid_max

abbrev pub check_inside_this : Grid → ℤ → ℤ → Bool
check_inside_this g x y = check_inside x g.size_x y g.size_y

-- `plain[y][x]`, read and written at positions that are inside.
abbrev pub index : ℤ → ℕ
index (pos n) = n
index (negsuc n) = 0

unfoldable pub element_at : Grid → ℤ → ℤ → ℕ
element_at g x y = get_or (get_or g.plain (index y) []) (index x) 0

unfoldable pub write_at : Grid → ℤ → ℤ → ℕ → Grid
write_at g x y e = record g {
  plain = set g.plain (index y) (set (get_or g.plain (index y) []) (index x) e);
}

abbrev pub replicate {ℓ} : {A : Type ℓ} → ℕ → A → List A
replicate zero v = []
replicate (suc n) v = v ∷ replicate n v

unfoldable pub grid_clear : Grid → Grid
grid_clear g = record g { plain = replicate g.size_y (replicate g.size_x default_element) }

unfoldable pub grid_init : ℤ → ℤ → Option Grid
grid_init x y =
    if check_inside_max x y
    then some (grid_clear (record { plain = []; size_x = index x; size_y = index y }))
    else none

-- GRID_BOUND_ERROR is the character '\0', so the result is 0 either way.
unfoldable pub grid_set : Grid → ℤ → ℤ → ℕ → ℕ × Grid
grid_set g x y e =
    let x' = position_resolve x in
    let y' = position_resolve y in
    if check_inside_this g x' y' then (0, write_at g x' y' e) else (0, g)

unfoldable pub grid_get : Grid → ℤ → ℤ → ℕ
grid_get g x y =
    let x' = position_resolve x in
    let y' = position_resolve y in if check_inside_this g x' y' then element_at g x' y' else 0

-- Which elements of the board are shown.
unfoldable pub discrete_check : ℕ → List ℕ → ℕ
discrete_check e [] = default_element
discrete_check e (s ∷ shown) = if e == s then e else discrete_check e shown

unfoldable pub resolve_cord_x : ℤ → ℕ → ℤ
resolve_cord_x x d =
    if d == direction_east then x +ℤ pos 1 else if d == direction_west then x -ℤ pos 1 else x

unfoldable pub resolve_cord_y : ℤ → ℕ → ℤ
resolve_cord_y y d =
    if d == direction_north then y -ℤ pos 1 else if d == direction_south then y +ℤ pos 1 else y

-- One cell, given how the rest of the ship was drawn: it is written if there was room for the rest.
unfoldable pub draw_cell : Grid → ℤ → ℤ → ℕ → ℤ × Grid → ℤ × Grid
draw_cell g x y e rest =
    if not (check_inside_this g x y)
    then (draw_bound_error, g)
    else if not (element_at g x y == default_element)
    then (draw_overlap_error, g)
    else if eq_ℤ rest.0 (pos 0)
    then (rest.0, write_at rest.1 x y e)
    else rest

unfoldable pub draw : Grid → ℤ → ℤ → ℕ → ℕ → ℕ → ℤ × Grid
draw g x y e zero d = (pos 0, g)
draw g x y e (suc m) d = draw_cell g x y e (draw g (resolve_cord_x x d) (resolve_cord_y y d) e m d)

-- Elements past '9' go on from 'A'.
abbrev pub ship_element : ℕ → ℕ
ship_element e = if ltb b'9' e then e - b'9' - 1 + b'A' else e

abbrev pub is_direction : ℕ → Bool
is_direction d =
    d == direction_east || d == direction_north || d == direction_south || d == direction_west

unfoldable pub grid_draw : Grid → ℤ → ℤ → ℕ → ℕ → ℕ → ℤ × Grid
grid_draw g x y e m d =
    if not (is_direction d)
    then (draw_direction_invalid, g)
    else draw g (position_resolve x) (position_resolve y) (ship_element e) m d
