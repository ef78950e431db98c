-- ===== src/Battle/Grid/Cells.antt =====
-- Reading and writing single cells of a well-formed board.
use cprogramming.Prelude.{
  ℕ, zero, suc, ◌+◌, ◌<◌, ◌≡◌, ◌≢◌, refl, ◌∙◌, arith, true, List, [], ◌∷◌, ◌==◌, get_or, set,
  length, length-set, get_or-set_self, get_or-set_ne, ℤ, pos, negsuc, if◌then◌else◌, ◌⊎◌,
}
use cprogramming.Battle.Grid.{Grid, check_inside, check_inside_this, index, element_at, write_at}

-- Every row has this length.
abbrev pub Rows : ℕ → List (List ℕ) → Type 0
Rows w [] = Unit {0}
Rows w (r ∷ rs) = (length r ≡ w) × Rows w rs

pub record IsGrid (g : Grid) : Type 0 where
  pub rows : length g.plain ≡ g.size_y
  pub columns : Rows g.size_x g.plain

pub Rows-get :
    (w : ℕ) (rs : List (List ℕ)) (i : ℕ) → Rows w rs → i < length rs → length (get_or rs i []) ≡ w
Rows-get w [] i h lt = absurd (omega arith)
Rows-get w (r ∷ rs) zero h lt = h.0
Rows-get w (r ∷ rs) (suc i) h lt = Rows-get w rs i h.1 (omega arith)

pub Rows-set :
    (w : ℕ) (rs : List (List ℕ)) (i : ℕ) (r : List ℕ)
    → Rows w rs
    → length r ≡ w
    → Rows w (set rs i r)
Rows-set w [] i r h e = tt
Rows-set w (x ∷ rs) zero r h e = (e, h.1)
Rows-set w (x ∷ rs) (suc i) r h e = (h.0, Rows-set w rs i r h.1 e)

pub inside_index :
    (g : Grid) (x y : ℤ)
    → check_inside_this g x y ≡ true
    → (index x < g.size_x) × (index y < g.size_y) × (x ≡ pos (index x)) × (y ≡ pos (index y))
unfolding check_inside
inside_index g (pos x) (pos y) h = ground arith
inside_index g (pos x) (negsuc y) h = ground arith
inside_index g (negsuc x) y h = ground arith

pub width-write_at : (g : Grid) (x y : ℤ) (e : ℕ) → (write_at g x y e).size_x ≡ g.size_x
unfolding write_at
width-write_at g x y e = refl

pub height-write_at : (g : Grid) (x y : ℤ) (e : ℕ) → (write_at g x y e).size_y ≡ g.size_y
unfolding write_at
height-write_at g x y e = refl

module _ (g : Grid) (v : IsGrid g) (x y : ℤ) (inside : check_inside_this g x y ≡ true) where
  row_size : length (get_or g.plain (index y) []) ≡ g.size_x
  row_size =
      Rows-get g.size_x g.plain (index y) v.columns
        (omega (arith, inside_index g x y inside, v.rows))

  pub write_at-IsGrid : (e : ℕ) → IsGrid (write_at g x y e)
  unfolding write_at
  write_at-IsGrid e = record {
    rows = length-set g.plain (index y) _ ∙ v.rows;
    columns =
        Rows-set g.size_x g.plain (index y) _ v.columns
          (length-set (get_or g.plain (index y) []) (index x) e ∙ row_size);
  }

  pub element_at-write_self : (e : ℕ) → element_at (write_at g x y e) x y ≡ e
  unfolding element_at write_at
  element_at-write_self e =
      let i = inside_index g x y inside in
      rw (get_or-set_self g.plain (index y) _ [] (omega (arith, i, v.rows)))
        (get_or-set_self _ (index x) e 0 (omega (arith, i, row_size)))

  pub element_at-write_ne :
      (e : ℕ) (x' y' : ℤ)
      → check_inside_this g x' y' ≡ true
      → (x ≢ x') ⊎ (y ≢ y')
      → element_at (write_at g x y e) x' y' ≡ element_at g x' y'
  unfolding element_at write_at
  element_at-write_ne e x' y' h ne =
      let row = get_or g.plain (index y) [] in
      ground (
        arith,
        v.rows,
        inside_index g x y inside,
        inside_index g x' y' h,
        get_or-set_self g.plain (index y) (set row (index x) e) [],
        get_or-set_ne g.plain (index y) (index y') (set row (index x) e) [],
        get_or-set_ne row (index x) (index x') e 0,
      )

-- How often an element stands in a row, and on the board.
abbrev pub count : ℕ → List ℕ → ℕ
count c [] = 0
count c (e ∷ es) = (if e == c then 1 else 0) + count c es

abbrev pub count_rows : ℕ → List (List ℕ) → ℕ
count_rows c [] = 0
count_rows c (r ∷ rs) = count c r + count_rows c rs

pub count-set :
    (c : ℕ) (r : List ℕ) (i e : ℕ)
    → i < length r
    → count c (set r i e) + (if get_or r i 0 == c then 1 else 0)
      ≡ count c r + (if e == c then 1 else 0)
count-set c [] i e h = absurd (omega arith)
count-set c (x ∷ r) zero e h = omega arith
count-set c (x ∷ r) (suc i) e h = omega (arith, count-set c r i e (omega arith))

pub count_rows-set :
    (c : ℕ) (rs : List (List ℕ)) (i : ℕ) (r : List ℕ)
    → i < length rs
    → count_rows c (set rs i r) + count c (get_or rs i []) ≡ count_rows c rs + count c r
count_rows-set c [] i r h = absurd (omega arith)
count_rows-set c (x ∷ rs) zero r h = omega arith
count_rows-set c (x ∷ rs) (suc i) r h = omega (arith, count_rows-set c rs i r (omega arith))

abbrev pub count_element : ℕ → Grid → ℕ
count_element c g = count_rows c g.plain

-- A write changes the counts by the element that goes and the one that comes.
pub count-write_at :
    (c : ℕ) (g : Grid) (x y : ℤ) (e : ℕ)
    → IsGrid g
    → check_inside_this g x y ≡ true
    → count_element c (write_at g x y e) + (if element_at g x y == c then 1 else 0)
      ≡ count_element c g + (if e == c then 1 else 0)
unfolding write_at element_at
count-write_at c g x y e v inside =
    let row = get_or g.plain (index y) [] in
    let i = inside_index g x y inside in
    omega (
      arith,
      count_rows-set c g.plain (index y) (set row (index x) e) (omega (arith, i, v.rows)),
      count-set c row (index x) e (omega (arith, i, row_size g v x y inside)),
    )
