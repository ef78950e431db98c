-- ===== src/Battle/Game/Fleet/Shots.antt =====
-- A shot at a side of the game, by game_play_: what it says, and that the side stays consistent.
use cprogramming.Prelude.{
  Option, none, some, ◌||◌, ◌&&◌, leb, ℕ, ◌-◌, ◌≤◌, ◌<◌, ◌≡◌, ◌≢◌, ◌∙◌, ap, sym, inl, inr, arith,
  true, false, if◌then◌else◌, List, length, get_or, set, ℤ, pos, ◌-ℤ◌, eq_ℤ, subst, Bool-cases,
  ◌==◌, ==→≡, ==→≢, get_or-set_self, get_or-set_ne, length-set,
}
use cprogramming.Battle.Text.{Thing}
use cprogramming.Battle.Move.{move_check, down, hit}
use cprogramming.Battle.Grid.{position_resolve, Grid, check_inside_this, element_at, write_at}
use cprogramming.Battle.Game.Fleet.{
  grid_set-inside, grid_get-inside, grid_get-outside, IsFleet-water, IsFleet, afloat-set, hull,
  hull-digit, hull_inj, count_other, count_hit, numbers_after, ℤ, Grid, List, check_inside_this,
}
use cprogramming.Battle.Game.{Shot, shoot_at, shoot, game_play_, fewer}
use cprogramming.Battle.Grid.Cells.{write_at-IsGrid, count_element, width-write_at, height-write_at}

module _ (total : ℤ) (g : Grid) (s : List ℤ) (f : IsFleet total g s) (x y : ℤ)
    (inside : check_inside_this g x y ≡ true) (low : b'1' ≤ element_at g x y)
    (high : element_at g x y ≤ b'9') where
  abbrev struck : ℕ
  struck = element_at g x y - b'1'

  abbrev fewer_cells : ℤ
  fewer_cells = get_or s struck (pos 0) -ℤ pos 1

  struck_lt : struck < length s
  struck_lt = f.numbers x y inside low high

  hull-struck : hull struck ≡ element_at g x y
  hull-struck = hull-digit (element_at g x y) low high

  left_over : fewer_cells ≡ pos (count_element (element_at g x y) (write_at g x y b'*'))
  left_over = ground (
    arith,
    f.hulls struck struck_lt,
    hull-struck,
    count_hit g f.valid x y inside b'*' (omega arith) struck hull-struck,
  )

  was_afloat : eq_ℤ (get_or s struck (pos 0)) (pos 0) ≡ false
  was_afloat = ground (
    arith,
    f.hulls struck struck_lt,
    hull-struck,
    count_hit g f.valid x y inside b'*' (omega arith) struck hull-struck,
  )

  hulls_after :
      (i : ℕ)
      → i < length (set s struck fewer_cells)
      → get_or (set s struck fewer_cells) i (pos 0)
        ≡ pos (count_element (hull i) (write_at g x y b'*'))
  hulls_after i lt = elim (Bool-cases (i == struck)) [
    | inl e ↦
        subst
          (λ j.
            get_or (set s struck fewer_cells) j (pos 0)
            ≡ pos (count_element (hull j) (write_at g x y b'*')))
          (sym (==→≡ i struck e))
          (get_or-set_self s struck fewer_cells (pos 0) struck_lt
            ∙ left_over
            ∙ ap (λ c. pos (count_element c (write_at g x y b'*'))) (sym hull-struck))
    | inr n ↦
        get_or-set_ne s struck i fewer_cells (pos 0) (λ e. ==→≢ i struck n (sym e))
        ∙ f.hulls i (subst (λ k. i < k) (length-set s struck fewer_cells) lt)
        ∙ ap pos (
            sym (
              count_other g f.valid x y inside b'*' (omega arith) i (
                subst (λ c. hull i ≢ c) hull-struck
                  (hull_inj struck i (λ e. ==→≢ i struck n (sym e))
                    (subst (λ c. c ≤ b'9') (sym hull-struck) high)))))
  ]

  -- The total goes down with the ship's last cell.
  abbrev total_after : ℤ
  total_after = if eq_ℤ fewer_cells (pos 0) then total -ℤ pos 1 else total

  IsFleet-hit : IsFleet total_after (write_at g x y b'*') (set s struck fewer_cells)
  IsFleet-hit = record {
    valid = write_at-IsGrid g f.valid x y inside b'*';
    hulls = hulls_after;
    numbers = λ x' y' h a b.
        subst (λ n. element_at (write_at g x y b'*') x' y' - b'1' < n)
          (sym (length-set s struck fewer_cells))
          (numbers_after g f.valid x y inside b'*' (omega arith) (length s) f.numbers x' y'
            (in_g x' y' h) a b);
    total_afloat =
        ground (arith, f.total_afloat, afloat-set s struck fewer_cells struck_lt, was_afloat);
  }
    where
      in_g :
          (x' y' : ℤ)
          → check_inside_this (write_at g x y b'*') x' y' ≡ true
          → check_inside_this g x' y' ≡ true
      in_g x' y' h = rw (width-write_at, height-write_at) at h

-- The side after a shot.
abbrev pub Keeps : ℤ → Shot → Type 0
Keeps total (res, g, s) = IsFleet (fewer res total) g s

Keeps-total : (t t' : ℤ) (g : Grid) (s : List ℤ) → t ≡ t' → IsFleet t g s → IsFleet t' g s
Keeps-total t t' g s e f = subst (λ n. IsFleet n g s) e f

total_fewer :
    (total left : ℤ)
    → (if eq_ℤ left (pos 0) then total -ℤ pos 1 else total)
      ≡ fewer (if eq_ℤ left (pos 0) then down else hit) total
total_fewer total left = elim (Bool-cases (eq_ℤ left (pos 0))) [ inl e ↦ rw e | inr e ↦ rw e ]

module _ (total : ℤ) (g : Grid) (s : List ℤ) (f : IsFleet total g s) (x y : ℤ) where
  -- On the board.
  shoot_at-inside :
      check_inside_this g (position_resolve x) (position_resolve y) ≡ true
      → Keeps total (shoot_at g s x y (element_at g (position_resolve x) (position_resolve y)))
  unfolding shoot_at
  shoot_at-inside inside =
      let e = element_at g (position_resolve x) (position_resolve y) in
      elim (Bool-cases (e == 0)) [
        | inl none_there ↦ rw none_there f
        | inr there ↦ elim (Bool-cases (e == b'.')) [
          | inl water ↦
              rw (there, water, grid_set-inside g x y b'/' inside)
                (IsFleet-water total g s f (position_resolve x) (position_resolve y) inside
                  (ground arith))
          | inr land ↦ elim (Bool-cases (e == b'/' || e == b'*')) [
            | inl again ↦ rw (there, land, again) f
            | inr new ↦ elim (Bool-cases (leb b'1' e && leb e b'9')) [
              | inr letter ↦ rw (there, land, new, letter) f
              | inl number ↦
                  rw (there, land, new, number, grid_set-inside g x y b'*' inside)
                    (Keeps-total _ _ _ _
                      (total_fewer total (get_or s (e - b'1') (pos 0) -ℤ pos 1)
                        ∙ ap (λ v. fewer (if eq_ℤ v (pos 0) then down else hit) total)
                            (sym (
                              get_or-set_self s (e - b'1') (get_or s (e - b'1') (pos 0) -ℤ pos 1)
                                (pos 0) (in_list inside number))))
                      (IsFleet-hit total g s f (position_resolve x) (position_resolve y) inside
                        (ground arith) (ground arith)))
            ]
          ]
        ]
      ]
    where
      in_list :
          check_inside_this g (position_resolve x) (position_resolve y) ≡ true
          → (leb b'1' (element_at g (position_resolve x) (position_resolve y))
              && leb (element_at g (position_resolve x) (position_resolve y)) b'9')
            ≡ true
          → element_at g (position_resolve x) (position_resolve y) - b'1' < length s
      in_list h n =
          struck_lt total g s f (position_resolve x) (position_resolve y) h (ground arith)
            (ground arith)

  shoot-Keeps : Keeps total (shoot g s x y)
  unfolding shoot shoot_at
  shoot-Keeps = elim (Bool-cases (check_inside_this g (position_resolve x) (position_resolve y))) [
    | inl inside ↦ rw (grid_get-inside g x y inside) (shoot_at-inside inside)
    | inr outside ↦ rw (grid_get-outside g x y outside) f
  ]

pub game_play_-Keeps :
    (total : ℤ) (g : Grid) (s : List ℤ) (m : Option Thing)
    → IsFleet total g s
    → Keeps total (game_play_ g s m)
unfolding game_play_
game_play_-Keeps total g s none f = f
game_play_-Keeps total g s (some m) f = elim (Bool-cases (move_check m).0) [
  | inl fine ↦ rw fine (shoot-Keeps total g s f _ _)
  | inr refused ↦ rw refused f
]
