-- ===== src/Battle/Setup/Made.antt =====
-- game_set as a whole: a game that it makes from two maps is consistent and not over.
use cprogramming.Prelude.{
  ℕ, ◌≤◌, ◌≡◌, refl, ◌∙◌, ap, sym, subst, inl, inr, arith, ◌||◌, true, false, not, Option, none,
  some, List, [], ◌∷◌, ◌*◌, length, ℤ, pos, eq_ℤ, ltb, ltb_ℤ, Bool-cases, Option-cases, eq_ℤ→≡,
}
use cprogramming.Battle.Text.{Queue, queue_dequeue}
use cprogramming.Battle.Grid.{Grid, index, grid_init}
use cprogramming.Battle.Grid.Cells.{IsGrid, count_element}
use cprogramming.Battle.Move.{game_on}
use cprogramming.Battle.Game.{Game, game_status}
use cprogramming.Battle.Game.Fleet.{IsFleet, hull}
use cprogramming.Battle.Game.Over.{IsGame}
use cprogramming.Battle.Setup.{
  scan_value, read_ships, ship_area, game_init, draw_ships, game_draw, draw_maps, Outcome, failed,
  made, no_line, set_ships, set_size, game_set,
}
use cprogramming.Battle.Setup.Drawing.{draw_ships-Drawn}
use cprogramming.Battle.Setup.Ready.{
  AllPositive, Fresh, grid_init-Fresh, AsAsked, read_ships-AsAsked, Drawn-IsFleet,
}

-- A side before its map is drawn.
record IsFresh (n : ℕ) (total : ℤ) (g : Grid) (ships : List ℤ) : Type 0 where
  valid : IsGrid g
  free : (i : ℕ) → count_element (hull i) g ≡ 0
  as_many : length ships ≡ n
  positive : AllPositive ships
  total_n : total ≡ pos n

abbrev InitIsFresh : ℕ → Outcome → Type 0
InitIsFresh n (failed e) = Unit {0}
InitIsFresh n (made g) =
    IsFresh n g.player_total g.player g.player_ships × IsFresh n g.cpu_total g.cpu g.cpu_ships
InitIsFresh n no_line = Unit {0}

game_init-IsFresh : (x y : ℤ) (n : ℕ) (q : Queue) → InitIsFresh n (game_init x y n q)
unfolding game_init
game_init-IsFresh x y n q = elim (Option-cases (grid_init x y)) [
  | inl e ↦ rw (e, InitIsFresh, game_init) tt
  | inr (g, e) ↦
      let fresh = subst Fresh e (grid_init-Fresh x y) in
      elim (Option-cases (read_ships n q)) [
        | inl r ↦ rw (e, InitIsFresh, game_init, r) tt
        | inr (ms, r) ↦
            let asked = subst (AsAsked n) r (read_ships-AsAsked n q) in
            elim (Bool-cases (ltb (index x * index y) (ship_area ms))) [
              | inl big ↦ rw (e, InitIsFresh, game_init, r, big) tt
              | inr fits ↦
                  let side : IsFresh n (pos n) g ms = record {
                    valid = fresh.0;
                    free = fresh.1;
                    as_many = asked.0;
                    positive = asked.1;
                    total_n = refl;
                  } in
                  rw (e, InitIsFresh, game_init, r, fits) (side, side)
            ]
      ]
]

game_draw-IsFleet :
    (n : ℕ) (total : ℤ) (g : Grid) (ships : List ℤ) (q : Queue)
    → IsFresh n total g ships
    → eq_ℤ (game_draw g ships (some q)).0 (pos 0) ≡ true
    → IsFleet total (game_draw g ships (some q)).1 ships
unfolding game_draw
game_draw-IsFleet n total g ships q f h =
    subst (λ t. IsFleet t (draw_ships g 0 ships q).1 ships) (ap pos f.as_many ∙ sym f.total_n)
      (Drawn-IsFleet g _ ships f.free f.positive
        (draw_ships-Drawn g 0 ships q f.valid (eq_ℤ→≡ _ _ h)))

-- A game that is ready to play.
abbrev pub Ready : Outcome → Type 0
Ready (failed e) = Unit {0}
Ready (made g) = IsGame g × (game_status g ≡ game_on)
Ready no_line = Unit {0}

not_over :
    (n : ℕ) (g : Game)
    → 1 ≤ n
    → g.cpu_total ≡ pos n
    → g.player_total ≡ pos n
    → game_status g ≡ game_on
unfolding game_status
not_over n g h c p = ground arith

draw_maps-Ready :
    (n : ℕ) (o : Outcome) (pm cm : Queue)
    → 1 ≤ n
    → InitIsFresh n o
    → Ready (draw_maps o (some pm) (some cm))
unfolding draw_maps
draw_maps-Ready n (failed e) pm cm h f = tt
draw_maps-Ready n no_line pm cm h f = tt
draw_maps-Ready n (made g) pm cm h f =
    elim (Bool-cases (eq_ℤ (game_draw g.player g.player_ships (some pm)).0 (pos 0))) [
      | inr e ↦ rw e tt
      | inl e ↦ elim (Bool-cases (eq_ℤ (game_draw g.cpu g.cpu_ships (some cm)).0 (pos 0))) [
        | inr e' ↦ rw (e, e') tt
        | inl e' ↦
            rw (e, e')
              (
                record {
                  player_fleet =
                      game_draw-IsFleet n g.player_total g.player g.player_ships pm f.0 e;
                  cpu_fleet = game_draw-IsFleet n g.cpu_total g.cpu g.cpu_ships cm f.1 e';
                },
                not_over n _ h f.1.total_n f.0.total_n,
              )
      ]
    ]

set_ships-Ready :
    (x y : ℤ) (q : Queue) (pm cm : Queue) → Ready (set_ships x y q (some pm) (some cm))
unfolding set_ships
set_ships-Ready x y [] pm cm = tt
set_ships-Ready x y (t ∷ q) pm cm = elim (Option-cases (scan_value (queue_dequeue (t ∷ q)).0)) [
  | inl e ↦ rw (e, Ready, set_ships) tt
  | inr (n, e) ↦
      elim (Bool-cases (not (eq_ℤ n (pos (length q))) || ltb_ℤ n (pos 1) || ltb_ℤ (pos 15) n)) [
        | inl bad ↦ rw (e, Ready, set_ships, bad) tt
        | inr fine ↦
            rw (e, Ready, set_ships, fine)
              (draw_maps-Ready (index n) (game_init x y (index n) q) pm cm
                (at_least n (length q) fine) (game_init-IsFresh x y (index n) q))
      ]
]
  where
    at_least :
        (n : ℤ) (l : ℕ)
        → (not (eq_ℤ n (pos l)) || ltb_ℤ n (pos 1) || ltb_ℤ (pos 15) n) ≡ false
        → 1 ≤ index n
    at_least n l h = ground arith

set_size-Ready :
    (x y : Option ℤ) (q : Queue) (pm cm : Queue) → Ready (set_size x y q (some pm) (some cm))
unfolding set_size
set_size-Ready none y q pm cm = tt
set_size-Ready (some x) none q pm cm = tt
set_size-Ready (some x) (some y) q pm cm = set_ships-Ready x y q pm cm

game_set-Ready : (q pm cm : Queue) → Ready (game_set q (some pm) (some cm))
unfolding game_set
game_set-Ready [] pm cm = tt
game_set-Ready (a ∷ []) pm cm = tt
game_set-Ready (a ∷ b ∷ q) pm cm = set_size-Ready _ _ q pm cm

-- If game_set makes a game from rules and two maps, then the game is consistent: each side's board
-- is whole, each ship's counter is the number of its cells there, and the total is the number of
-- ships. The game is not over.
pub game_set-IsGame :
    (q pm cm : Queue) (g : Game)
    → game_set q (some pm) (some cm) ≡ made g
    → IsGame g × (game_status g ≡ game_on)
game_set-IsGame q pm cm g h = subst Ready h (game_set-Ready q pm cm)
