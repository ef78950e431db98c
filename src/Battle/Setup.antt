-- ===== src/Battle/Setup.antt =====
-- game.c: game_set, which reads the rules and the two maps, and game_init and game_draw below it. A
-- number in a line is what "%d" reads there. The lines of a map are sought only if there is a map.
pub mod Drawing
pub mod Ready
pub mod Made
use cprogramming.Prelude.{
  ℕ, zero, suc, ◌+◌, ◌*◌, Bool, true, false, ◌||◌, Option, none, some, not, List, [], ◌∷◌, ltb, leb,
  if◌then◌else◌, length, ℤ, pos, negsuc, ◌-ℤ◌, sub_ℕ, ltb_ℤ, eq_ℤ,
}
use cprogramming.Battle.Text.{Thing, Queue, queue_dequeue, scan_int, skip_spaces}
use cprogramming.Battle.Grid.{Grid, index, grid_init, grid_draw}
use cprogramming.Battle.Game.{Game}

abbrev pub game_bound_error : ℤ
game_bound_error = negsuc 10

abbrev pub game_overlap_error : ℤ
game_overlap_error = negsuc 11

abbrev pub game_data_queue_error : ℤ
game_data_queue_error = negsuc 12

abbrev pub game_ships_max_error : ℤ
game_ships_max_error = negsuc 13

abbrev pub game_queue_error : ℤ
game_queue_error = negsuc 15

abbrev pub game_rules_process_error : ℤ
game_rules_process_error = pos 50

unfoldable pub game_errors_offset : ℤ → ℤ
game_errors_offset e = e -ℤ pos 10

unfoldable pub scan_value : Option Thing → Option ℤ
scan_value none = none
scan_value (some t) = elim (scan_int t) [ none ↦ none | some (v, _) ↦ some v ]

-- The magnitudes, each positive, one from each line.
unfoldable pub read_ships : ℕ → Queue → Option (List ℤ)
read_ships zero q = some []
read_ships (suc n) q =
    let rest = read_ships n (queue_dequeue q).1 in
    elim (scan_value (queue_dequeue q).0) [
      | none ↦ none
      | some m ↦
          if ltb_ℤ (pos 0) m
          then elim rest [ none ↦ none | some ships ↦ some (m ∷ ships) ]
          else none
    ]

abbrev pub ship_area : List ℤ → ℕ
ship_area [] = 0
ship_area (m ∷ ms) = index m + ship_area ms

-- How game_set ends: an error, or the game that is set. `no_line` is a rule that is missing, where
-- `sscanf` is given NULL.
pub data Outcome : Type 0 where
  failed : ℤ → Outcome
  made : Game → Outcome
  no_line : Outcome

unfoldable pub game_init : ℤ → ℤ → ℕ → Queue → Outcome
game_init max_x max_y max_s q = elim (grid_init max_x max_y) [
  | none ↦ failed game_rules_process_error
  | some g ↦ elim (read_ships max_s q) [
    | none ↦ failed game_data_queue_error
    | some ships ↦
        if ltb (index max_x * index max_y) (ship_area ships)
        then failed game_ships_max_error
        else made (record {
          player_total = pos max_s;
          player = g;
          player_ships = ships;
          cpu_total = pos max_s;
          cpu = g;
          cpu_ships = ships;
        })
  ]
]

-- "%c%d %c"
unfoldable pub scan_place : Thing → Option (ℕ × ℤ × ℕ)
scan_place [] = none
scan_place (x ∷ t) = elim (scan_int t) [
  | none ↦ none
  | some (y, rest) ↦ elim (skip_spaces rest) [ [] ↦ none | (d ∷ _) ↦ some (x, y, d) ]
]

-- The place of one ship, from a line of at most five bytes.
unfoldable pub read_place : Option Thing → Option (ℕ × ℤ × ℕ)
read_place none = none
read_place (some t) = if ltb 5 (length t) then none else scan_place t

-- The loop of game_draw, from ship `s` on.
unfoldable pub draw_ships : Grid → ℕ → List ℤ → Queue → ℤ × Grid
draw_ships g s [] q = (pos 0, g)
draw_ships g s (m ∷ ms) q = elim (read_place (queue_dequeue q).0) [
  | none ↦ (game_queue_error, g)
  | some (x, y, d) ↦
      let r = grid_draw g (sub_ℕ x 64) y (s + b'1') (index m) d in
      let rest = draw_ships r.1 (suc s) ms (queue_dequeue q).1 in
      if eq_ℤ r.0 (pos 0) then rest else (game_errors_offset r.0, r.1)
]

unfoldable pub game_draw : Grid → List ℤ → Option Queue → ℤ × Grid
game_draw g ships none = (pos 0, g)
game_draw g ships (some q) = draw_ships g 0 ships q

-- The three errors of a map that are told apart. The process returns 0 for any other.
unfoldable pub map_error : (queue bound overlap : ℤ) → ℤ → ℤ
map_error queue bound overlap c =
    if eq_ℤ c game_queue_error
    then queue
    else if eq_ℤ c game_bound_error
    then bound
    else if eq_ℤ c game_overlap_error
    then overlap
    else pos 0

abbrev pub player_map_error : ℤ → ℤ
player_map_error = map_error (pos 100) (pos 80) (pos 60)

abbrev pub cpu_map_error : ℤ → ℤ
cpu_map_error = map_error (pos 110) (pos 90) (pos 70)

-- game_set from `int c = 0, cc = 0;` on
unfoldable pub draw_maps : Outcome → Option Queue → Option Queue → Outcome
draw_maps no_line pm cm = no_line
draw_maps (failed e) pm cm = failed e
draw_maps (made g) pm cm =
    let (c, player) = game_draw g.player g.player_ships pm in
    let (cc, cpu) = game_draw g.cpu g.cpu_ships cm in
    if not (eq_ℤ c (pos 0))
    then failed (player_map_error c)
    else if not (eq_ℤ cc (pos 0))
    then failed (cpu_map_error cc)
    else made (record g { player = player; cpu = cpu })

-- The number of ships: it must be that of the lines that are left.
unfoldable pub set_ships : ℤ → ℤ → Queue → Option Queue → Option Queue → Outcome
set_ships x y [] pm cm = no_line
set_ships x y (t ∷ q) pm cm = elim (scan_value (queue_dequeue (t ∷ q)).0) [
  | none ↦ failed game_data_queue_error
  | some n ↦
      if not (eq_ℤ n (pos (length q))) || ltb_ℤ n (pos 1) || ltb_ℤ (pos 15) n
      then failed game_data_queue_error
      else draw_maps (game_init x y (index n) q) pm cm
]

unfoldable pub set_size : Option ℤ → Option ℤ → Queue → Option Queue → Option Queue → Outcome
set_size none y q pm cm = failed game_data_queue_error
set_size (some x) none q pm cm = failed game_data_queue_error
set_size (some x) (some y) q pm cm = set_ships x y q pm cm

unfoldable pub game_set : Queue → Option Queue → Option Queue → Outcome
game_set [] pm cm = no_line
game_set (a ∷ []) pm cm = no_line
game_set (a ∷ b ∷ q) pm cm =
    set_size (scan_value (queue_dequeue (a ∷ b ∷ q)).0) (scan_value (queue_dequeue (b ∷ q)).0) q pm
      cm
