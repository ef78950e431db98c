-- ===== src/Battle/Tests.antt =====
-- A small game: its rules and maps, some turns of it, and the theorems at these.
use cprogramming.Prelude.{◌≡◌, ◌↔◌, refl, true, false, Option, none, some, List, [], ◌∷◌, ℕ, pos}
use cprogramming.Battle.Text.{
  Queue, thing_add, thing_clean, copy_spaced, trim_end, trim_start, queue_dequeue, scan_int,
  scan_sign, scan_digits, scan_more, skip_spaces, Thing,
}
use cprogramming.Battle.Text.Clean.{IsClean, thing_clean_lem}
use cprogramming.Battle.Grid.{
  Grid, grid_init, grid_clear, grid_get, grid_set, grid_draw, draw, draw_cell, check_inside,
  check_inside_max, element_at, write_at, resolve_cord_x, resolve_cord_y, position_resolve,
  ship_element, is_direction, draw_direction_invalid,
}
use cprogramming.Battle.Grid.Cells.{IsGrid}
use cprogramming.Battle.Grid.Ship.{DrawSpec, grid_draw_lem}
use cprogramming.Battle.Move.{
  move_check, close_gap, scanned_move, move_x, move_y, win_player, win_cpu, game_on, miss, hit,
  down,
}
use cprogramming.Battle.Game.{
  Game, shoot_at, shoot, game_play_, game_play_player, game_play_cpu, game_status,
}
use cprogramming.Battle.Game.Over.{
  IsGame, of_player, of_cpu, Turn, take_turn, take_turns, take_turns-IsGame, AllSunk,
  game_status_lem,
}
use cprogramming.Battle.Hub.{
  Sent, your_turn, accepted_nul, shot, done, sent_bytes, shot_message, display_selector,
  answer_move, HubEnd, waits, over, no_fuel, ask1, ask2, tell1, tell2, tell_done, turn1, turn2,
  while_on, with_move, hub_loop,
}
use cprogramming.Battle.Hub.Told.{start}
use cprogramming.Battle.Setup.{
  scan_value, read_ships, game_init, scan_place, read_place, draw_ships, game_draw, draw_maps,
  set_ships, set_size, game_set, made,
}
use cprogramming.Battle.Setup.Made.{game_set-IsGame}

-- A board of two by two with one ship of two cells.
abbrev rules : Queue
rules = (b'2' ∷ []) ∷ (b'2' ∷ []) ∷ (b'1' ∷ []) ∷ (b'2' ∷ []) ∷ []

abbrev player_map : Queue
player_map = (b'A' ∷ b'1' ∷ b' ' ∷ b'E' ∷ []) ∷ []

abbrev cpu_map : Queue
cpu_map = (b'B' ∷ b'1' ∷ b' ' ∷ b'S' ∷ []) ∷ []

abbrev board : List (List ℕ) → Grid
board rows = record { plain = rows; size_x = 2; size_y = 2 }

abbrev small_game : Game
small_game = record {
  player_total = pos 1;
  player = board ((b'1' ∷ b'1' ∷ []) ∷ (b'.' ∷ b'.' ∷ []) ∷ []);
  player_ships = pos 2 ∷ [];
  cpu_total = pos 1;
  cpu = board ((b'.' ∷ b'1' ∷ []) ∷ (b'.' ∷ b'1' ∷ []) ∷ []);
  cpu_ships = pos 2 ∷ [];
}

small_game_made : game_set rules (some player_map) (some cpu_map) ≡ made small_game
unfolding game_set set_size set_ships draw_maps game_draw draw_ships read_place scan_place
    scan_value game_init read_ships queue_dequeue thing_clean copy_spaced trim_end trim_start
    scan_int scan_sign scan_digits scan_more skip_spaces grid_init grid_clear check_inside_max
    check_inside grid_draw draw draw_cell element_at write_at resolve_cord_x resolve_cord_y
small_game_made = refl

game_set-IsGame_example : IsGame small_game × (game_status small_game ≡ game_on)
game_set-IsGame_example = game_set-IsGame rules player_map cpu_map small_game small_game_made

-- The player sinks the ship, and the other side misses.
abbrev turns : List Turn
turns =
    of_player (some (b'B' ∷ b'1' ∷ []))
    ∷ of_cpu (some (b'A' ∷ b'2' ∷ []))
    ∷ of_player (some (b'B' ∷ b' ' ∷ b'2' ∷ []))
    ∷ []

small_game-IsGame : IsGame small_game
small_game-IsGame = (game_set-IsGame rules player_map cpu_map small_game small_game_made).0

take_turns-IsGame_example : IsGame (take_turns small_game turns)
take_turns-IsGame_example = take_turns-IsGame small_game turns small_game-IsGame

game_status_lem_example :
    ((game_status (take_turns small_game turns) ≡ win_player)
      ↔ AllSunk (take_turns small_game turns).cpu (take_turns small_game turns).cpu_ships)
    × ((game_status (take_turns small_game turns) ≡ win_cpu) ↔ (
        (¬ AllSunk (take_turns small_game turns).cpu (take_turns small_game turns).cpu_ships)
        × AllSunk (take_turns small_game turns).player (take_turns small_game turns).player_ships))
game_status_lem_example = game_status_lem small_game turns small_game-IsGame

player_wins : game_status (take_turns small_game turns) ≡ win_player
unfolding take_turns take_turn game_play_player game_play_cpu game_play_ move_check close_gap
    scanned_move scan_int scan_sign scan_digits scan_more skip_spaces move_x move_y shoot shoot_at
    grid_get grid_set check_inside element_at write_at game_status
player_wins = refl

small_board-IsGrid : IsGrid small_game.cpu
small_board-IsGrid = record { rows = refl; columns = (refl, (refl, tt)) }

grid_draw_lem_example :
    (is_direction b'S' ≡ false
      → grid_draw small_game.cpu (pos 1) (pos 1) b'2' 2 b'S'
        ≡ (draw_direction_invalid, small_game.cpu))
    × (is_direction b'S' ≡ true
        → DrawSpec small_game.cpu
            (position_resolve (pos 1))
            (position_resolve (pos 1))
            (ship_element b'2')
            2
            b'S'
            (grid_draw small_game.cpu (pos 1) (pos 1) b'2' 2 b'S'))
grid_draw_lem_example = grid_draw_lem small_game.cpu (pos 1) (pos 1) b'2' 2 b'S' small_board-IsGrid

-- A tenth ship is drawn with a letter, and a shot at a letter misses.
tenth_ship :
    shoot_at (board ((b'A' ∷ b'.' ∷ []) ∷ [])) [] (pos 1) (pos 1) b'A'
    ≡ (miss, board ((b'A' ∷ b'.' ∷ []) ∷ []), [])
unfolding shoot_at
tenth_ship = refl

-- "  A1  E " is cleaned to "A1 E".
abbrev padded : Thing
padded = b' ' ∷ b' ' ∷ b'A' ∷ b'1' ∷ b' ' ∷ b' ' ∷ b'E' ∷ b' ' ∷ []

padded_cleaned : thing_clean padded ≡ b'A' ∷ b'1' ∷ b' ' ∷ b'E' ∷ []
unfolding thing_clean copy_spaced trim_end trim_start
padded_cleaned = refl

thing_clean_lem_example :
    IsClean (thing_clean padded) × ((thing_clean padded ≡ padded) ↔ IsClean padded)
thing_clean_lem_example = thing_clean_lem padded

-- The answers of two agents, with their newlines: "GUESS  B1", the same again, which is refused, and
-- "GUESS B 2"; "GUESS A2"
abbrev guess : Thing → Thing
guess m = b'G' ∷ b'U' ∷ b'E' ∷ b'S' ∷ b'S' ∷ b' ' ∷ m

abbrev first_answers : List Thing
first_answers =
    guess (b' ' ∷ b'B' ∷ b'1' ∷ 10 ∷ [])
    ∷ guess (b' ' ∷ b'B' ∷ b'1' ∷ 10 ∷ [])
    ∷ guess (b'B' ∷ b' ' ∷ b'2' ∷ 10 ∷ [])
    ∷ []

abbrev second_answers : List Thing
second_answers = guess (b'A' ∷ b'2' ∷ 10 ∷ []) ∷ []

-- What an agent has been sent
abbrev to_first : HubEnd → Option (List Sent)
to_first waits = none
to_first (over h) = some h.to1
to_first no_fuel = none

-- The spaces are gone from the shots, and a NUL is sent before the two of the first agent.
hub_ends :
    to_first (hub_loop 4 (start small_game first_answers second_answers))
    ≡ some (
        done
        ∷ shot down (of_player (some (b'B' ∷ b'2' ∷ 10 ∷ [])))
        ∷ accepted_nul
        ∷ your_turn
        ∷ your_turn
        ∷ shot miss (of_cpu (some (b'A' ∷ b'2' ∷ 10 ∷ [])))
        ∷ shot hit (of_player (some (b'B' ∷ b'1' ∷ 10 ∷ [])))
        ∷ accepted_nul
        ∷ your_turn
        ∷ [])
unfolding hub_loop while_on with_move turn1 turn2 ask1 ask2 tell1 tell2 tell_done answer_move
    thing_clean copy_spaced trim_end trim_start game_play_player game_play_cpu game_play_ move_check
    close_gap scanned_move scan_int scan_sign scan_digits scan_more skip_spaces move_x move_y shoot
    shoot_at grid_get grid_set check_inside element_at write_at game_status
hub_ends = refl

-- "HIT 1,B1" with the newline of the answer and its own
hit_line :
    sent_bytes (shot hit (of_player (some (b'B' ∷ b'1' ∷ 10 ∷ []))))
    ≡ b'H' ∷ b'I' ∷ b'T' ∷ b' ' ∷ b'1' ∷ b',' ∷ b'B' ∷ b'1' ∷ 10 ∷ 10 ∷ []
unfolding sent_bytes shot_message display_selector thing_add thing_clean copy_spaced trim_end
    trim_start
hit_line = refl
