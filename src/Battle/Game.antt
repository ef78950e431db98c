-- ===== src/Battle/Game.antt =====
-- game.c: the two boards with their ships, the shots at them, and who has won.
pub mod Fleet
pub mod Over
use cprogramming.Prelude.{
  ℕ, ◌+◌, ◌-◌, Bool, true, false, not, ◌&&◌, ◌||◌, Option, none, some, List, ◌==◌, leb,
  if◌then◌else◌, get_or, set, ℤ, pos, negsuc, ◌-ℤ◌, eq_ℤ,
}
use cprogramming.Battle.Text.{Thing}
use cprogramming.Battle.Grid.{Grid, grid_get, grid_set}
use cprogramming.Battle.Move.{
  miss, hit, down, win_player, win_cpu, game_on, repeat, bad, illegal_m, move_check, move_x, move_y,
}

-- `struct _game`
pub record Game : Type 0 where
  pub player_total : ℤ
  pub player : Grid
  pub player_ships : List ℤ
  pub cpu_total : ℤ
  pub cpu : Grid
  pub cpu_ships : List ℤ

abbrev pub Shot : Type 0
Shot = ℤ × Grid × List ℤ

-- game_play_ after `grid_get`: the element decides.
unfoldable pub shoot_at : Grid → List ℤ → ℤ → ℤ → ℕ → Shot
shoot_at g s x y e =
    let i = e - b'1' in
    let s' = set s i (get_or s i (pos 0) -ℤ pos 1) in
    if e == 0
    then (bad, g, s)
    else if e == b'.'
    then (miss, (grid_set g x y b'/').1, s)
    else if e == b'/' || e == b'*'
    then (repeat, g, s)
    else if leb b'1' e && leb e b'9'
    then (if eq_ℤ (get_or s' i (pos 0)) (pos 0) then down else hit, (grid_set g x y b'*').1, s')
    else (miss, g, s)

unfoldable pub shoot : Grid → List ℤ → ℤ → ℤ → Shot
shoot g s x y = shoot_at g s x y (grid_get g x y)

unfoldable pub game_play_ : Grid → List ℤ → Option Thing → Shot
game_play_ g s none = (illegal_m, g, s)
game_play_ g s (some m) =
    let (fine, m') = move_check m in
    if fine then shoot g s (move_x m') (move_y m') else (illegal_m, g, s)

-- One ship fewer, if the shot sank one.
abbrev pub fewer : ℤ → ℤ → ℤ
fewer res total = if eq_ℤ down res then total -ℤ pos 1 else total

unfoldable pub game_play_cpu : Game → Option Thing → ℤ × Game
game_play_cpu g m =
    let (res, grid, ships) = game_play_ g.player g.player_ships m in
    if eq_ℤ g.player_total (pos 0) then (win_cpu, g) else (
      res,
      record g { player = grid; player_ships = ships; player_total = fewer res g.player_total },
    )

unfoldable pub game_play_player : Game → Option Thing → ℤ × Game
game_play_player g m =
    let (res, grid, ships) = game_play_ g.cpu g.cpu_ships m in
    if eq_ℤ g.cpu_total (pos 0)
    then (win_player, g)
    else (res, record g { cpu = grid; cpu_ships = ships; cpu_total = fewer res g.cpu_total })

unfoldable pub game_status : Game → ℤ
game_status g =
    if eq_ℤ g.cpu_total (pos 0)
    then win_player
    else if eq_ℤ g.player_total (pos 0)
    then win_cpu
    else game_on
