-- ===== src/Battle/Hub.antt =====
-- 2310hub.c: the loop by which the hub asks two agents for their moves, and what it sends to them.
pub mod Refused
pub mod Closed
pub mod Asked
pub mod Told
use cprogramming.Prelude.{
  ℕ, zero, suc, Bool, true, false, not, Option, none, some, List, [], ◌∷◌, ◌++◌, ◌||◌, ltb,
  if◌then◌else◌, length, drop, ℤ, pos, negsuc, ltb_ℤ, eq_ℤ,
}
use cprogramming.Battle.Text.{Thing, thing_clean, thing_add}
use cprogramming.Battle.Move.{move_check, miss, hit, down, repeat, bad, illegal_m, game_on}
use cprogramming.Battle.Game.{Game, game_play_player, game_play_cpu, game_status}
use cprogramming.Battle.Game.Over.{Turn, of_player, of_cpu}

-- A line that is written to an agent: YT, OK, OK with a NUL behind its newline, what came of a shot,
-- and DONE
pub data Sent : Type 0 where
  your_turn : Sent
  accepted : Sent
  accepted_nul : Sent
  shot : ℤ → Turn → Sent
  done : Sent

-- display_selector of display.h; -3 is EXHAUST_MOVES_CPU.
unfoldable pub display_selector : ℤ → Thing
display_selector r =
    if eq_ℤ r miss
    then b'M' ∷ b'I' ∷ b'S' ∷ b'S' ∷ []
    else if eq_ℤ r hit
    then b'H' ∷ b'I' ∷ b'T' ∷ []
    else if eq_ℤ r down
    then b'S' ∷ b'H' ∷ b'I' ∷ b'P' ∷ b' ' ∷ b'S' ∷ b'U' ∷ b'N' ∷ b'K' ∷ []
    else if eq_ℤ r bad || eq_ℤ r illegal_m
    then b'B' ∷ b'A' ∷ b'D' ∷ b' ' ∷ b'G' ∷ b'U' ∷ b'E' ∷ b'S' ∷ b'S' ∷ []
    else if eq_ℤ r (negsuc 2)
    then b'C' ∷ b'P' ∷ b'U' ∷ b' ' ∷ b'g' ∷ b'i' ∷ b'v' ∷ b'e' ∷ b's' ∷ b' ' ∷ b'u' ∷ b'p' ∷ []
    else if eq_ℤ r repeat
    then b'R' ∷ b'E' ∷ b'P' ∷ b'E' ∷ b'A' ∷ b'T' ∷ b'E' ∷ b'D' ∷ b' ' ∷ b'G' ∷ b'U' ∷ b'E' ∷ b'S'
      ∷ b'S' ∷ []
    else if eq_ℤ r game_on
    then []
    else b'U' ∷ b'n' ∷ b'k' ∷ b'n' ∷ b'o' ∷ b'w' ∷ b'n' ∷ 10 ∷ []

abbrev turn_text : Turn → Thing
turn_text (of_player none) = []
turn_text (of_player (some m)) = m
turn_text (of_cpu none) = []
turn_text (of_cpu (some m)) = m

abbrev turn_id : Turn → ℕ
turn_id (of_player m) = b'1'
turn_id (of_cpu m) = b'2'

-- The message that is made of a shot, without its newline
unfoldable pub shot_message : ℤ → Turn → Thing
shot_message c t =
    thing_add
      (thing_add (thing_add (thing_clean (display_selector c)) (turn_id t ∷ []) b' ') (turn_text t)
        b',')
      [] 0

-- The bytes that are written
unfoldable pub sent_bytes : Sent → List ℕ
sent_bytes your_turn = b'Y' ∷ b'T' ∷ 10 ∷ []
sent_bytes accepted = b'O' ∷ b'K' ∷ 10 ∷ []
sent_bytes accepted_nul = b'O' ∷ b'K' ∷ 10 ∷ 0 ∷ []
sent_bytes (shot c t) = shot_message c t ++ 10 ∷ []
sent_bytes done = b'D' ∷ b'O' ∷ b'N' ∷ b'E' ∷ 10 ∷ []

-- The game, the answers that the agents will give, each a line as fgets reads it, and what was sent to
-- each agent, the last first
pub record Hub : Type 0 where
  pub game : Game
  pub in1 : List Thing
  pub in2 : List Thing
  pub to1 : List Sent
  pub to2 : List Sent

-- Whether an answer, once cleaned, has the six bytes that are skipped; what is read behind a shorter
-- one is not followed further.
abbrev is_short : Thing → Bool
is_short b = ltb (length b) 6

-- `m1` and `m2`: the answer, cleaned by thing_copy, from its seventh byte on
unfoldable pub answer_move : Thing → Thing
answer_move b = drop 6 (thing_clean b)

-- The move after game_play_player and game_play_cpu: move_check changes it in place, and is called
-- where the game is not over.
abbrev pub player_left : Game → Thing → Thing
player_left g m = if eq_ℤ g.cpu_total (pos 0) then m else (move_check m).1

abbrev pub cpu_left : Game → Thing → Thing
cpu_left g m = if eq_ℤ g.player_total (pos 0) then m else (move_check m).1

-- The inner loop for the first agent: what came of its shot, and the shot, as move_check of the game
-- has left it. It is none where no answer comes any more: the hub waits for one, as the agents keep
-- their pipes open.
unfoldable pub ask1 : List Thing → Hub → Option (ℤ × Thing × Hub)
ask1 [] h = none
ask1 (b ∷ answers) h =
    let m = answer_move b in
    let r = game_play_player h.game (some m) in
    let h' = record h { game = r.1; in1 = answers; to1 = your_turn ∷ h.to1 } in
    let rest = ask1 answers h' in
    if is_short (thing_clean b)
    then none
    else if ltb_ℤ r.0 (pos 0)
    then rest
    else some (r.0, player_left h.game m, h')

unfoldable pub ask2 : List Thing → Hub → Option (ℤ × Thing × Hub)
ask2 [] h = none
ask2 (b ∷ answers) h =
    let m = answer_move b in
    let r = game_play_cpu h.game (some m) in
    let h' = record h { game = r.1; in2 = answers; to2 = your_turn ∷ h.to2 } in
    let rest = ask2 answers h' in
    if is_short (thing_clean b)
    then none
    else if ltb_ℤ r.0 (pos 0)
    then rest
    else some (r.0, cpu_left h.game m, h')

-- The OK, to the first agent with a NUL behind it, and the shot, which both agents are sent
unfoldable pub tell1 : Option (ℤ × Thing × Hub) → Option Hub
tell1 none = none
tell1 (some (c, m, h)) =
    let s = shot c (of_player (some m)) in
    some (record h { to1 = s ∷ accepted_nul ∷ h.to1; to2 = s ∷ h.to2 })

unfoldable pub tell2 : Option (ℤ × Thing × Hub) → Option Hub
tell2 none = none
tell2 (some (c, m, h)) =
    let s = shot c (of_cpu (some m)) in
    some (record h { to2 = s ∷ accepted ∷ h.to2; to1 = s ∷ h.to1 })

unfoldable pub tell_done : Hub → Hub
tell_done h = record h { to1 = done ∷ h.to1; to2 = done ∷ h.to2 }

-- The hub waits for an answer, has ended the game, or has no fuel left.
pub data HubEnd : Type 0 where
  waits : HubEnd
  over : Hub → HubEnd
  no_fuel : HubEnd

-- A turn of each agent
unfoldable pub turn1 : Hub → Option Hub
turn1 h = tell1 (ask1 h.in1 h)

unfoldable pub turn2 : Hub → Option Hub
turn2 h = tell2 (ask2 h.in2 h)

-- What comes next, `k`, where the game is on, and where the hub has got a move
unfoldable pub while_on : (Hub → HubEnd) → Hub → HubEnd
while_on k h =
    let next = k h in if eq_ℤ (game_status h.game) game_on then next else over (tell_done h)

unfoldable pub with_move : (Hub → HubEnd) → Option Hub → HubEnd
with_move k none = waits
with_move k (some h) = k h

unfoldable pub hub_loop : ℕ → Hub → HubEnd
hub_loop zero h = no_fuel
hub_loop (suc n) h =
    while_on (λ h. with_move (while_on (λ h. with_move (hub_loop n) (turn2 h))) (turn1 h)) h
