-- ===== src/Battle/Hub/Told.antt =====
-- 2310hub.c: what the hub sends to the agents, and the game that follows from it.
use cprogramming.Prelude.{◌≡◌, false, List, [], eq_ℤ}
use cprogramming.Battle.Text.{Thing}
use cprogramming.Battle.Move.{game_on}
use cprogramming.Battle.Game.{Game, game_status}
use cprogramming.Battle.Hub.{Hub, HubEnd, waits, over, no_fuel}
use cprogramming.Battle.Hub.Asked.{IsTold}

-- An end of the game: the agents have been sent what IsTold says, and the game is over.
abbrev pub EndSpec : Game → HubEnd → Type 0
EndSpec g waits = Unit {0}
EndSpec g (over h) = IsTold g h × (eq_ℤ (game_status h.game) game_on ≡ false)
EndSpec g no_fuel = ⊥

-- The hub before the first round
abbrev pub start : Game → List Thing → List Thing → Hub
start g in1 in2 = record { game = g; in1 = in1; in2 = in2; to1 = []; to2 = [] }
