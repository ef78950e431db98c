-- ===== src/Battle/Hub/Closed.antt =====
-- move.c and game.c: a cleaned move and the move that move_check leaves of it are played alike.
use cprogramming.Prelude.{
  ℕ, zero, suc, ◌≡◌, refl, sym, subst, ◌∙◌, ap, arith, inl, inr, Bool, true, false, some, List, [],
  ◌∷◌, ◌==◌, if◌then◌else◌, drop, ℤ, pos, eq_ℤ, Bool-cases,
}
use cprogramming.Battle.Text.{Thing, thing_clean}
use cprogramming.Battle.Text.Clean.{Spaced, thing_clean-IsClean}
use cprogramming.Battle.Grid.{Grid}
use cprogramming.Battle.Move.{close_gap, scanned_move, move_check, move_x, move_y, illegal_m}
use cprogramming.Battle.Game.{Game, shoot, game_play_, game_play_player, game_play_cpu}
use cprogramming.Battle.Hub.{answer_move, player_left, cpu_left}

Spaced-any : (a : Bool) (t : Thing) → Spaced a t → Spaced false t
Spaced-any a [] s = tt
Spaced-any a (c ∷ t) s = (ground arith, s.1)

Spaced-drop : (n : ℕ) (t : Thing) → Spaced false t → Spaced false (drop n t)
Spaced-drop zero t s = s
Spaced-drop (suc n) [] s = tt
Spaced-drop (suc n) (c ∷ t) s = Spaced-drop n t (Spaced-any (c == b' ') t s.1)

answer_move-Spaced : (b : Thing) → Spaced false (answer_move b)
unfolding answer_move
answer_move-Spaced b =
    Spaced-drop 6 (thing_clean b) (Spaced-any true (thing_clean b) (thing_clean-IsClean b).0)

-- The gap is closed for good.
close_gap_self : (m : Thing) → Spaced false m → close_gap (close_gap m) ≡ close_gap m
unfolding close_gap
close_gap_self [] s = refl
close_gap_self (c ∷ []) s = refl
close_gap_self (c ∷ d ∷ []) s = ground arith
close_gap_self (c ∷ d ∷ e ∷ t) s = ground (arith, s.1.1.0)

close_gap_cons : (c : ℕ) (t : Thing) → close_gap (c ∷ t) ≡ c ∷ drop 1 (close_gap (c ∷ t))
unfolding close_gap
close_gap_cons c [] = refl
close_gap_cons c (d ∷ t) = ground arith

move_check_cons :
    (m : Thing) (c : ℕ) (t : Thing)
    → m ≡ c ∷ t
    → move_check m ≡ (scanned_move (close_gap m), close_gap m)
unfolding move_check
move_check_cons m c t e =
    subst (λ m. move_check m ≡ (scanned_move (close_gap m), close_gap m)) (sym e) refl

move_check_again : (m : Thing) → Spaced false m → move_check (move_check m).1 ≡ move_check m
unfolding move_check
move_check_again [] s = refl
move_check_again (c ∷ t) s =
    move_check_cons (close_gap (c ∷ t)) c (drop 1 (close_gap (c ∷ t))) (close_gap_cons c t)
    ∙ ap (λ m. (scanned_move m, m)) (close_gap_self (c ∷ t) s)

-- What the game makes of a move depends on what move_check says of it.
abbrev played : Grid → List ℤ → Bool × Thing → ℤ × Grid × List ℤ
played g s (fine, m) = if fine then shoot g s (move_x m) (move_y m) else (illegal_m, g, s)

game_play_again :
    (g : Grid) (s : List ℤ) (m : Thing)
    → Spaced false m
    → game_play_ g s (some (move_check m).1) ≡ game_play_ g s (some m)
unfolding game_play_
game_play_again g s m spaced = ap (played g s) (move_check_again m spaced)

-- A move that an agent has answered, and what is left of it
pub game_play_player-left :
    (g : Game) (b : Thing)
    → game_play_player g (some (player_left g (answer_move b)))
      ≡ game_play_player g (some (answer_move b))
unfolding game_play_player
game_play_player-left g b = elim (Bool-cases (eq_ℤ g.cpu_total (pos 0))) [
  | inl ended ↦ rw ended refl
  | inr on ↦
      rw on (rw (game_play_again g.cpu g.cpu_ships (answer_move b) (answer_move-Spaced b)) refl)
]

pub game_play_cpu-left :
    (g : Game) (b : Thing)
    → game_play_cpu g (some (cpu_left g (answer_move b))) ≡ game_play_cpu g (some (answer_move b))
unfolding game_play_cpu
game_play_cpu-left g b = elim (Bool-cases (eq_ℤ g.player_total (pos 0))) [
  | inl ended ↦ rw ended refl
  | inr on ↦
      rw on
        (rw (game_play_again g.player g.player_ships (answer_move b) (answer_move-Spaced b)) refl)
]
