-- ===== src/Battle/Hub/Refused.antt =====
-- game.c: moves for which the hub asks again, since their result is below 0.
use cprogramming.Prelude.{
  ℕ, ◌≡◌, refl, arith, Bool, true, false, Option, none, some, List, if◌then◌else◌, ℤ, pos, negsuc,
  ltb_ℤ, eq_ℤ,
}
use cprogramming.Battle.Text.{Thing}
use cprogramming.Battle.Grid.{Grid}
use cprogramming.Battle.Move.{move_check}
use cprogramming.Battle.Game.{
  Game, shoot_at, shoot, game_play_, game_play_player, game_play_cpu, fewer,
}

abbrev pub is_negative : ℤ → Bool
is_negative c = ltb_ℤ c (pos 0)

shoot_at_refused :
    (g : Grid) (s : List ℤ) (x y : ℤ) (e : ℕ)
    → is_negative (shoot_at g s x y e).0 ≡ true
    → ((shoot_at g s x y e).1 ≡ g) × ((shoot_at g s x y e).2 ≡ s)
unfolding shoot_at
shoot_at_refused g s x y e h = ground arith

-- A result below 0 comes with what was there before.
abbrev Refused : Grid → List ℤ → ℤ × Grid × List ℤ → Type 0
Refused g s r = is_negative r.0 ≡ true → (r.1 ≡ g) × (r.2 ≡ s)

Refused-if :
    (g : Grid) (s : List ℤ) (b : Bool) (x y : ℤ × Grid × List ℤ)
    → Refused g s x
    → Refused g s y
    → Refused g s (if b then x else y)
Refused-if g s true x y p q = p
Refused-if g s false x y p q = q

game_play_-Refused : (g : Grid) (s : List ℤ) (m : Option Thing) → Refused g s (game_play_ g s m)
unfolding game_play_ shoot
game_play_-Refused g s none = λ h. (refl, refl)
game_play_-Refused g s (some m) =
    Refused-if g s (move_check m).0 _ _ (shoot_at_refused g s _ _ _) (λ h. (refl, refl))

fewer_refused : (c total : ℤ) → is_negative c ≡ true → fewer c total ≡ total
fewer_refused (pos n) total h = absurd (ground arith)
fewer_refused (negsuc n) total h = refl

abbrev pub IsKept : Game → ℤ × Game → Type 0
IsKept g p = is_negative p.0 ≡ true → p.1 ≡ g

IsKept-if :
    (g : Game) (b : Bool) (x y : ℤ × Game) → IsKept g x → IsKept g y → IsKept g (if b then x else y)
IsKept-if g true x y p q = p
IsKept-if g false x y p q = q

-- A move that is refused leaves the game as it was.
pub game_play_player-IsKept : (g : Game) (m : Option Thing) → IsKept g (game_play_player g m)
unfolding game_play_player
game_play_player-IsKept g m =
    IsKept-if g (eq_ℤ g.cpu_total (pos 0)) _ _ (λ h. refl)
      (λ h.
        let same = game_play_-Refused g.cpu g.cpu_ships m h in
        let total = fewer_refused (game_play_ g.cpu g.cpu_ships m).0 g.cpu_total h in
        rw (same.0, same.1, total) refl)

pub game_play_cpu-IsKept : (g : Game) (m : Option Thing) → IsKept g (game_play_cpu g m)
unfolding game_play_cpu
game_play_cpu-IsKept g m =
    IsKept-if g (eq_ℤ g.player_total (pos 0)) _ _ (λ h. refl)
      (λ h.
        let same = game_play_-Refused g.player g.player_ships m h in
        let total = fewer_refused (game_play_ g.player g.player_ships m).0 g.player_total h in
        rw (same.0, same.1, total) refl)
