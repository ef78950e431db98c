-- ===== src/Battle/Game/Over.antt =====
-- Whole games: any turns keep both sides consistent, and game_status tells whose ships are sunk.
use cprogramming.Battle.Grid.{Grid}
use cprogramming.Prelude.{
  ℕ, zero, suc, refl, eq_ℤ→≡, pos_part, Bool, ◌<◌, ◌≡◌, ◌↔◌, ◌∙◌, ap, sym, inl, inr, arith, true,
  false, Option, List, [], ◌∷◌, length, get_or, ℤ, pos, eq_ℤ, Bool-cases,
}
use cprogramming.Battle.Text.{Thing}
use cprogramming.Battle.Grid.Cells.{count_element}
use cprogramming.Battle.Move.{win_player, win_cpu}
use cprogramming.Battle.Game.{Game, game_play_cpu, game_play_player, game_status}
use cprogramming.Battle.Game.Fleet.{IsFleet, afloat, hull}
use cprogramming.Battle.Game.Fleet.Shots.{game_play_-Keeps}

pub record IsGame (g : Game) : Type 0 where
  pub player_fleet : IsFleet g.player_total g.player g.player_ships
  pub cpu_fleet : IsFleet g.cpu_total g.cpu g.cpu_ships

-- A move of either side, as read.
pub data Turn : Type 0 where
  of_player : Option Thing → Turn
  of_cpu : Option Thing → Turn

unfoldable pub take_turn : Game → Turn → Game
take_turn g (of_player m) = (game_play_player g m).1
take_turn g (of_cpu m) = (game_play_cpu g m).1

unfoldable pub take_turns : Game → List Turn → Game
take_turns g [] = g
take_turns g (t ∷ ts) = take_turns (take_turn g t) ts

play_player-IsGame : (g : Game) (m : Option Thing) → IsGame g → IsGame (game_play_player g m).1
unfolding game_play_player
play_player-IsGame g m v = elim (Bool-cases (eq_ℤ g.cpu_total (pos 0))) [
  | inl over ↦ rw over v
  | inr on ↦ rw on (record {
    player_fleet = v.player_fleet;
    cpu_fleet = game_play_-Keeps g.cpu_total g.cpu g.cpu_ships m v.cpu_fleet;
  })
]

play_cpu-IsGame : (g : Game) (m : Option Thing) → IsGame g → IsGame (game_play_cpu g m).1
unfolding game_play_cpu
play_cpu-IsGame g m v = elim (Bool-cases (eq_ℤ g.player_total (pos 0))) [
  | inl over ↦ rw over v
  | inr on ↦ rw on (record {
    player_fleet = game_play_-Keeps g.player_total g.player g.player_ships m v.player_fleet;
    cpu_fleet = v.cpu_fleet;
  })
]

-- From a consistent game, every sequence of turns leads to a consistent one: each side's board is
-- whole, each ship's counter is the number of its cells not hit, and the total is the number of
-- ships that are not sunk.
pub take_turns-IsGame : (g : Game) (ts : List Turn) → IsGame g → IsGame (take_turns g ts)
unfolding take_turns take_turn
take_turns-IsGame g [] v = v
take_turns-IsGame g (of_player m ∷ ts) v =
    take_turns-IsGame (game_play_player g m).1 ts (play_player-IsGame g m v)
take_turns-IsGame g (of_cpu m ∷ ts) v =
    take_turns-IsGame (game_play_cpu g m).1 ts (play_cpu-IsGame g m v)

-- No cell of a ship of this side is left.
abbrev pub AllSunk : Grid → List ℤ → Type 0
AllSunk g ships = (i : ℕ) → i < length ships → count_element (hull i) g ≡ 0

afloat_none :
    (ships : List ℤ) (i : ℕ) → afloat ships ≡ 0 → i < length ships → get_or ships i (pos 0) ≡ pos 0
afloat_none [] i h lt = absurd (omega arith)
afloat_none (s ∷ ships) zero h lt = ground (arith, eq_ℤ→≡ s (pos 0))
afloat_none (s ∷ ships) (suc i) h lt = afloat_none ships i (omega arith) (omega arith)

none_afloat :
    (ships : List ℤ)
    → ((i : ℕ) → i < length ships → get_or ships i (pos 0) ≡ pos 0)
    → afloat ships ≡ 0
none_afloat [] h = refl
none_afloat (s ∷ ships) h =
    ground (arith, h 0 (omega arith), none_afloat ships (λ i lt. h (suc i) (omega arith)))

total_zero : (n : ℕ) (t : ℤ) → t ≡ pos n → (eq_ℤ t (pos 0) ≡ true) ↔ (n ≡ 0)
total_zero n t e = rw e (λ h. ground arith, λ h. ground arith)

sunk_test :
    (t : ℤ) (g : Grid) (ships : List ℤ)
    → IsFleet t g ships
    → (eq_ℤ t (pos 0) ≡ true) ↔ AllSunk g ships
sunk_test t g ships f = (
  λ h i lt.
      pos_inj (sym (f.hulls i lt) ∙ afloat_none ships i ((total_zero _ t f.total_afloat).0 h) lt),
  λ sunk.
      (total_zero _ t f.total_afloat).1
        (none_afloat ships (λ i lt. f.hulls i lt ∙ ap pos (sunk i lt))),
)
  where
    pos_inj : {a b : ℕ} → pos a ≡ pos b → a ≡ b
    pos_inj e = ap pos_part e

status_cases {ℓ} :
    {P Q : Type ℓ} (g : Game)
    → (eq_ℤ g.cpu_total (pos 0) ≡ true) ↔ P
    → (eq_ℤ g.player_total (pos 0) ≡ true) ↔ Q
    → ((game_status g ≡ win_player) ↔ P) × ((game_status g ≡ win_cpu) ↔ ((¬ P) × Q))
unfolding game_status
status_cases g p q = elim (Bool-cases (eq_ℤ g.cpu_total (pos 0))) [
  | inl c ↦ rw c ((λ _. p.0 c, λ _. refl), (λ h. absurd (ground arith), λ h. absurd (h.0 (p.0 c))))
  | inr c ↦ elim (Bool-cases (eq_ℤ g.player_total (pos 0))) [
    | inl d ↦
        rw (c, d)
          (
            (λ h. absurd (ground arith), λ h. absurd (unequal c (p.1 h))),
            (λ _. (λ h. unequal c (p.1 h), q.0 d), λ _. refl),
          )
    | inr d ↦
        rw (c, d)
          (
            (λ h. absurd (ground arith), λ h. absurd (unequal c (p.1 h))),
            (λ h. absurd (ground arith), λ h. absurd (unequal d (q.1 h.1))),
          )
  ]
]
  where
    unequal : {c : Bool} → c ≡ false → c ≡ true → ⊥
    unequal p q = cc

-- After any turns from a consistent game, game_status says that the player has won just when no
-- cell of the other side's ships is left, and that the other side has won just when no cell of the
-- player's ships is left and the player has not won.
pub game_status_lem :
    (g : Game) (ts : List Turn)
    → IsGame g
    → let end = take_turns g ts in
      ((game_status end ≡ win_player) ↔ AllSunk end.cpu end.cpu_ships)
      × ((game_status end ≡ win_cpu)
          ↔ ((¬ AllSunk end.cpu end.cpu_ships) × AllSunk end.player end.player_ships))
game_status_lem g ts v =
    let w = take_turns-IsGame g ts v in
    status_cases (take_turns g ts) (sunk_test _ _ _ w.cpu_fleet) (sunk_test _ _ _ w.player_fleet)
