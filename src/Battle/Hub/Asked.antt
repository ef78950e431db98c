-- ===== src/Battle/Hub/Asked.antt =====
-- 2310hub.c: what the hub has sent to the agents after a turn of each.
use cprogramming.Prelude.{
  ℕ, suc, ◌≡◌, ◌≤◌, ◌<◌, refl, sym, ◌∙◌, ap, arith, inl, inr, Bool, true, false, Option, none, some,
  List, [], ◌∷◌, length, ℤ, Bool-cases,
}
use cprogramming.Battle.Text.{Thing, thing_clean}
use cprogramming.Battle.Game.{Game, game_play_player, game_play_cpu}
use cprogramming.Battle.Game.Over.{Turn, of_player, of_cpu, take_turn}
use cprogramming.Battle.Hub.Closed.{game_play_player-left, game_play_cpu-left}
use cprogramming.Battle.Hub.Refused.{is_negative, game_play_player-IsKept, game_play_cpu-IsKept}
use cprogramming.Battle.Hub.{
  Sent, your_turn, accepted, accepted_nul, shot, done, Hub, ask1, ask2, tell1, tell2, is_short,
  answer_move, player_left, cpu_left,
}

-- The shots that an agent has been sent, the last first
abbrev pub shots : List Sent → List Turn
shots [] = []
shots (shot c t ∷ l) = t ∷ shots l
shots (your_turn ∷ l) = shots l
shots (accepted ∷ l) = shots l
shots (accepted_nul ∷ l) = shots l
shots (done ∷ l) = shots l

-- The game after some shots, the last of them first
abbrev pub replay : Game → List Turn → Game
replay g [] = g
replay g (t ∷ l) = take_turn (replay g l) t

-- The OK with a NUL behind its newline
abbrev pub has_nul : Sent → Bool
has_nul your_turn = false
has_nul accepted = false
has_nul accepted_nul = true
has_nul (shot c t) = false
has_nul done = false

abbrev pub nul_last : List Sent → Bool
nul_last [] = false
nul_last (s ∷ l) = has_nul s

abbrev pub is_own : Sent → Bool
is_own your_turn = false
is_own accepted = false
is_own accepted_nul = false
is_own (shot c (of_player m)) = true
is_own (shot c (of_cpu m)) = false
is_own done = false

-- Each shot of the first agent is sent right behind a NUL, and nothing else is.
abbrev pub BehindNul : List Sent → Type 0
BehindNul [] = Unit {0}
BehindNul (s ∷ l) = (is_own s ≡ nul_last l) × BehindNul l

abbrev pub WithoutNul : List Sent → Type 0
WithoutNul [] = Unit {0}
WithoutNul (s ∷ l) = (has_nul s ≡ false) × WithoutNul l

-- Both agents have been sent the same shots, and these give the game. To the first agent a NUL stands
-- before each of its own.
abbrev pub IsTold : Game → Hub → Type 0
IsTold g h =
    (h.game ≡ replay g (shots h.to1))
    × (shots h.to1 ≡ shots h.to2)
    × BehindNul h.to1
    × (nul_last h.to1 ≡ false)
    × WithoutNul h.to2

-- The first agent is asked with fewer answers to come than before.
abbrev pub Asked1 : Game → ℕ → Option (ℤ × Thing × Hub) → Type 0
Asked1 g n none = Unit {0}
Asked1 g n (some (c, m, h)) =
    (h.game ≡ take_turn (replay g (shots h.to1)) (of_player (some m)))
    × (length h.in1 < n)
    × (shots h.to1 ≡ shots h.to2)
    × BehindNul h.to1
    × (nul_last h.to1 ≡ false)
    × WithoutNul h.to2

abbrev pub Asked2 : Game → ℕ → Option (ℤ × Thing × Hub) → Type 0
Asked2 g n none = Unit {0}
Asked2 g n (some (c, m, h)) =
    (h.game ≡ take_turn (replay g (shots h.to1)) (of_cpu (some m)))
    × (length h.in1 < n)
    × (shots h.to1 ≡ shots h.to2)
    × BehindNul h.to1
    × (nul_last h.to1 ≡ false)
    × WithoutNul h.to2

pub Asked1-le :
    (g : Game) (n k : ℕ) (o : Option (ℤ × Thing × Hub)) → n ≤ k → Asked1 g n o → Asked1 g k o
Asked1-le g n k none le a = tt
Asked1-le g n k (some (c, m, h)) le a = (a.0, omega arith, a.2, a.3, a.4, a.5)

pub ask1-Asked1 :
    (g : Game) (answers : List Thing) (h : Hub)
    → IsTold g h
    → Asked1 g (length answers) (ask1 answers h)
unfolding ask1 take_turn
ask1-Asked1 g [] h told = tt
ask1-Asked1 g (b ∷ answers) h told = elim (Bool-cases (is_short (thing_clean b))) [
  | inl little ↦ rw little tt
  | inr enough ↦
      elim (Bool-cases (is_negative (game_play_player h.game (some (answer_move b))).0)) [
        | inl refused ↦
            rw (enough, refused)
              (Asked1-le g (length answers) (suc (length answers)) _ (omega arith) (
                ask1-Asked1 g answers _ (
                  game_play_player-IsKept h.game (some (answer_move b)) refused ∙ told.0,
                  told.1,
                  (sym told.3, told.2),
                  refl,
                  told.4,
                )))
        | inr fine ↦
            rw (enough, fine)
              (
                ap (λ r. r.1) (sym (game_play_player-left h.game b))
                    ∙ ap (λ g. (game_play_player g (some (player_left h.game (answer_move b)))).1)
                        told.0,
                omega arith,
                told.1,
                (sym told.3, told.2),
                refl,
                told.4,
              )
      ]
]

pub ask2-Asked2 :
    (g : Game) (n : ℕ) (answers : List Thing) (h : Hub)
    → IsTold g h
    → length h.in1 < n
    → Asked2 g n (ask2 answers h)
unfolding ask2 take_turn
ask2-Asked2 g n [] h told left = tt
ask2-Asked2 g n (b ∷ answers) h told left = elim (Bool-cases (is_short (thing_clean b))) [
  | inl little ↦ rw little tt
  | inr enough ↦ elim (Bool-cases (is_negative (game_play_cpu h.game (some (answer_move b))).0)) [
    | inl refused ↦
        rw (enough, refused)
          (ask2-Asked2 g n answers _
            (
              game_play_cpu-IsKept h.game (some (answer_move b)) refused ∙ told.0,
              told.1,
              told.2,
              told.3,
              (refl, told.4),
            )
            left)
    | inr fine ↦
        rw (enough, fine)
          (
            ap (λ r. r.1) (sym (game_play_cpu-left h.game b))
                ∙ ap (λ g. (game_play_cpu g (some (cpu_left h.game (answer_move b)))).1) told.0,
            left,
            told.1,
            told.2,
            told.3,
            (refl, told.4),
          )
  ]
]

-- A move has been told, and fewer than `n` answers of the first agent are to come.
abbrev pub Moved : Game → ℕ → Option Hub → Type 0
Moved g n none = Unit {0}
Moved g n (some h) = IsTold g h × (length h.in1 < n)

pub tell1-Moved :
    (g : Game) (n : ℕ) (o : Option (ℤ × Thing × Hub)) → Asked1 g n o → Moved g n (tell1 o)
unfolding tell1
tell1-Moved g n none a = tt
tell1-Moved g n (some (c, m, h)) (game, left, same, behind, last, without) = (
  (game, ap (λ l. of_player (some m) ∷ l) same, (refl, (sym last, behind)), refl, (refl, without)),
  left,
)

pub tell2-Moved :
    (g : Game) (n : ℕ) (o : Option (ℤ × Thing × Hub)) → Asked2 g n o → Moved g n (tell2 o)
unfolding tell2
tell2-Moved g n none a = tt
tell2-Moved g n (some (c, m, h)) (game, left, same, behind, last, without) = (
  (game, ap (λ l. of_cpu (some m) ∷ l) same, (sym last, behind), refl, (refl, (refl, without))),
  left,
)
