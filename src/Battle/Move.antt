-- ===== src/Battle/Move.antt =====
-- move.c: which texts are moves, and the position that game_play_ of game.c reads from one.
use cprogramming.Prelude.{
  ◌+◌, ◌*◌, Bool, false, ◌&&◌, none, some, [], ◌∷◌, ◌==◌, leb, if◌then◌else◌, get_or, length, ℤ,
  pos, negsuc, sub_ℕ, leb_ℤ,
}
use cprogramming.Battle.Text.{Thing, scan_int, is_digit}

-- MISS, HIT, DOWN, WIN_PLAYER, WIN_CPU, GAME_ON, REPEAT, BAD and ILLEGAL_M of move.h
abbrev pub miss : ℤ
miss = pos 0

abbrev pub hit : ℤ
hit = pos 1

abbrev pub down : ℤ
down = pos 2

abbrev pub win_player : ℤ
win_player = pos 3

abbrev pub win_cpu : ℤ
win_cpu = pos 4

abbrev pub game_on : ℤ
game_on = pos 5

abbrev pub repeat : ℤ
repeat = negsuc 0

abbrev pub bad : ℤ
bad = negsuc 1

abbrev pub illegal_m : ℤ
illegal_m = negsuc 3

-- `m[1] = '\0'; strcat (m, m+2);` where the second byte is a space
unfoldable pub close_gap : Thing → Thing
close_gap [] = []
close_gap (c ∷ []) = c ∷ []
close_gap (c ∷ d ∷ t) = if d == b' ' then c ∷ t else c ∷ d ∷ t

-- The test on what `sscanf (m, "%c%d\n", &x, &y)` reads.
unfoldable pub scanned_move : Thing → Bool
scanned_move [] = false
scanned_move (x ∷ t) = elim (scan_int t) [
  | none ↦ false
  | some (y, rest) ↦
      leb (length (x ∷ t)) 4 && leb b'A' x && leb x b'Z' && leb_ℤ (pos 1) y && leb_ℤ y (pos 26)
]

-- The text is changed in place, so it is returned too.
unfoldable pub move_check : Thing → Bool × Thing
move_check [] = (false, [])
move_check (c ∷ t) = let m = close_gap (c ∷ t) in (scanned_move m, m)

-- `m[0]-CHAR_OFFSET`, and the number in `m[1]` and, if it is a digit, `m[2]`
unfoldable pub move_x : Thing → ℤ
move_x m = sub_ℕ (get_or m 0 0) 64

unfoldable pub move_y : Thing → ℤ
move_y m =
    if is_digit (get_or m 2 0)
    then sub_ℕ (get_or m 2 0 + get_or m 1 0 * 10) 528
    else sub_ℕ (get_or m 1 0) 48
