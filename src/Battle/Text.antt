-- ===== src/Battle/Text.antt =====
-- The text routines: thing_clean, thing_add and thing_replace of thing.h, the queue of things of
-- queue.c as the sequence of its texts, and what `sscanf` reads for "%d" and "%c". A text is the list
-- of its bytes without the NUL.
pub mod Clean
use cprogramming.Prelude.{
  ℕ, zero, suc, ◌+◌, ◌-◌, ◌*◌, Bool, true, false, not, ◌&&◌, ◌||◌, Option, none, some, List, [],
  ◌∷◌, ◌++◌, ◌==◌, ltb, leb, if◌then◌else◌, length, ℤ, pos, negsuc, sub_ℕ,
}

abbrev pub Thing : Type 0
Thing = List ℕ

abbrev pub thing_size : Thing → ℕ
thing_size t = length t + 1

-- The copying loop of thing_clean: of a run of spaces one is copied. `after` is whether the last
-- byte was a space.
unfoldable pub copy_spaced : (after : Bool) → Thing → Thing
copy_spaced after [] = []
copy_spaced after (c ∷ t) =
    let skipped = copy_spaced true t in
    let copied = c ∷ copy_spaced (c == b' ') t in if c == b' ' && after then skipped else copied

-- `if (t_c[f-2] == ' ') f--;`
unfoldable pub trim_end : Thing → Thing
trim_end [] = []
trim_end (c ∷ []) = if c == b' ' then [] else c ∷ []
trim_end (c ∷ d ∷ t) = c ∷ trim_end (d ∷ t)

-- `if (t_c[0] == ' ')` the text moves down by one.
unfoldable pub trim_start : Thing → Thing
trim_start [] = []
trim_start (c ∷ t) = if c == b' ' then t else c ∷ t

-- For a text that is not empty; of an empty one the code reads a byte before the copy.
unfoldable pub thing_clean : Thing → Thing
thing_clean t = trim_start (trim_end (copy_spaced false t))

-- The delimiter goes in as a text of one byte, which is empty for '\0'.
unfoldable pub thing_add : Thing → Thing → ℕ → Thing
thing_add src addon delem = src ++ ((if delem == 0 then [] else delem ∷ []) ++ addon)

-- Where neither byte is the NUL.
unfoldable pub thing_replace : Thing → ℕ → ℕ → Thing
thing_replace [] from to = []
thing_replace (c ∷ t) from to = (if c == from then to else c) ∷ thing_replace t from to

-- A queue of things: queue_enqueue copies into a new node at the end, queue_dequeue copies out of
-- the first one. Battle.Nodes has the linked nodes by which this is kept.
abbrev pub Queue : Type 0
Queue = List Thing

unfoldable pub queue_enqueue : Queue → Thing → Queue
queue_enqueue q t = q ++ (thing_clean t ∷ [])

unfoldable pub queue_dequeue : Queue → Option Thing × Queue
queue_dequeue [] = (none, [])
queue_dequeue (t ∷ q) = (some (thing_clean t), q)

-- `isspace` and `isdigit`
abbrev pub is_space : ℕ → Bool
is_space c = c == b' ' || (leb 9 c && leb c 13)

abbrev pub is_digit : ℕ → Bool
is_digit c = leb b'0' c && leb c b'9'

unfoldable pub skip_spaces : Thing → Thing
skip_spaces [] = []
skip_spaces (c ∷ t) = let rest = skip_spaces t in if is_space c then rest else c ∷ t

-- The digits that follow, and the rest; `none` if there is none to begin with.
unfoldable pub scan_more : ℕ → Thing → ℕ × Thing
scan_more n [] = (n, [])
scan_more n (c ∷ t) =
    let more = scan_more (n * 10 + (c - b'0')) t in if is_digit c then more else (n, c ∷ t)

unfoldable pub scan_digits : Thing → Option (ℕ × Thing)
scan_digits [] = none
scan_digits (c ∷ t) = if is_digit c then some (scan_more (c - b'0') t) else none

abbrev pub minus : Option (ℕ × Thing) → Option (ℤ × Thing)
minus none = none
minus (some (n, t)) = some (sub_ℕ 0 n, t)

abbrev pub plus : Option (ℕ × Thing) → Option (ℤ × Thing)
plus none = none
plus (some (n, t)) = some (pos n, t)

unfoldable pub scan_sign : Thing → Option (ℤ × Thing)
scan_sign [] = none
scan_sign (c ∷ t) =
    if c == b'-'
    then minus (scan_digits t)
    else if c == b'+'
    then plus (scan_digits t)
    else plus (scan_digits (c ∷ t))

-- "%d"
unfoldable pub scan_int : Thing → Option (ℤ × Thing)
scan_int t = scan_sign (skip_spaces t)
