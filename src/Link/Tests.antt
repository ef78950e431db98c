-- ===== src/Link/Tests.antt =====
-- The theorems at a switch for 192.168.0.1/24, and at the map of four switches.
use cprogramming.Prelude.{Bool, ℕ, ◌≡◌, refl, arith, true, false, some, List, [], ◌∷◌}
use cprogramming.Link.Address.{
  Boxes, RipOp, no_ip, next_ip, below_max, assign_ip, set_bit, set_bits, justify, count_byte,
  validate_loop, str_validate_good,
}
use cprogramming.Link.Address.Order.{Ascending, assigned, assigned-Ascending}
use cprogramming.Link.Address.Good.{str_validate_good_lem}
use cprogramming.Link.Map.{
  Elem, prefix_loop, longest_prefix_matching, look_at, look_at_all, look_through, shortest_to,
  tabel_find, tabel_append,
}
use cprogramming.Link.Map.Least.{Route, append_all, distance_from, append_all-least}
use cprogramming.Link.Map.Clients.{tabel_all}
use cprogramming.Link.Map.Shortest.{entries, IsAnswer, shortest_to-IsAnswer}

abbrev boxes : ℕ → ℕ → ℕ → ℕ → Boxes
boxes a b c d = record { fst = a; snd = b; thd = c; frt = d }

abbrev switch : RipOp
switch = record {
  ip_box = boxes 192 168 0 1;
  ip_cur = boxes 192 168 0 1;
  ip_max = no_ip;
  space = 0;
}

-- A network of 2^8 addresses: what is left free in the greatest address is that of the switch.
justify_24 : justify switch 24 ≡ record switch { ip_max = boxes 192 168 0 255; space = 8 }
unfolding justify set_bits set_bit
justify_24 = refl

-- The last two boxes are full: the next address is 256 behind.
carry_skips : next_ip (boxes 10 0 255 255) ≡ boxes 10 1 0 255
unfolding next_ip
carry_skips = refl

abbrev small : RipOp
small = record switch { ip_max = boxes 192 168 0 4 }

-- The fourth call with `increment` fails; the calls without show the same address twice, and at last
-- one above the greatest.
abbrev calls_made : List Bool
calls_made = false ∷ false ∷ true ∷ true ∷ true ∷ true ∷ false ∷ []

small-assigned :
    assigned calls_made small
    ≡ (false, boxes 192 168 0 2, true)
      ∷ (false, boxes 192 168 0 2, true)
      ∷ (true, boxes 192 168 0 2, true)
      ∷ (true, boxes 192 168 0 3, true)
      ∷ (true, boxes 192 168 0 4, true)
      ∷ (true, no_ip, false)
      ∷ (false, boxes 192 168 0 5, true)
      ∷ []
unfolding assign_ip next_ip below_max
small-assigned = refl

assigned-Ascending_example :
    Ascending (boxes 192 168 0 1) (boxes 192 168 0 4) (assigned calls_made small)
assigned-Ascending_example =
    assigned-Ascending calls_made small (omega arith) (omega arith) (omega arith)

-- "10.0.0.1", and "192.168.100.1", which is refused
abbrev short_name : List ℕ
short_name = b'1' ∷ b'0' ∷ b'.' ∷ b'0' ∷ b'.' ∷ b'0' ∷ b'.' ∷ b'1' ∷ []

abbrev long_name : List ℕ
long_name =
    b'1' ∷ b'9' ∷ b'2' ∷ b'.' ∷ b'1' ∷ b'6' ∷ b'8' ∷ b'.' ∷ b'1' ∷ b'0' ∷ b'0' ∷ b'.' ∷ b'1' ∷ []

str_validate_good_lem_example : str_validate_good short_name ≡ true
str_validate_good_lem_example =
    str_validate_good_lem short_name
      (refl, (refl, (refl, (refl, (refl, (refl, (refl, (refl, tt))))))))

long_refused : str_validate_good long_name ≡ false
unfolding str_validate_good validate_loop count_byte
long_refused = refl

-- The address 5 from 1, 2 and 9, from 2 at first by a longer way
abbrev routes : List Route
routes =
    record { from_ip = 1; to_ip = 5; distance = 7 }
    ∷ record { from_ip = 2; to_ip = 5; distance = 9 }
    ∷ record { from_ip = 9; to_ip = 5; distance = 8 }
    ∷ record { from_ip = 2; to_ip = 5; distance = 7 }
    ∷ []

append_all-least_example : distance_from (append_all [] routes) 2 5 ≡ some 7
append_all-least_example = append_all-least routes 2 5

abbrev two_ways : List Elem
two_ways =
    record { from_ip = 1; dists = record { to_ip = 5; distance = 7 } ∷ [] }
    ∷ record { from_ip = 4; dists = record { to_ip = 5; distance = 7 } ∷ [] }
    ∷ []

-- 4 and 5 have 31 bits in common, 1 and 5 only 29.
shortest_example : shortest_to (λ n. n) two_ways 5 ≡ 4
unfolding shortest_to look_through look_at_all look_at longest_prefix_matching prefix_loop
shortest_example = refl

shortest_to-IsAnswer_example :
    IsAnswer (λ n. n) 5 (shortest_to (λ n. n) two_ways 5) (entries 5 two_ways [])
shortest_to-IsAnswer_example =
    shortest_to-IsAnswer (λ n. n) two_ways 5 (omega arith, (omega arith, tt))

-- Clients 8 and 9 for the address 3: the second and NULL are not taken.
abbrev calls : List (ℕ × ℕ)
calls = (0, 3) ∷ (8, 3) ∷ (9, 3) ∷ []

calls_find : tabel_find (tabel_all [] calls) 3 ≡ 8
unfolding tabel_find tabel_append
calls_find = refl
