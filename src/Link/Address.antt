-- ===== src/Link/Address.antt =====
-- RIPop.h: the addresses that a switch hands out, in four boxes of a byte, and the test of an address
-- that is given as text.
pub mod Order
pub mod Good
use cprogramming.Prelude.{
  ℕ, zero, suc, ◌+◌, ◌-◌, ◌^◌, Bool, true, false, not, ◌&&◌, ◌||◌, List, [], ◌∷◌, ◌==◌, ltb, leb,
  if◌then◌else◌, bit_or,
}

abbrev pub ip_subnet_mask : ℕ
ip_subnet_mask = 255

abbrev pub ip_max_space : ℕ
ip_max_space = 32

abbrev pub ip_max_name : ℕ
ip_max_name = 16

-- `RIPsingle_t`
pub record Boxes : Type 0 where
  pub fst : ℕ
  pub snd : ℕ
  pub thd : ℕ
  pub frt : ℕ

abbrev pub no_ip : Boxes
no_ip = record { fst = 0; snd = 0; thd = 0; frt = 0 }

-- `RIPop_t`
pub record RipOp : Type 0 where
  pub ip_box : Boxes
  pub ip_cur : Boxes
  pub ip_max : Boxes
  pub space : ℕ

-- The address behind the current one
unfoldable pub next_ip : Boxes → Boxes
next_ip b =
    if ltb b.frt ip_subnet_mask
    then record b { frt = b.frt + 1 }
    else if ltb b.thd ip_subnet_mask
    then record b { frt = 0; thd = b.thd + 1 }
    else if ltb b.snd ip_subnet_mask
    then record b { thd = 0; snd = b.snd + 1 }
    else if ltb b.fst ip_subnet_mask
    then record b { snd = 0; fst = b.fst + 1 }
    else b

unfoldable pub below_max : Boxes → Boxes → Bool
below_max ip max =
    leb ip.frt max.frt && leb ip.snd max.snd && leb ip.thd max.thd && leb ip.fst max.fst

-- The switch, the address, and what is returned.
unfoldable pub assign_ip : RipOp → Bool → RipOp × Boxes × Bool
assign_ip op increment =
    let ip = next_ip op.ip_cur in
    if not increment
    then (op, ip, true)
    else if below_max ip op.ip_max
    then (record op { ip_cur = ip }, ip, true)
    else (op, no_ip, false)

-- One round of the first loop: bit `i` of the space, from the right end of the address.
unfoldable pub set_bit : ℕ → Boxes → Boxes
set_bit i b =
    if ltb i 8
    then record b { frt = bit_or b.frt (2 ^ i) }
    else if ltb i 16
    then record b { thd = bit_or b.thd (2 ^ (i - 8)) }
    else if ltb i 24
    then record b { snd = bit_or b.snd (2 ^ (i - 16)) }
    else record b { fst = bit_or b.fst (2 ^ (i - 24)) }

-- The first `n` rounds
unfoldable pub set_bits : ℕ → Boxes → Boxes
set_bits zero b = b
set_bits (suc n) b = set_bit n (set_bits n b)

abbrev or_cur : ℕ → ℕ → ℕ
or_cur max cur = if max == 0 then cur else max

-- `space` is at most 32 here; what is stored is the rest of it.
unfoldable pub justify : RipOp → ℕ → RipOp
justify op space =
    let rest = ip_max_space - space in
    let max = set_bits rest op.ip_max in
    let cur = op.ip_cur in
    record op {
      ip_max = record {
        fst = or_cur max.fst cur.fst;
        snd = or_cur max.snd cur.snd;
        thd = or_cur max.thd cur.thd;
        frt = or_cur max.frt cur.frt;
      };
      space = rest;
    }

-- The variables of the loop of rIpop_str_validate_good, the size that it counts among them.
pub record Counts : Type 0 where
  pub dots : ℕ
  pub digits : ℕ
  pub name_sz : ℕ
  pub bad : Bool

abbrev pub is_dot : ℕ → Bool
is_dot c = c == b'.'

abbrev pub is_digit : ℕ → Bool
is_digit c = not (ltb c b'0' || ltb b'9' c)

-- One byte that is not NUL, behind `prev`; `name[i] >= '0' || name[i] <= '9'` holds of every byte.
unfoldable pub count_byte : Bool → ℕ → Counts → Counts
count_byte after_dot c n = record n {
  dots = if is_dot c then n.dots + 1 else n.dots;
  digits = n.digits + 1;
  bad = (not (is_dot c) && not (is_digit c)) || (is_dot c && after_dot);
}

-- The rounds left, whether the byte before is a dot, and the text from here on; its end is its NUL.
unfoldable pub validate_loop : ℕ → Bool → List ℕ → Counts → Counts
validate_loop zero after_dot name n = n
validate_loop (suc rounds) after_dot [] n = record n { name_sz = n.name_sz + 1 }
validate_loop (suc rounds) after_dot (c ∷ name) n =
    let n' = count_byte after_dot c (record n { name_sz = n.name_sz + 1 }) in
    let rest = validate_loop rounds (is_dot c) name n' in
    if c == 0 then record n { name_sz = n.name_sz + 1 } else if n'.bad then n' else rest

abbrev no_counts : Counts
no_counts = record { dots = 0; digits = 0; name_sz = 0; bad = false }

unfoldable pub str_validate_good : List ℕ → Bool
str_validate_good name =
    let n = validate_loop ip_max_name false name no_counts in
    n.dots == 3 && leb 4 n.digits && leb n.digits 12 && not n.bad
