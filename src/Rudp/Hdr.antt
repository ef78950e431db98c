-- ===== src/Rudp/Hdr.antt =====
-- RHdr.h and RKey.h: the header, its flags, the check sum, and the encryption. A message is the list
-- of the bytes of its array.
pub mod Sum
pub mod Crypt
use cprogramming.Prelude.{
  ℕ, zero, suc, ◌+◌, ◌-◌, ◌*◌, ◌/◌, ◌%◌, ◌^◌, Bool, true, false, not, ◌&&◌, ◌||◌, List, [], ◌∷◌,
  ◌==◌, ltb, if◌then◌else◌, bit_and, bit_or,
}

-- `RHdr_t`: the four numbers of `content`, and the message.
pub record RHdr : Type 0 where
  pub seqn : ℕ
  pub ackn : ℕ
  pub chks : ℕ
  pub flgv : ℕ
  pub msg : List ℕ

abbrev pub r_version : ℕ
r_version = 2

abbrev pub msg_siz : ℕ
msg_siz = 1464

abbrev pub ack_flag : ℕ
ack_flag = 0x8000

abbrev pub nak_flag : ℕ
nak_flag = 0x4000

abbrev pub get_flag : ℕ
get_flag = 0x2000

abbrev pub dat_flag : ℕ
dat_flag = 0x1000

abbrev pub fin_flag : ℕ
fin_flag = 0x0800

abbrev pub chk_flag : ℕ
chk_flag = 0x0400

abbrev pub enc_flag : ℕ
enc_flag = 0x0200

unfoldable pub flag_set : RHdr → ℕ → RHdr
flag_set h flag = record h { flgv = bit_or h.flgv (bit_and flag 0xfe00) }

unfoldable pub flag_unset : RHdr → ℕ → RHdr
flag_unset h flag = record h { flgv = bit_and h.flgv (0xffff - bit_and flag 0xfe00) }

unfoldable pub flag_check : RHdr → ℕ → Bool
flag_check h flag = h.flgv == bit_or flag r_version

unfoldable pub flag_validate : RHdr → ℕ → Bool
flag_validate h flag = bit_and h.flgv (bit_or flag r_version) == bit_or flag r_version

unfoldable pub flag_confirm : RHdr → Bool
flag_confirm h = bit_and h.flgv 0x03ff == r_version

-- A `char` as a `uint16_t`: the sign is extended.
abbrev pub widen : ℕ → ℕ
widen c = if ltb c 128 then c else c + 0xff00

-- The product by 256 is the shift by 8.
unfoldable pub computer_chksum : ℕ → ℕ → ℕ
computer_chksum c1 c2 = (widen c1 + widen c2 * 256) % 2 ^ 16

-- The quotient by 2^16 is the shift by 16. The sum is of `uint32_t`.
unfoldable pub carry_around_add : ℕ → ℕ → ℕ
carry_around_add sum val =
    let over = (sum + val) % 2 ^ 32 in (over % 2 ^ 16 + over / 2 ^ 16) % 2 ^ 16

-- What `compute_func` returns, and the two bytes that it leaves in their places.
abbrev pub Compute : Type 0
Compute = ℕ → ℕ → ℕ × ℕ × ℕ

-- The loop, two bytes at a time: the sum, and the message.
unfoldable pub computer_loop : Compute → ℕ → List ℕ → ℕ × List ℕ
computer_loop f accum [] = (accum, [])
computer_loop f accum (c ∷ []) = (accum, c ∷ [])
computer_loop f accum (c1 ∷ c2 ∷ msg) =
    let (val, d1, d2) = f c1 c2 in
    let (sum, rest) = computer_loop f (carry_around_add accum val) msg in
    if c1 == 0 then (accum, c1 ∷ c2 ∷ msg) else (sum, d1 ∷ d2 ∷ rest)

-- The complement of a 16-bit number is the difference from 65535.
unfoldable pub rhdr_computer_internal : Compute → List ℕ → ℕ × List ℕ
rhdr_computer_internal f msg = let (accum, msg') = computer_loop f 0 msg in (0xffff - accum, msg')

unfoldable pub rhdr_computer_chksum : List ℕ → ℕ
rhdr_computer_chksum msg = (rhdr_computer_internal (λ c1 c2. (computer_chksum c1 c2, c1, c2)) msg).0

unfoldable pub valid_chksum : RHdr → Bool
valid_chksum h =
    if not (flag_validate h chk_flag) then false else rhdr_computer_chksum h.msg == h.chks

unfoldable pub client_chksum : RHdr → Bool
client_chksum h =
    if not (flag_validate h chk_flag)
    then false
    else if not (flag_check h get_flag || flag_check h (bit_or get_flag chk_flag))
        && not (h.chks == 65535)
    then false
    else valid_chksum h

-- The keys of RKey.h
abbrev pub key_n : ℕ
key_n = 249

abbrev pub key_d : ℕ
key_d = 15

abbrev pub key_e : ℕ
key_e = 11

-- The loop of powr, with `y - 1` rounds to go. The product is of `uint64_t`.
unfoldable pub powr_loop : ℕ → ℕ → ℕ → ℕ → ℕ
powr_loop x m z zero = z
powr_loop x m z (suc y) = powr_loop x m (z % m * x % 2 ^ 64) y

unfoldable pub powr : ℕ → ℕ → ℕ → ℕ
powr x y m = powr_loop x m x (y - 1) % m

unfoldable pub compute_crypt : ℕ → ℕ → ℕ → ℕ
compute_crypt ch po num = powr ch po num % 256

-- `encrypt_` and `decrypt_` write the two bytes back.
abbrev pub crypt_both : ℕ → Compute
crypt_both key c1 c2 = (0, compute_crypt c1 key key_n, compute_crypt c2 key key_n)

unfoldable pub encrypt : List ℕ → List ℕ
encrypt msg = (rhdr_computer_internal (crypt_both key_e) msg).1

unfoldable pub decrypt : List ℕ → List ℕ
decrypt msg = (rhdr_computer_internal (crypt_both key_d) msg).1
