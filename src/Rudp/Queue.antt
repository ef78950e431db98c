-- ===== src/Rudp/Queue.antt =====
-- RQueue.h and RState.h: the two queues of a connection. A queue is the list of its headers, the last
-- one first.
use cprogramming.Prelude.{
  ℕ, ◌+◌, ◌%◌, Bool, true, false, ◌&&◌, Option, none, some, List, [], ◌∷◌, ◌==◌, ltb, if◌then◌else◌,
  length, take, drop, replicate, overlay,
}
use cprogramming.Rudp.Hdr.{RHdr, r_version, msg_siz, nak_flag, flag_check}

-- A `uint16_t`
abbrev pub u16 : ℕ → ℕ
u16 n = n % 65536

-- A message of zeros, EMPTY_BUF
unfoldable pub empty_buf : List ℕ
empty_buf = replicate msg_siz 0

unfoldable pub rhdr_init : RHdr
rhdr_init = record { seqn = 0; ackn = 0; chks = 0; flgv = r_version; msg = empty_buf }

-- The string is given without its NUL; what comes back is the part behind those bytes, if any.
unfoldable pub entry_puts : RHdr → List ℕ → RHdr × Option (List ℕ)
entry_puts h str = (
  record h { msg = overlay (take msg_siz str) h.msg },
  if ltb (length str) msg_siz then some (drop (length str) str) else none,
)

unfoldable pub rhead_append : List RHdr → List RHdr
rhead_append [] = record rhdr_init { seqn = 1 } ∷ []
rhead_append (last ∷ q) = record rhdr_init { seqn = u16 (last.seqn + 1) } ∷ last ∷ q

unfoldable pub rhead_peak : List RHdr → Option RHdr
rhead_peak [] = none
rhead_peak (last ∷ q) = some last

-- The sum with 1 is of `int`, so it does not wrap around.
unfoldable pub rhead_check_seq : List RHdr → Bool
rhead_check_seq [] = true
rhead_check_seq (tail ∷ []) = true
rhead_check_seq (tail ∷ prev ∷ q) =
    if flag_check tail nak_flag
    then true
    else tail.seqn == prev.seqn + 1 && tail.ackn == prev.ackn + 1

unfoldable pub rhead_fix_seq : List RHdr → List RHdr
rhead_fix_seq [] = []
rhead_fix_seq (tail ∷ []) = tail ∷ []
rhead_fix_seq (tail ∷ prev ∷ q) =
    if tail.seqn == prev.seqn + 1
    then tail ∷ prev ∷ q
    else record tail { seqn = u16 (prev.seqn + 1) } ∷ prev ∷ q

-- From the last header on.
unfoldable pub rhead_destroy_n_to_last : List RHdr → ℕ → List RHdr
rhead_destroy_n_to_last [] n = []
rhead_destroy_n_to_last (var ∷ q) n =
    let rest = rhead_destroy_n_to_last q n in
    if ltb var.seqn n then var ∷ q else if ltb n var.seqn then rest else var ∷ rest

-- `RState_t`. `curr` is not a field: each call of rprocess_request sets it to the last header of
-- `mys`, and again after it appends one. `request` is the header it points to.
pub record RState : Type 0 where
  pub mys : List RHdr
  pub his : List RHdr
  pub request : Option RHdr
  pub naks : ℕ
  pub ack : ℕ
  pub seq : ℕ
  pub chksum : Bool

abbrev pub curr : RState → Option RHdr
curr s = rhead_peak s.mys

-- `ack` is not set here.
unfoldable pub rstate_init : RState → RState
rstate_init s = record {
  mys = [];
  his = [];
  request = none;
  naks = 0;
  ack = s.ack;
  seq = 1;
  chksum = false;
}

unfoldable pub rstate_destroy : RState → RState
rstate_destroy s = record s { mys = []; his = []; request = none; seq = 0; ack = 0; chksum = false }
