-- ===== src/Rudp/Serve.antt =====
-- RHandleServ.h: one connection of the server, `RMsg_t`: the datagrams that come for it, the packets
-- that are sent, and what is done when time has passed. Where the tree of the connections has none,
-- rhandle_port makes one.
pub mod Sends
pub mod Runs
pub mod Short
use cprogramming.Prelude.{
  ℕ, zero, suc, ◌+◌, ◌-◌, ◌%◌, ◌^◌, Bool, true, false, not, ◌&&◌, ◌||◌, Option, none, some, List,
  [], ◌∷◌, ◌==◌, ltb, leb, if◌then◌else◌, length, get_or, take, drop, replicate, overlay,
}
use cprogramming.Rudp.Hdr.{RHdr, msg_siz, ack_flag, fin_flag, chk_flag, flag_check}
use cprogramming.Rudp.Queue.{rhdr_init, rhead_append, RState, curr, rstate_init, rstate_destroy}
use cprogramming.Rudp.Process.{
  Files, Answer, refused, send, bad_chk, worse_chk, convert_bytes, is_none, on_last,
  rprocess_request, put_his,
}

abbrev pub rhdr_siz : ℕ
rhdr_siz = 1472

abbrev pub max_timeout : ℕ
max_timeout = 4

abbrev pub dead_timeout : ℕ
dead_timeout = 1000

-- Who has the lock of a connection: nobody, the thread of csock_send, which gives it back when it
-- ends, or a call that has ended.
pub data Lock : Type 0 where
  free sending kept : Lock

-- `written` and `left` are of the bytes of `buf`, which is `msg`. `ona` and `clr` are `active`, the
-- counts are `nreqs`. The port and the address, by which the trees find a connection, do not change.
pub record RMsg : Type 0 where
  pub buf : List ℕ
  pub written : ℕ
  pub left : ℕ
  pub his_stamp : ℕ
  pub mys_stamp : ℕ
  pub state : RState
  pub lock : Lock
  pub ona : Bool
  pub clr : Bool
  pub msg_pr : ℕ
  pub bad_pr : ℕ

abbrev pub u32 : ℕ → ℕ
u32 n = n % 2 ^ 32

-- `memcpy` to a place in an array
abbrev pub put_at : ℕ → List ℕ → List ℕ → List ℕ
put_at zero bytes array = overlay bytes array
put_at (suc n) bytes [] = []
put_at (suc n) bytes (b ∷ array) = b ∷ put_at n bytes array

-- The state of a new connection, after `memset`
unfoldable pub new_state : RState
new_state =
    rstate_init
      (record { mys = []; his = []; request = none; naks = 0; ack = 0; seq = 0; chksum = false })

-- A datagram for a connection that is not there yet
unfoldable pub insert_msg : List ℕ → ℕ → RMsg
insert_msg bytes now = record {
  buf = overlay bytes (replicate rhdr_siz 0);
  written = length bytes;
  left = rhdr_siz - length bytes;
  his_stamp = now;
  mys_stamp = now;
  state = new_state;
  lock = free;
  ona = true;
  clr = false;
  msg_pr = 1;
  bad_pr = 0;
}

-- A datagram for one that is there, and a new start where its state was taken down
unfoldable pub fill_msg : RMsg → List ℕ → RMsg
fill_msg m bytes =
    if leb rhdr_siz (length bytes)
    then record m { buf = overlay bytes m.buf; left = 0; written = rhdr_siz }
    else (let space = if ltb m.left (length bytes) then m.left else length bytes in
        record m {
          buf = put_at m.written (take space bytes) m.buf;
          left = m.left - space;
          written = m.written + space;
        })

unfoldable pub again : RMsg → RMsg
again m = if m.clr then record m { state = rstate_init m.state; ona = true; clr = false } else m

unfoldable pub update_msg : RMsg → List ℕ → ℕ → RMsg
update_msg m bytes now =
    let m' = fill_msg m bytes in
    again (record m' { msg_pr = u32 (m.msg_pr + 1); his_stamp = now; mys_stamp = now })

-- The header in the bytes, as they are in memory
unfoldable pub hdr_of : Files → List ℕ → RHdr
hdr_of fs bytes = record {
  seqn = fs.word (get_or bytes 0 0) (get_or bytes 1 0);
  ackn = fs.word (get_or bytes 2 0) (get_or bytes 3 0);
  chks = fs.word (get_or bytes 4 0) (get_or bytes 5 0);
  flgv = fs.word (get_or bytes 6 0) (get_or bytes 7 0);
  msg = take msg_siz (drop 8 bytes);
}

abbrev pub receive : RState → RHdr → RState
receive s h = put_his h (record s { his = rhead_append s.his })

-- What is done with the answer of rprocess_request: the result, and whether a thread is to be made.
-- `old_time` is the time of the datagram before; for a new connection the answer is never 2.
unfoldable pub after_answer : RMsg → ℕ → Answer → RMsg × Bool × Bool
after_answer m old_time bad_chk =
    (record m { his_stamp = old_time; mys_stamp = old_time; lock = free }, false, false)
after_answer m old_time worse_chk =
    (record m { clr = false; ona = false; bad_pr = u32 (m.bad_pr + 1); lock = free }, false, false)
after_answer m old_time refused =
    if is_none (curr m.state)
    then (record m { clr = false; ona = false; bad_pr = u32 (m.bad_pr + 1) }, true, true)
    else (m, true, true)
after_answer m old_time send = (m, true, true)

-- The thread, `created` or not, for a connection whose lock was taken
abbrev pub start_thread : Bool → RMsg → RMsg
start_thread created m = if created then record m { lock = sending } else m

-- From the lock on. The lock has to be free; what is taken and not given back is `kept`.
unfoldable pub handle_msg : Files → Bool → ℕ → RMsg → RMsg × Bool
handle_msg fs created old_time m0 =
    let m = record m0 { lock = kept } in
    if m.left == 0 && m.written == rhdr_siz
    then (let (s, answer) = rprocess_request fs (receive m.state (hdr_of fs m.buf)) in
        let (m', result, thread) = after_answer (record m { state = s }) old_time answer in
        (if thread then start_thread created m' else m', result))
    else (m, true)

abbrev pub is_free : Lock → Bool
is_free free = true
is_free sending = false
is_free kept = false

-- `none` means that the call waits for the lock.
unfoldable pub rhandle_port : Files → Bool → Option RMsg → List ℕ → ℕ → Option (RMsg × Bool)
rhandle_port fs created none bytes now = some (handle_msg fs created 0 (insert_msg bytes now))
rhandle_port fs created (some m) bytes now =
    let m' = update_msg m bytes now in
    if is_free m.lock then some (handle_msg fs created m.his_stamp m') else none

-- The thread: what it sends, and the connection without the lock; `none` is a fault, where the packet
-- is read through NULL. `FIN|ACK` is the last packet. The packet is converted in its place, and back.
unfoldable pub last_packet : RHdr → Bool
last_packet h = flag_check h (fin_flag + ack_flag) || flag_check h (fin_flag + ack_flag + chk_flag)

unfoldable pub send_packet : Files → RMsg → Option RHdr → Option (RMsg × Option RHdr)
send_packet fs m none = none
send_packet fs m (some h) =
    let sent = convert_bytes fs h false in
    let mys' = on_last (λ _. convert_bytes fs sent true) m.state.mys in
    some (
      record m {
        state = record (m.state) { mys = mys' };
        ona = m.ona && not (last_packet h);
        lock = free;
      },
      some sent,
    )

unfoldable pub csock_send : Files → RMsg → Option (RMsg × Option RHdr)
csock_send fs m =
    if not m.ona then some (record m { lock = free }, none) else send_packet fs m (curr m.state)

-- One connection in a round of rhandle_retransmit
unfoldable pub rhandle_retransmit : Bool → ℕ → RMsg → RMsg
rhandle_retransmit created now m =
    if not m.ona && not m.clr && is_free m.lock
    then record m { state = rstate_destroy m.state; ona = false; clr = true }
    else if leb max_timeout (now - m.mys_stamp) && m.ona && not m.clr && is_free m.lock
    then start_thread created (record m {
      ona = if leb dead_timeout (now - m.his_stamp) then false else m.ona;
      mys_stamp = now;
      lock = kept;
    })
    else m
