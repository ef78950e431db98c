-- ===== src/Rudp/Serve/Short.antt =====
-- RHandleServ.h: datagrams that are shorter than a packet.
use cprogramming.Prelude.{
  ℕ, zero, suc, ◌≡◌, ◌<◌, refl, ap, arith, Bool, true, none, some, List, [], ◌∷◌, length, overlay,
}
use cprogramming.Rudp.Process.{Files}
use cprogramming.Rudp.Serve.{
  RMsg, kept, rhdr_siz, insert_msg, fill_msg, update_msg, handle_msg, rhandle_port,
  rhandle_retransmit, put_at,
}

-- A first datagram that is shorter than a packet leaves the connection with a lock that nobody gives
-- back: rhandle_port returns true, but each later call for the port waits for ever, whatever the
-- datagram, and no round does anything about the connection.
pub rhandle_port_short :
    (fs : Files) (created : Bool) (bytes : List ℕ) (now : ℕ)
    → length bytes < rhdr_siz
    → (m : RMsg) × (rhandle_port fs created none bytes now ≡ some (m, true))
      × ((c : Bool) (more : List ℕ) (later : ℕ) → rhandle_port fs c (some m) more later ≡ none)
      × ((c : Bool) (later : ℕ) → rhandle_retransmit c later m ≡ m)
unfolding rhandle_port handle_msg insert_msg rhandle_retransmit
rhandle_port_short fs created bytes now short = (
  record (insert_msg bytes now) { lock = kept },
  ground arith,
  λ c more later. refl,
  λ c later. ground arith,
)

put_at_nothing : (n : ℕ) (array : List ℕ) → put_at n [] array ≡ array
put_at_nothing zero array = refl
put_at_nothing (suc n) [] = refl
put_at_nothing (suc n) (b ∷ array) = ap (λ r. b ∷ r) (put_at_nothing n array)

overlay_self : (array : List ℕ) → overlay array array ≡ array
overlay_self [] = refl
overlay_self (b ∷ array) = ap (λ r. b ∷ r) (overlay_self array)

fill_again :
    (m : RMsg) (bytes : List ℕ)
    → m.left ≡ 0
    → m.written ≡ rhdr_siz
    → length m.buf ≡ rhdr_siz
    → length bytes < rhdr_siz
    → fill_msg m bytes ≡ fill_msg m m.buf
unfolding fill_msg
fill_again m bytes done whole size short =
    ground (arith, put_at_nothing m.written m.buf, overlay_self m.buf)

-- Once a whole packet has come on a connection, a datagram that is shorter than a packet has the same
-- effect as that packet, if it came again: the bytes of the datagram are nowhere read.
pub rhandle_port_again :
    (fs : Files) (created : Bool) (m : RMsg) (bytes : List ℕ) (now : ℕ)
    → m.left ≡ 0
    → m.written ≡ rhdr_siz
    → length m.buf ≡ rhdr_siz
    → length bytes < rhdr_siz
    → rhandle_port fs created (some m) bytes now ≡ rhandle_port fs created (some m) m.buf now
unfolding rhandle_port update_msg
rhandle_port_again fs created m bytes now done whole size short =
    rw (fill_again m bytes done whole size short)
