-- ===== src/Rudp/Client/Transfer.antt =====
-- RClient.c with RProcess.h: a client and the server, where nothing is lost.
use cprogramming.Prelude.{
  ℕ, zero, suc, true, false, Option, none, some, List, [], ◌∷◌, take, overlay,
}
use cprogramming.Rudp.Hdr.{RHdr, msg_siz}
use cprogramming.Rudp.Queue.{empty_buf, rhead_peak, RState, curr}
use cprogramming.Rudp.Process.{
  Files, Answer, refused, send, bad_chk, worse_chk, convert_bytes, rprocess_request,
}
use cprogramming.Rudp.Process.Packets.{block}
use cprogramming.Rudp.Serve.{receive}
use cprogramming.Rudp.Client.{Client, Next, ended, goes_on, write_packet, read_packet}

-- What comes of a round: the server may send nothing, and the client may end.
pub data Round : Type 0 where
  silent : Round
  over : Client → RState → Round
  again : Client → RState → Round

abbrev pub after_read : RState → Next → Round
after_read s (ended c) = over c s
after_read s (goes_on c) = again c s

abbrev pub read_from : Files → Client → RState → Option RHdr → Round
read_from fs c s none = silent
read_from fs c s (some h) =
    after_read s (read_packet false c (convert_bytes fs (convert_bytes fs h false) true))

abbrev pub answered : Files → Client → RState × Answer → Round
answered fs c (s, bad_chk) = silent
answered fs c (s, worse_chk) = silent
answered fs c (s, refused) = read_from fs c s (curr s)
answered fs c (s, send) = read_from fs c s (curr s)

abbrev pub written : Files → RState → Client → Option RHdr → Round
written fs s c none = silent
written fs s c (some h) = answered fs c (rprocess_request fs (receive s (convert_bytes fs h false)))

-- One round: the packet of the client, and the server's.
unfoldable pub exchange : Files → Client → RState → Round
exchange fs c s = let c' = write_packet c in written fs s c' (rhead_peak c'.mys)

unfoldable pub exchanges : Files → ℕ → Client → RState → Round
exchanges fs zero c s = again c s
exchanges fs (suc n) c s = elim (exchange fs c s) [
  | silent ↦ silent
  | over c' s' ↦ over c' s'
  | again c' s' ↦ exchanges fs n c' s'
]

-- The states on the way: the server with `k` packets sent, and the client with as many read.
abbrev pub server : List RHdr → List RHdr → RHdr → ℕ → RState
server mys his r k = record {
  mys = mys;
  his = his;
  request = some r;
  naks = 0;
  ack = k;
  seq = suc k;
  chksum = false;
}

abbrev pub packet : ℕ → ℕ → ℕ → List ℕ → RHdr
packet seqn ackn flgv msg = record { seqn = seqn; ackn = ackn; chks = 0; flgv = flgv; msg = msg }

abbrev pub client : List RHdr → List RHdr → ℕ → List (List ℕ) → Client
client mys his track req = record {
  chksum = false;
  misbehave = false;
  misbehave_d = false;
  mys = mys;
  his = his;
  track_seqn = track;
  req = req;
}

-- The packets of the client: the request, and what acknowledges packet `k`.
abbrev pub request : List ℕ → RHdr
request name = packet 1 0 0x2002 (overlay (take msg_siz name) empty_buf)

abbrev pub ack_of : ℕ → RHdr
ack_of k = packet (suc k) k 0x9002 empty_buf

abbrev pub ack_end : ℕ → RHdr
ack_end k = packet (suc k) k 0x8802 empty_buf

abbrev pub data_of : ℕ → List ℕ → RHdr
data_of k bytes = packet k 0 0x1002 (overlay bytes empty_buf)

-- What the client has read after `n` packets, the last one first: the blocks of the file, each in a
-- message of zeros.
abbrev pub pages : List ℕ → ℕ → List (List ℕ)
pages file zero = []
pages file (suc n) = overlay (block file n) empty_buf ∷ pages file n
