-- ===== src/Rudp/Serve/Runs.antt =====
-- RHandleServ.h: what a connection sends, after any datagrams and rounds.
use cprogramming.Prelude.{
  ℕ, ◌≡◌, refl, sym, ◌∙◌, ap, subst, arith, ◌⊎◌, inl, inr, Bool, true, false, ◌&&◌, not, Option,
  none, some, List, [], ◌∷◌, if◌then◌else◌, Bool-cases,
}
use cprogramming.Rudp.Hdr.{RHdr}
use cprogramming.Rudp.Queue.{curr, rhead_peak}
use cprogramming.Rudp.Process.{Files, FilesLaws, fname_of, is_none, convert_bytes, on_last}
use cprogramming.Rudp.Process.Packets.{AllPackets, convert_back}
use cprogramming.Rudp.Process.Served.{something_sent}
use cprogramming.Rudp.Serve.{
  RMsg, free, sending, rhandle_port, send_packet, csock_send, rhandle_retransmit, last_packet,
}
use cprogramming.Rudp.Serve.Sends.{IsServing, rhandle_port-IsServing, rhandle_retransmit-IsServing}

same_value : {A : Type 0} {a b : A} → some a ≡ some b → a ≡ b
same_value e = cc

module _ (fs : Files) (laws : FilesLaws fs) where
  converted_back :
      (q : List RHdr) {h : RHdr}
      → rhead_peak q ≡ some h
      → on_last (λ _. convert_bytes fs (convert_bytes fs h false) true) q ≡ q
  unfolding rhead_peak
  converted_back [] e = cc
  converted_back (h' ∷ q) {h} e = ap (λ g. g ∷ q) (convert_back fs laws h ∙ sym same)
    where
      same : h' ≡ h
      same = cc

  -- What the thread sends: nothing, or the last packet, which is its file's.
  abbrev pub Sends : RMsg → Option RHdr → Type 0
  Sends m out =
      (out ≡ none)
      ⊎ ((h : RHdr) × (q : List RHdr) × (r : RHdr) × (f : fs.File) × (m.state.mys ≡ h ∷ q)
          × (out ≡ some (convert_bytes fs h false))
          × (m.state.request ≡ some r)
          × (fs.fopen (fname_of r.msg) ≡ some f)
          × AllPackets (laws.contents f) (h ∷ q))

  last_of :
      (q : List RHdr) → is_none (rhead_peak q) ≡ false → (h : RHdr) × (t : List RHdr) × (q ≡ h ∷ t)
  unfolding rhead_peak
  last_of [] some_last = cc
  last_of (h ∷ t) some_last = (h, t, refl)

  abbrev sent_from : RMsg → RHdr → RMsg
  sent_from m h = record m { ona = m.ona && not (last_packet h); lock = free }

  send_packet_lem :
      (m : RMsg) (h : RHdr)
      → curr m.state ≡ some h
      → send_packet fs m (curr m.state) ≡ some (sent_from m h, some (convert_bytes fs h false))
  unfolding send_packet
  send_packet_lem m h e = ap (send_packet fs m) e ∙ λ i. some (
    record (sent_from m h) { state = record (m.state) { mys = converted_back m.state.mys e i } },
    some (convert_bytes fs h false),
  )

  csock_send_on :
      (m : RMsg) (h : RHdr)
      → m.ona ≡ true
      → curr m.state ≡ some h
      → csock_send fs m ≡ some (sent_from m h, some (convert_bytes fs h false))
  unfolding csock_send
  csock_send_on m h on e =
      ap
        (λ o.
          if not o then some (record m { lock = free }, none) else send_packet fs m (curr m.state))
        on
      ∙ send_packet_lem m h e

  csock_send-Sends :
      (m : RMsg)
      → IsServing fs laws m
      → m.lock ≡ sending
      → (m' : RMsg) × (out : Option RHdr) × (csock_send fs m ≡ some (m', out))
        × IsServing fs laws m'
        × Sends m out
  unfolding csock_send rhead_peak
  csock_send-Sends m is lock = elim (Bool-cases m.ona) [
    | inr off ↦ (record m { lock = free }, none, simp off, (is.0, is.1, inl off), inl refl)
    | inl on ↦
        let packet : is_none (curr m.state) ≡ false = ground arith in
        let (h, q, e) = last_of m.state.mys packet in
        let last : curr m.state ≡ some h = ap rhead_peak e in
        let (r, f, asked, opens, all, n) =
          something_sent fs laws m.state.request m.state.ack m.state.mys last is.0 in
        (
          sent_from m h,
          some (convert_bytes fs h false),
          csock_send_on m h on last,
          (is.0, is.1, inr (inr packet)),
          inr (
            h,
            q,
            r,
            f,
            e,
            refl,
            asked,
            opens,
            subst (λ q. AllPackets (laws.contents f) q) e all,
          ),
        )
  ]

  -- One connection: it begins with a datagram, and then datagrams, rounds and threads come in any order.
  -- A datagram waits for the lock; a thread has it.
  pub data Reach : RMsg → Type 0 where
    first :
        (created : Bool) (bytes : List ℕ) (now : ℕ) {m : RMsg} {r : Bool}
        → rhandle_port fs created none bytes now ≡ some (m, r)
        → Reach m
    datagram :
        (created : Bool) (bytes : List ℕ) (now : ℕ) {m m' : RMsg} {r : Bool}
        → Reach m
        → rhandle_port fs created (some m) bytes now ≡ some (m', r)
        → Reach m'
    round :
        (created : Bool) (now : ℕ) {m : RMsg} → Reach m → Reach (rhandle_retransmit created now m)
    thread :
        {m m' : RMsg} {out : Option RHdr}
        → Reach m
        → m.lock ≡ sending
        → csock_send fs m ≡ some (m', out)
        → Reach m'

  Reach-IsServing : {m : RMsg} → Reach m → IsServing fs laws m
  Reach-IsServing (first created bytes now made) =
      rhandle_port-IsServing fs laws created none bytes now (λ m e. absurd (none_some e)) made
    where
      none_some : {m : RMsg} → none ≡ some m → ⊥
      none_some e = cc
  Reach-IsServing (datagram created bytes now {m} reach made) =
      let is = Reach-IsServing reach in
      rhandle_port-IsServing fs laws created (some m) bytes now
        (λ m' e. subst (IsServing fs laws) (same_value e) is) made
  Reach-IsServing (round created now {m} reach) =
      rhandle_retransmit-IsServing fs laws created now m (Reach-IsServing reach)
  Reach-IsServing (thread {m} {m'} reach lock made) =
      let (m'', out, e, is, sends) = csock_send-Sends m (Reach-IsServing reach) lock in
      subst (IsServing fs laws) (ap (λ p. p.0) (same_value (sym e ∙ made))) is

  -- Whatever datagrams, rounds and threads there were, a thread that has the lock never reads through
  -- NULL, and sends nothing or the last packet. Packet `k` of the connection, from 0, is numbered
  -- `k + 1`, and all packets are of the one file that the request names: packet `k` is block `k` of that
  -- file, the end if there is no such block, or the acknowledgement of the end; numbers and blocks are
  -- counted modulo 65536.
  pub csock_send_lem :
      (m : RMsg)
      → Reach m
      → m.lock ≡ sending
      → (m' : RMsg) × (out : Option RHdr) × (csock_send fs m ≡ some (m', out)) × Sends m out
  csock_send_lem m reach lock =
      let (m', out, e, is, sends) = csock_send-Sends m (Reach-IsServing reach) lock in
      (m', out, e, sends)
