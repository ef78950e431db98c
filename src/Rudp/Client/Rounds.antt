-- ===== src/Rudp/Client/Rounds.antt =====
-- RClient.c with RProcess.h: each round of a client and the server.
use cprogramming.Prelude.{
  ℕ, suc, ◌+◌, ◌*◌, ◌<◌, ◌≡◌, ◌≢◌, refl, ◌∙◌, ap, arith, true, false, some, List, [], ◌∷◌, ◌==◌,
  ==_self, length, overlay,
}
use cprogramming.Rudp.Hdr.{
  RHdr, msg_siz, flag_check, flag_validate, flag_confirm, flag_unset, flag_set,
}
use cprogramming.Rudp.Queue.{u16, empty_buf, rhdr_init, rhead_append, rhead_peak, RState}
use cprogramming.Rudp.Process.{
  Files, FilesLaws, Answer, refused, send, fname_of, convert_bytes, on_last, all_zero,
  rprocess_request, process_last, process_converted, answer_chksum, answer_numbers, answer_flags,
  flags_after, answer_later, next_asked, serve_next, next_from, next_packet, append_packet,
  data_packet, fin_packet, snd_pkt, ret_pkt, with_chksum, serve_end, end_packet, is_fin,
}
use cprogramming.Rudp.Process.Packets.{block, convert_back}
use cprogramming.Rudp.Serve.{receive}
use cprogramming.Rudp.Client.{
  Client, Next, ended, goes_on, write_packet, read_packet, check_packet, answer_packet,
}
use cprogramming.Rudp.Client.Transfer.{
  over, again, after_read, answered, exchange, server, packet, client, ack_of, ack_end, data_of,
}

not_empty : (bytes : List ℕ) → bytes ≢ [] → length bytes == 0 ≡ false
not_empty bytes some_left = ground arith

receive_lem : (s : RState) (h : RHdr) → receive s h ≡ record s { his = h ∷ s.his }
unfolding rhead_append
receive_lem s h = λ i. record s { his = put_last s.his i }
  where
    put_last : (q : List RHdr) → on_last (λ _. h) (rhead_append q) ≡ h ∷ q
    put_last [] = refl
    put_last (x ∷ q) = refl

empty_zero : all_zero empty_buf ≡ true
unfolding empty_buf
empty_zero = refl

u16_next : (k : ℕ) → k < 65535 → u16 (k + 1) ≡ suc k
u16_next k h = omega arith

module _ (fs : Files) (laws : FilesLaws fs) where
  process_lem :
      (s : RState) (h : RHdr)
      → rprocess_request fs (receive s (convert_bytes fs h false))
        ≡ process_converted fs (record s { his = h ∷ s.his }) h
  unfolding rprocess_request process_last rhead_peak
  process_lem s h =
      ap (rprocess_request fs) (receive_lem s (convert_bytes fs h false))
      ∙ ap (λ h. process_converted fs (record s { his = h ∷ s.his }) h) (convert_back fs laws h)

  process_ack :
      (e r : RHdr) (q his : List RHdr) (k : ℕ) (f : fs.File)
      → fs.stat (fname_of r.msg) ≡ true
      → fs.fopen (fname_of r.msg) ≡ some f
      → process_converted fs (server (e ∷ q) his r k) (ack_of k)
        ≡ snd_pkt
            (append_packet (next_packet fs (fs.fseek f (k * msg_siz))) (server (e ∷ q) his r k))
  unfolding process_converted answer_chksum answer_numbers answer_flags flags_after answer_later
      next_asked serve_next next_from flag_check flag_validate flag_confirm rhead_peak
  process_ack e r q his k f there opens = rw (empty_zero, ==_self (suc k), ==_self k, there, opens)

  -- A packet that the server makes after `e`, packet `k`.
  append_lem :
      (g : RHdr → RHdr) (e r : RHdr) (q his : List RHdr) (k : ℕ)
      → e.seqn ≡ k
      → suc k < 65535
      → snd_pkt (append_packet g (server (e ∷ q) his r k))
        ≡ (server (g (packet (suc k) 0 2 empty_buf) ∷ e ∷ q) his r (suc k), send)
  unfolding snd_pkt append_packet rhead_append with_chksum ret_pkt rhead_peak rhdr_init
  append_lem g e r q his k number small =
      rw (number, u16_next k (omega arith), u16_next (suc k) small)

  next_data :
      (f : fs.File) (k seqn : ℕ)
      → block (laws.contents f) k ≢ []
      → next_packet fs (fs.fseek f (k * msg_siz)) (packet seqn 0 2 empty_buf)
        ≡ data_of seqn (block (laws.contents f) k)
  unfolding next_packet data_packet flag_set
  next_data f k seqn some_left = rw (
    laws.feof-fseek f (k * msg_siz),
    laws.fread-fseek f (k * msg_siz) msg_siz,
    not_empty _ some_left,
  )

  next_fin :
      (f : fs.File) (k seqn : ℕ)
      → block (laws.contents f) k ≡ []
      → next_packet fs (fs.fseek f (k * msg_siz)) (packet seqn 0 2 empty_buf)
        ≡ packet seqn 0 0x0802 empty_buf
  unfolding next_packet fin_packet flag_set
  next_fin f k seqn at_end =
      rw (laws.feof-fseek f (k * msg_siz), laws.fread-fseek f (k * msg_siz) msg_siz, at_end)

-- The client reads packet `k + 1`.
module _ (p : RHdr) (cq ch : List RHdr) (k : ℕ) (ws : List (List ℕ)) where
  pub read_data :
      (m : List ℕ)
      → p.seqn ≡ suc k
      → suc k < 65535
      → read_packet false (client (p ∷ cq) ch (suc k) ws) (packet (suc k) 0 0x1002 m)
        ≡ goes_on (
            client
              (ack_of (suc k) ∷ p ∷ cq)
              (packet (suc k) 0 0x1002 m ∷ ch)
              (suc (suc k))
              (m ∷ ws))
  unfolding read_packet check_packet answer_packet flag_unset flag_check flag_validate flag_set
      rhead_append rhdr_init
  read_data m number small = rw (==_self (suc k), number, u16_next (suc k) small)

  read_fin :
      p.seqn ≡ suc k
      → suc k < 65535
      → read_packet false (client (p ∷ cq) ch (suc k) ws) (packet (suc k) 0 0x0802 empty_buf)
        ≡ goes_on (
            client
              (ack_end (suc k) ∷ p ∷ cq)
              (packet (suc k) 0 0x0802 empty_buf ∷ ch)
              (suc (suc k))
              (empty_buf ∷ ws))
  unfolding read_packet check_packet answer_packet flag_unset flag_check flag_validate flag_set
      rhead_append rhdr_init
  read_fin number small = rw (==_self (suc k), number, u16_next (suc k) small)

  read_end :
      (h : RHdr)
      → h.flgv ≡ 0x8802
      → h.ackn ≡ p.seqn
      → read_packet false (client (p ∷ cq) ch (suc k) ws) h
        ≡ ended (client (p ∷ cq) (record h { flgv = 0x8802 } ∷ ch) (suc k) ws)
  unfolding read_packet check_packet answer_packet flag_unset flag_check flag_validate rhead_peak
  read_end h flags number = rw (flags, number, ==_self p.seqn)

module _ (fs : Files) (laws : FilesLaws fs) (r : RHdr) (f : fs.File)
    (there : fs.stat (fname_of r.msg) ≡ true) (opens : fs.fopen (fname_of r.msg) ≡ some f) where
  abbrev part : ℕ → List ℕ
  part k = block (laws.contents f) k

  process_end :
      (q his : List RHdr) (k : ℕ)
      → suc k < 65535
      → process_converted fs (server (packet k 0 0x0802 empty_buf ∷ q) his r k) (ack_end k) ≡ (
        server
            (packet (suc k) (suc k) 0x8802 empty_buf ∷ packet k 0 0x0802 empty_buf ∷ q)
            his
            r
            (suc k),
        refused,
      )
  unfolding process_converted answer_chksum answer_numbers answer_flags flags_after answer_later
      serve_end append_packet end_packet is_fin flag_check flag_validate flag_confirm flag_set
      rhead_peak rhead_append rhdr_init
  process_end q his k small =
      rw (empty_zero, ==_self (suc k), ==_self k, u16_next k (omega arith), u16_next (suc k) small)

  pub round_of :
      (c : Client) (p : RHdr) (cq : List RHdr) (s s' : RState) (a : Answer)
      → c.chksum ≡ false
      → c.mys ≡ p ∷ cq
      → process_converted fs (record s { his = p ∷ s.his }) p ≡ (s', a)
      → exchange fs c s ≡ answered fs c (s', a)
  unfolding exchange write_packet rhead_peak
  round_of c p cq s s' a plain mine e = simp (plain, mine, process_lem fs laws s p, e)

  -- What is read from the network is the last packet of the server.
  pub answered_lem :
      (c : Client) (h : RHdr) (q his : List RHdr) (k : ℕ) (n : Next)
      → read_packet false c h ≡ n
      → (answered fs c (server (h ∷ q) his r k, send) ≡ after_read (server (h ∷ q) his r k) n)
        × (answered fs c (server (h ∷ q) his r k, refused) ≡ after_read (server (h ∷ q) his r k) n)
  unfolding rhead_peak
  answered_lem c h q his k n reads = (step, step)
    where
      step :
          after_read
            (server (h ∷ q) his r k)
            (read_packet false c (convert_bytes fs (convert_bytes fs h false) true))
          ≡ after_read (server (h ∷ q) his r k) n
      step =
          ap (after_read (server (h ∷ q) his r k))
            (ap (read_packet false c) (convert_back fs laws h) ∙ reads)

  pub round_data :
      (e : RHdr) (q his cq ch : List RHdr) (k : ℕ) (ws : List (List ℕ))
      → e.seqn ≡ k
      → suc k < 65535
      → part k ≢ []
      → exchange fs (client (ack_of k ∷ cq) ch (suc k) ws) (server (e ∷ q) his r k)
        ≡ again
            (client
              (ack_of (suc k) ∷ ack_of k ∷ cq)
              (data_of (suc k) (part k) ∷ ch)
              (suc (suc k))
              (overlay (part k) empty_buf ∷ ws))
            (server (data_of (suc k) (part k) ∷ e ∷ q) (ack_of k ∷ his) r (suc k))
  round_data e q his cq ch k ws number small left =
      let c = client (ack_of k ∷ cq) ch (suc k) ws in
      let g = next_packet fs (fs.fseek f (k * msg_siz)) in
      let his' = ack_of k ∷ his in
      round_of c (ack_of k) cq (server (e ∷ q) his r k) _ send refl refl (
        process_ack fs laws e r q his' k f there opens
        ∙ append_lem fs laws g e r q his' k number small
        ∙ ap (λ h. (server (h ∷ e ∷ q) his' r (suc k), send)) (next_data fs laws f k (suc k) left))
      ∙ (answered_lem c (data_of (suc k) (part k)) (e ∷ q) his' (suc k) _
          (read_data (ack_of k) cq ch k ws (overlay (part k) empty_buf) refl small)).0

  pub round_fin :
      (e : RHdr) (q his cq ch : List RHdr) (k : ℕ) (ws : List (List ℕ))
      → e.seqn ≡ k
      → suc k < 65535
      → part k ≡ []
      → exchange fs (client (ack_of k ∷ cq) ch (suc k) ws) (server (e ∷ q) his r k)
        ≡ again
            (client
              (ack_end (suc k) ∷ ack_of k ∷ cq)
              (packet (suc k) 0 0x0802 empty_buf ∷ ch)
              (suc (suc k))
              (empty_buf ∷ ws))
            (server (packet (suc k) 0 0x0802 empty_buf ∷ e ∷ q) (ack_of k ∷ his) r (suc k))
  round_fin e q his cq ch k ws number small at_end =
      let c = client (ack_of k ∷ cq) ch (suc k) ws in
      let g = next_packet fs (fs.fseek f (k * msg_siz)) in
      let his' = ack_of k ∷ his in
      round_of c (ack_of k) cq (server (e ∷ q) his r k) _ send refl refl (
        process_ack fs laws e r q his' k f there opens
        ∙ append_lem fs laws g e r q his' k number small
        ∙ ap (λ h. (server (h ∷ e ∷ q) his' r (suc k), send)) (next_fin fs laws f k (suc k) at_end))
      ∙ (answered_lem c (packet (suc k) 0 0x0802 empty_buf) (e ∷ q) his' (suc k) _
          (read_fin (ack_of k) cq ch k ws refl small)).0

  pub round_end :
      (q his cq ch : List RHdr) (k : ℕ) (ws : List (List ℕ))
      → suc k < 65535
      → let last = packet (suc k) (suc k) 0x8802 empty_buf in
        let fin = packet k 0 0x0802 empty_buf in
        exchange fs (client (ack_end k ∷ cq) ch (suc k) ws) (server (fin ∷ q) his r k)
        ≡ over
            (client (ack_end k ∷ cq) (last ∷ ch) (suc k) ws)
            (server (last ∷ fin ∷ q) (ack_end k ∷ his) r (suc k))
  round_end q his cq ch k ws small =
      let c = client (ack_end k ∷ cq) ch (suc k) ws in
      round_of c (ack_end k) cq (server (packet k 0 0x0802 empty_buf ∷ q) his r k) _ refused refl
        refl (process_end q (ack_end k ∷ his) k small)
      ∙ (answered_lem c (packet (suc k) (suc k) 0x8802 empty_buf) _ (ack_end k ∷ his) (suc k) _
          (read_end (ack_end k) cq ch k ws _ refl refl)).1
