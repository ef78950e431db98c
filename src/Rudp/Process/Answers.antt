-- ===== src/Rudp/Process/Answers.antt =====
-- RProcess.h: which answers there are only with a packet to send.
use cprogramming.Prelude.{◌+◌, ◌≡◌, refl, arith, inl, true, false, Option, none, some, ◌⊎◌}
use cprogramming.Rudp.Hdr.{RHdr, flag_unset, chk_flag}
use cprogramming.Rudp.Queue.{RState, curr, rhead_peak, u16}
use cprogramming.Rudp.Process.{
  Files, Answer, refused, worse_chk, is_none, fname_of, ret_pkt, snd_pkt, invalid_nak, get_from,
  serve_get, next_from, serve_next, next_asked, serve_end, answer_later, flags_after, answer_flags,
  answer_numbers, answer_chksum, process_converted, process_last, rprocess_request, put_his,
  convert_bytes,
}

-- The request is refused, or there is a packet.
abbrev pub HasPacket : RState × Answer → Type 0
HasPacket p = (p.1 ≡ refused) ⊎ (p.1 ≡ worse_chk) ⊎ (is_none (curr p.0) ≡ false)

ret_pkt-HasPacket : (s : RState) → HasPacket (ret_pkt s)
unfolding ret_pkt
ret_pkt-HasPacket s = ground arith

snd_pkt-HasPacket : (s : RState) → HasPacket (snd_pkt s)
unfolding snd_pkt
snd_pkt-HasPacket s = ret_pkt-HasPacket _

invalid_nak-HasPacket : (s : RState) (h : RHdr) → HasPacket (invalid_nak s h)
unfolding invalid_nak
invalid_nak-HasPacket s h = ground (arith, snd_pkt-HasPacket s)

module _ (fs : Files) where
  get_from-HasPacket : (s : RState) (h : RHdr) (o : Option fs.File) → HasPacket (get_from fs s h o)
  unfolding get_from
  get_from-HasPacket s h none = inl refl
  get_from-HasPacket s h (some f) = snd_pkt-HasPacket _

  serve_get-HasPacket : (s : RState) (h : RHdr) → HasPacket (serve_get fs s h)
  unfolding serve_get
  serve_get-HasPacket s h = ground (arith, get_from-HasPacket s h (fs.fopen (fname_of h.msg)))

  next_from-HasPacket : (s : RState) (o : Option fs.File) → HasPacket (next_from fs s o)
  unfolding next_from
  next_from-HasPacket s none = inl refl
  next_from-HasPacket s (some f) = snd_pkt-HasPacket _

  next_asked-HasPacket : (s : RState) (o : Option RHdr) → HasPacket (next_asked fs s o)
  unfolding next_asked serve_next
  next_asked-HasPacket s none = inl refl
  next_asked-HasPacket s (some r) =
      ground (arith, next_from-HasPacket s (fs.fopen (fname_of r.msg)))

  answer_later-HasPacket : (s : RState) (last h : RHdr) → HasPacket (answer_later fs s last h)
  unfolding answer_later serve_end
  answer_later-HasPacket s last h =
      ground (arith, next_asked-HasPacket s s.request, invalid_nak-HasPacket s h)

  flags_after-HasPacket :
      (s : RState) (h : RHdr) (o : Option RHdr) → HasPacket (flags_after fs s h o)
  unfolding flags_after
  flags_after-HasPacket s h none =
      ground (arith, serve_get-HasPacket s h, invalid_nak-HasPacket s h)
  flags_after-HasPacket s h (some last) = ground (
    arith,
    answer_later-HasPacket s last h,
    invalid_nak-HasPacket s h,
    ret_pkt-HasPacket (record s { seq = u16 (s.seq + 1) }),
  )

  answer_numbers-HasPacket : (s : RState) (h : RHdr) → HasPacket (answer_numbers fs s h)
  unfolding answer_numbers answer_flags
  answer_numbers-HasPacket s h =
      ground (arith, flags_after-HasPacket s h (curr s), ret_pkt-HasPacket s)

  answer_chksum-HasPacket : (s : RState) (h : RHdr) → HasPacket (answer_chksum fs s h)
  unfolding answer_chksum
  answer_chksum-HasPacket s h =
      let h' = flag_unset h chk_flag in
      ground (
        arith,
        answer_numbers-HasPacket s h,
        answer_numbers-HasPacket (put_his h' s) h',
        answer_numbers-HasPacket (put_his h' (record s { chksum = true })) h',
      )

  process_last-HasPacket : (s : RState) (o : Option RHdr) → HasPacket (process_last fs s o)
  unfolding process_last process_converted
  process_last-HasPacket s none = inl refl
  process_last-HasPacket s (some raw) =
      let h = convert_bytes fs raw true in
      ground (arith, answer_chksum-HasPacket (put_his h s) h, invalid_nak-HasPacket (put_his h s) h)

  pub rprocess_request-HasPacket : (s : RState) → HasPacket (rprocess_request fs s)
  unfolding rprocess_request
  rprocess_request-HasPacket s = process_last-HasPacket s (rhead_peak s.his)
