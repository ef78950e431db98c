-- ===== src/Rudp/Process/Sent.antt =====
-- RProcess.h: what holds of all packets, after any messages.
use cprogramming.Prelude.{
  ◌+◌, ◌≡◌, refl, arith, inl, inr, true, ◌||◌, Option, none, some, Bool-cases, ◌==◌,
}
use cprogramming.Rudp.Hdr.{
  RHdr, nak_flag, get_flag, dat_flag, chk_flag, flag_check, flag_validate, flag_unset,
}
use cprogramming.Rudp.Queue.{u16, rhead_peak, RState, curr}
use cprogramming.Rudp.Process.{
  Files, FilesLaws, flags_after, answer_flags, answer_numbers, answer_chksum, process_converted,
  process_last, rprocess_request, put_his, convert_bytes,
}
use cprogramming.Rudp.Process.Packets.{Serves, ret_pkt-Serves, invalid_nak-Serves}
use cprogramming.Rudp.Process.Served.{serve_get-Serves, answer_later-Serves}

module _ (fs : Files) (laws : FilesLaws fs) where
  flags_after-Serves :
      (s : RState) (h : RHdr) (o : Option RHdr)
      → curr s ≡ o
      → Serves fs laws s
      → Serves fs laws (flags_after fs s h o).0
  unfolding flags_after
  flags_after-Serves s h none first p = elim (Bool-cases (flag_check h get_flag)) [
    | inl get ↦ rw get (serve_get-Serves fs laws s h first p)
    | inr other ↦ rw other (invalid_nak-Serves fs laws s h p)
  ]
  flags_after-Serves s h (some last) sent p =
      elim (Bool-cases (flag_check h (dat_flag + nak_flag) || flag_validate h nak_flag)) [
        | inr other ↦ rw other (answer_later-Serves fs laws s last h sent p)
        | inl nak ↦ elim (Bool-cases (s.ack == h.ackn)) [
          | inl same ↦
              rw (nak, same) (ret_pkt-Serves fs laws (record s { seq = u16 (s.seq + 1) }) p)
          | inr differs ↦ rw (nak, differs) (invalid_nak-Serves fs laws s h p)
        ]
      ]

  answer_flags-Serves :
      (s : RState) (h : RHdr) → Serves fs laws s → Serves fs laws (answer_flags fs s h).0
  unfolding answer_flags
  answer_flags-Serves s h p = flags_after-Serves s h (curr s) refl p

  answer_numbers-Serves :
      (s : RState) (h : RHdr) → Serves fs laws s → Serves fs laws (answer_numbers fs s h).0
  unfolding answer_numbers
  answer_numbers-Serves s h p =
      ground (arith, answer_flags-Serves s h p, ret_pkt-Serves fs laws s p)

  answer_chksum-Serves :
      (s : RState) (h : RHdr) → Serves fs laws s → Serves fs laws (answer_chksum fs s h).0
  unfolding answer_chksum
  answer_chksum-Serves s h p =
      let h' = flag_unset h chk_flag in
      ground (
        arith,
        answer_numbers-Serves s h p,
        answer_numbers-Serves (put_his h' s) h' p,
        answer_numbers-Serves (put_his h' (record s { chksum = true })) h' p,
      )

  process_converted-Serves :
      (s : RState) (h : RHdr) → Serves fs laws s → Serves fs laws (process_converted fs s h).0
  unfolding process_converted
  process_converted-Serves s h p =
      ground (arith, answer_chksum-Serves s h p, invalid_nak-Serves fs laws s h p)

  process_last-Serves :
      (s : RState) (raw : Option RHdr) → Serves fs laws s → Serves fs laws (process_last fs s raw).0
  unfolding process_last
  process_last-Serves s none p = p
  process_last-Serves s (some raw) p =
      let h = convert_bytes fs raw true in process_converted-Serves (put_his h s) h p

  pub rprocess_request-Serves :
      (s : RState) → Serves fs laws s → Serves fs laws (rprocess_request fs s).0
  unfolding rprocess_request
  rprocess_request-Serves s p = process_last-Serves s (rhead_peak s.his) p
