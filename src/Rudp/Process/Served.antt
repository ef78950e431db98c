-- ===== src/Rudp/Process/Served.antt =====
-- RProcess.h: every message keeps the packets those of one file.
use cprogramming.Prelude.{
  ℕ, bit_or, ◌+◌, ◌*◌, ◌≡◌, refl, sym, ◌∙◌, ap, subst, arith, inl, inr, true, false, Option, none,
  some, List, [], ◌∷◌, length, overlay, Bool-cases, ◌==◌, ==→≡,
}
use cprogramming.Rudp.Hdr.{
  RHdr, msg_siz, ack_flag, dat_flag, fin_flag, chk_flag, enc_flag, r_version, flag_set, flag_check,
}
use cprogramming.Rudp.Queue.{u16, empty_buf, rhead_peak, RState, curr}
use cprogramming.Rudp.Process.{
  Files, FilesLaws, fname_of, on_last, append_packet, data_packet, fin_packet, get_from, serve_get,
  next_packet, next_from, next_asked, serve_next, end_packet, serve_end, answer_later, is_fin,
}
use cprogramming.Rudp.Process.Packets.{
  block, IsPacket, AllPackets, Serving, Serves, append_number, add_chksum-IsPacket, snd_pkt-Serves,
  invalid_nak-Serves,
}

-- A header that rhead_append has just made, with the number of packet `k`.
abbrev IsFresh : ℕ → RHdr → Type 0
IsFresh k e = (e.seqn ≡ u16 (k + 1)) × (e.flgv ≡ r_version) × (e.msg ≡ empty_buf)

length-zero : (bytes : List ℕ) → length bytes ≡ 0 → bytes ≡ []
length-zero [] h = refl
length-zero (b ∷ bytes) h = absurd (omega arith)

module _ (file : List ℕ) (k : ℕ) (e : RHdr) (fresh : IsFresh k e) where
  data_packet-IsPacket :
      (bytes : List ℕ) → bytes ≡ block file (u16 k) → IsPacket file k (data_packet bytes e)
  unfolding data_packet flag_set
  data_packet-IsPacket bytes b = (
    fresh.0,
    inl (
      inl (ap (λ g. bit_or g dat_flag) fresh.1),
      ap (λ m. overlay bytes m) fresh.2 ∙ ap (λ b. overlay b empty_buf) b,
    ),
  )

  fin_packet-IsPacket : block file (u16 k) ≡ [] → IsPacket file k (fin_packet e)
  unfolding fin_packet flag_set
  fin_packet-IsPacket b = (fresh.0, inr (inl (inl refl, b, fresh.2)))

  end_packet-IsPacket :
      (s : RState) (h : RHdr)
      → flag_check h (ack_flag + fin_flag) ≡ true
      → IsPacket file k (end_packet s h e)
  unfolding end_packet
  end_packet-IsPacket s h c =
      rw (other_chk, other_enc)
        (elim (Bool-cases s.chksum) [
          | inl on ↦ rw on (add_chksum-IsPacket file k _ plain)
          | inr off ↦ rw off plain
        ])
    where
      other_chk : flag_check h chk_flag ≡ false
      other_chk = unfold flag_check in ground arith

      other_enc : flag_check h enc_flag ≡ false
      other_enc = unfold flag_check in ground arith

      plain : IsPacket file k (record (flag_set (flag_set e ack_flag) fin_flag) { ackn = s.seq })
      plain =
          unfold flag_set in
          (
            fresh.0,
            inr (inr (inl (ap (λ g. bit_or (bit_or g ack_flag) fin_flag) fresh.1), fresh.2)),
          )

module _ (fs : Files) (laws : FilesLaws fs) where
  -- A packet of the file behind the others
  append_packet-Serving :
      (s : RState) (request : Option RHdr) (r : RHdr) (f : fs.File) (g : RHdr → RHdr)
      → request ≡ some r
      → fs.fopen (fname_of r.msg) ≡ some f
      → AllPackets (laws.contents f) s.mys
      → s.ack ≡ u16 (length s.mys)
      → ((e : RHdr) → IsFresh (length s.mys) e → IsPacket (laws.contents f) (length s.mys) (g e))
      → Serves fs laws (record (append_packet g s) { request = request })
  unfolding append_packet
  append_packet-Serving s request r f g e o all n made =
      let (fresh, same, number, flags, msg) = append_number (laws.contents f) s.mys all in
      subst (λ q. Serving fs laws request (u16 (s.ack + 1)) (on_last g q)) (sym same)
        (r, f, e, o, (made fresh (number, flags, msg), all), omega arith)

  nothing_sent :
      (request : Option RHdr) (ack : ℕ) (q : List RHdr)
      → rhead_peak q ≡ none
      → Serving fs laws request ack q
      → (q ≡ []) × (ack ≡ 0)
  unfolding rhead_peak
  nothing_sent request ack [] first p = (refl, p)
  nothing_sent request ack (h ∷ q) first p = cc

  get_from-Serves :
      (s : RState) (h : RHdr) (o : Option fs.File)
      → fs.fopen (fname_of h.msg) ≡ o
      → s.mys ≡ []
      → s.ack ≡ 0
      → Serves fs laws s
      → Serves fs laws (get_from fs s h o).0
  unfolding get_from
  get_from-Serves s h none e empty zero p = p
  get_from-Serves s h (some f) e empty zero p = snd_pkt-Serves fs laws _ (
      append_packet-Serving s (some h) h f (data_packet bytes) refl e
        (subst (λ q. AllPackets (laws.contents f) q) (sym empty) tt)
        (subst (λ q. s.ack ≡ u16 (length q)) (sym empty) zero)
        (λ fresh is. data_packet-IsPacket (laws.contents f) (length s.mys) fresh is bytes first))
    where
      bytes : List ℕ
      bytes = fs.fread f msg_siz

      first : bytes ≡ block (laws.contents f) (u16 (length s.mys))
      first =
          subst (λ q. bytes ≡ block (laws.contents f) (u16 (length q))) (sym empty)
            (laws.fread-fopen (fname_of h.msg) f msg_siz e)

  pub serve_get-Serves :
      (s : RState) (h : RHdr)
      → curr s ≡ none
      → Serves fs laws s
      → Serves fs laws (serve_get fs s h).0
  unfolding serve_get
  serve_get-Serves s h first p =
      let (empty, zero) = nothing_sent s.request s.ack s.mys first p in
      elim (Bool-cases (fs.stat (fname_of h.msg))) [
        | inr missing ↦ rw missing p
        | inl there ↦ rw there (get_from-Serves s h (fs.fopen (fname_of h.msg)) refl empty zero p)
      ]

  -- The packet behind packet `k - 1`, the file being at block `k`
  next_packet-IsPacket :
      (f : fs.File) (k n : ℕ) (e : RHdr)
      → IsFresh k e
      → n ≡ u16 k
      → IsPacket (laws.contents f) k (next_packet fs (fs.fseek f (n * msg_siz)) e)
  unfolding next_packet
  next_packet-IsPacket f k n e fresh at =
      rw (laws.feof-fseek f (n * msg_siz)) (elim (Bool-cases (length bytes == 0)) [
        | inl nothing ↦ rw nothing (
            fin_packet-IsPacket (laws.contents f) k e fresh
              (sym read ∙ length-zero bytes (==→≡ _ _ nothing)))
        | inr something ↦ rw something (data_packet-IsPacket (laws.contents f) k e fresh bytes read)
      ])
    where
      bytes : List ℕ
      bytes = fs.fread (fs.fseek f (n * msg_siz)) msg_siz

      read : bytes ≡ block (laws.contents f) (u16 k)
      read = laws.fread-fseek f (n * msg_siz) msg_siz ∙ ap (λ i. block (laws.contents f) i) at

  next_from-Serves :
      (s : RState) (r : RHdr) (f : fs.File) (o : Option fs.File)
      → s.request ≡ some r
      → fs.fopen (fname_of r.msg) ≡ some f
      → fs.fopen (fname_of r.msg) ≡ o
      → AllPackets (laws.contents f) s.mys
      → s.ack ≡ u16 (length s.mys)
      → Serves fs laws s
      → Serves fs laws (next_from fs s o).0
  unfolding next_from append_packet
  next_from-Serves s r f none asked opens is all n p = p
  next_from-Serves s r f (some g) asked opens is all n p =
      let packet = next_packet fs (fs.fseek g (s.ack * msg_siz)) in
      snd_pkt-Serves fs laws (append_packet packet s) (
        append_packet-Serving s s.request r g packet asked is
          (subst (λ (o : fs.File). AllPackets (laws.contents o) s.mys) same all) n
          (λ e fresh. next_packet-IsPacket g (length s.mys) s.ack e fresh n))
    where
      same : f ≡ g
      same = cc

  -- The file that the packets are from, once there is one.
  pub something_sent :
      (request : Option RHdr) (ack : ℕ) (q : List RHdr) {last : RHdr}
      → rhead_peak q ≡ some last
      → Serving fs laws request ack q
      → (r : RHdr) × (f : fs.File) × (request ≡ some r)
        × (fs.fopen (fname_of r.msg) ≡ some f)
        × AllPackets (laws.contents f) q
        × (ack ≡ u16 (length q))
  unfolding rhead_peak
  something_sent request ack [] sent p = cc
  something_sent request ack (h ∷ q) sent p = p

  serve_next-Serves :
      (s : RState) (r : RHdr) {last : RHdr}
      → curr s ≡ some last
      → s.request ≡ some r
      → Serves fs laws s
      → Serves fs laws (serve_next fs s r).0
  unfolding serve_next
  serve_next-Serves s r sent asked p = elim (Bool-cases (fs.stat (fname_of r.msg))) [
    | inr missing ↦ rw missing p
    | inl there ↦
        let (r', f, asked', opens, all, n) = something_sent s.request s.ack s.mys sent p in
        let same : r' ≡ r = cc in
        rw there (
          next_from-Serves s r f (fs.fopen (fname_of r.msg)) asked
            (subst (λ (t : RHdr). fs.fopen (fname_of t.msg) ≡ some f) same opens) refl all n p)
  ]

  serve_end-Serves :
      (s : RState) (h : RHdr) {last : RHdr}
      → curr s ≡ some last
      → flag_check h (ack_flag + fin_flag) ≡ true
      → Serves fs laws s
      → Serves fs laws (serve_end s h).0
  unfolding serve_end append_packet
  serve_end-Serves s h sent ends p =
      let (r, f, asked, opens, all, n) = something_sent s.request s.ack s.mys sent p in
      append_packet-Serving s s.request r f (end_packet s h) asked opens all n
        (λ e fresh. end_packet-IsPacket (laws.contents f) (length s.mys) e fresh s h ends)

  next_asked-Serves :
      (s : RState) (request : Option RHdr) {last : RHdr}
      → curr s ≡ some last
      → s.request ≡ request
      → Serves fs laws s
      → Serves fs laws (next_asked fs s request).0
  unfolding next_asked
  next_asked-Serves s none sent asked p = p
  next_asked-Serves s (some r) sent asked p = serve_next-Serves s r sent asked p

  pub answer_later-Serves :
      (s : RState) (last h : RHdr)
      → curr s ≡ some last
      → Serves fs laws s
      → Serves fs laws (answer_later fs s last h).0
  unfolding answer_later
  answer_later-Serves s last h sent p = elim (Bool-cases (flag_check h (ack_flag + dat_flag))) [
    | inl next ↦ rw next (next_asked-Serves s s.request sent refl p)
    | inr other ↦ rw other (elim (Bool-cases (flag_check h (ack_flag + fin_flag))) [
      | inr neither ↦ rw neither (invalid_nak-Serves fs laws s h p)
      | inl ends ↦ elim (Bool-cases (is_fin last)) [
        | inr early ↦ rw (ends, early) (invalid_nak-Serves fs laws s h p)
        | inl now ↦ rw (ends, now) (serve_end-Serves s h sent ends p)
      ]
    ])
  ]
