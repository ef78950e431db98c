-- ===== src/Rudp/Process/Packets.antt =====
-- RProcess.h: which packets the server makes, whatever it is sent.
use cprogramming.Prelude.{
  ℕ, bit_or, ◌+◌, ◌*◌, ◌≡◌, refl, sym, ◌∙◌, ap, subst, arith, ◌⊎◌, inl, inr, ◌&&◌, not, Option,
  some, true, false, List, [], ◌∷◌, length, take, drop, overlay, Bool-cases,
}
use cprogramming.Rudp.Hdr.{
  RHdr, msg_siz, ack_flag, dat_flag, fin_flag, chk_flag, r_version, flag_set, flag_validate,
}
use cprogramming.Rudp.Queue.{u16, empty_buf, rhdr_init, rhead_append, RState}
use cprogramming.Rudp.Process.{
  convert_bytes, Files, FilesLaws, fname_of, add_chksum, on_last, ret_pkt, with_chksum, snd_pkt,
  invalid_nak,
}

-- The part of a file that packet `k`, from 0, carries.
abbrev pub block : List ℕ → ℕ → List ℕ
block file k = take msg_siz (drop (k * msg_siz) file)

-- A flag alone, or with the check sum.
abbrev pub HasFlag : RHdr → ℕ → Type 0
HasFlag h flag = (h.flgv ≡ r_version + flag) ⊎ (h.flgv ≡ r_version + flag + chk_flag)

-- Packet `k` of a file: a block, the end behind the last block, or the acknowledgement of the end.
abbrev pub Carries : List ℕ → ℕ → RHdr → Type 0
Carries file k h =
    (HasFlag h dat_flag × (h.msg ≡ overlay (block file k) empty_buf))
    ⊎ (HasFlag h fin_flag × (block file k ≡ []) × (h.msg ≡ empty_buf))
    ⊎ (HasFlag h (fin_flag + ack_flag) × (h.msg ≡ empty_buf))

-- The numbers are of 16 bits.
abbrev pub IsPacket : List ℕ → ℕ → RHdr → Type 0
IsPacket file k h = (h.seqn ≡ u16 (k + 1)) × Carries file (u16 k) h

abbrev pub AllPackets : List ℕ → List RHdr → Type 0
AllPackets file [] = Unit {0}
AllPackets file (h ∷ q) = IsPacket file (length q) h × AllPackets file q

module _ (fs : Files) (laws : FilesLaws fs) where
  -- Nothing is sent yet, or all packets are those of the file that was asked for.
  abbrev pub Serving : Option RHdr → ℕ → List RHdr → Type 0
  Serving request ack [] = ack ≡ 0
  Serving request ack (h ∷ q) =
      (r : RHdr) × (f : fs.File) × (request ≡ some r)
      × (fs.fopen (fname_of r.msg) ≡ some f)
      × AllPackets (laws.contents f) (h ∷ q)
      × (ack ≡ u16 (length (h ∷ q)))

  abbrev pub Serves : RState → Type 0
  Serves s = Serving s.request s.ack s.mys

ret_pkt-state : (s : RState) → (ret_pkt s).0 ≡ s
unfolding ret_pkt
ret_pkt-state s = ground arith

snd_pkt-state : (s : RState) → (snd_pkt s).0 ≡ record s { mys = on_last (with_chksum s) s.mys }
unfolding snd_pkt
snd_pkt-state s = ret_pkt-state (record s { mys = on_last (with_chksum s) s.mys })

-- The check sum's flag comes in once, and takes nothing off.
add_chksum-HasFlag :
    (h : RHdr) (flag : ℕ)
    → bit_or (r_version + flag) chk_flag ≡ r_version + flag + chk_flag
    → bit_or (r_version + flag + chk_flag) chk_flag ≡ r_version + flag + chk_flag
    → HasFlag h flag
    → HasFlag (add_chksum h) flag
unfolding add_chksum flag_set
add_chksum-HasFlag h flag once twice (inl e) = inr (ap (λ g. bit_or g chk_flag) e ∙ once)
add_chksum-HasFlag h flag once twice (inr e) = inr (ap (λ g. bit_or g chk_flag) e ∙ twice)

add_chksum-fields : (h : RHdr) → ((add_chksum h).seqn ≡ h.seqn) × ((add_chksum h).msg ≡ h.msg)
unfolding add_chksum flag_set
add_chksum-fields h = (refl, refl)

add_chksum-Carries :
    (file : List ℕ) (k : ℕ) (h : RHdr) → Carries file k h → Carries file k (add_chksum h)
add_chksum-Carries file k h (inl (flag, m)) =
    inl (add_chksum-HasFlag h dat_flag refl refl flag, (add_chksum-fields h).1 ∙ m)
add_chksum-Carries file k h (inr (inl (flag, b, m))) =
    inr (inl (add_chksum-HasFlag h fin_flag refl refl flag, b, (add_chksum-fields h).1 ∙ m))
add_chksum-Carries file k h (inr (inr (flag, m))) =
    inr
      (inr (add_chksum-HasFlag h (fin_flag + ack_flag) refl refl flag, (add_chksum-fields h).1 ∙ m))

pub add_chksum-IsPacket :
    (file : List ℕ) (k : ℕ) (h : RHdr) → IsPacket file k h → IsPacket file k (add_chksum h)
add_chksum-IsPacket file k h p =
    ((add_chksum-fields h).0 ∙ p.0, add_chksum-Carries file (u16 k) h p.1)

with_chksum-IsPacket :
    (s : RState) (file : List ℕ) (k : ℕ) (h : RHdr)
    → IsPacket file k h
    → IsPacket file k (with_chksum s h)
unfolding with_chksum
with_chksum-IsPacket s file k h p = elim (Bool-cases (s.chksum && not (flag_validate h chk_flag))) [
  | inl e ↦ rw e (add_chksum-IsPacket file k h p)
  | inr e ↦ rw e p
]

module _ (file : List ℕ) (q : List RHdr) where
  last_number : (h : RHdr) → AllPackets file (h ∷ q) → h.seqn ≡ u16 (length (h ∷ q))
  last_number h all = all.0.0 ∙ omega arith

-- A packet put behind those that are there
pub append_number :
    (file : List ℕ) (q : List RHdr)
    → AllPackets file q
    → (e : RHdr) × (rhead_append q ≡ e ∷ q)
      × (e.seqn ≡ u16 (length q + 1))
      × (e.flgv ≡ r_version)
      × (e.msg ≡ empty_buf)
unfolding rhead_append rhdr_init
append_number file [] all = (record rhdr_init { seqn = 1 }, refl, refl, refl, refl)
append_number file (h ∷ q) all = (
  record rhdr_init { seqn = u16 (h.seqn + 1) },
  refl,
  omega (arith, last_number file q h all),
  refl,
  refl,
)

module _ (fs : Files) (laws : FilesLaws fs) where
  -- A header that went over the network
  pub convert_back : (h : RHdr) → convert_bytes fs (convert_bytes fs h false) true ≡ h
  unfolding convert_bytes
  convert_back h = λ i. record {
    seqn = laws.ntohs-htons h.seqn i;
    ackn = laws.ntohs-htons h.ackn i;
    chks = laws.ntohs-htons h.chks i;
    flgv = laws.ntohs-htons h.flgv i;
    msg = h.msg;
  }

  pub chksum-Serving :
      (s : RState) (request : Option RHdr) (ack : ℕ) (q : List RHdr)
      → Serving fs laws request ack q
      → Serving fs laws request ack (on_last (with_chksum s) q)
  chksum-Serving s request ack [] h = h
  chksum-Serving s request ack (last ∷ q) (r, f, e, o, all, n) =
      (r, f, e, o, (with_chksum-IsPacket s (laws.contents f) (length q) last all.0, all.1), n)

  pub snd_pkt-Serves : (s : RState) → Serves fs laws s → Serves fs laws (snd_pkt s).0
  snd_pkt-Serves s h =
      subst (λ t. Serves fs laws t) (sym (snd_pkt-state s))
        (chksum-Serving s s.request s.ack s.mys h)

  pub ret_pkt-Serves : (s : RState) → Serves fs laws s → Serves fs laws (ret_pkt s).0
  ret_pkt-Serves s h = subst (λ t. Serves fs laws t) (sym (ret_pkt-state s)) h

  pub invalid_nak-Serves :
      (s : RState) (h : RHdr) → Serves fs laws s → Serves fs laws (invalid_nak s h).0
  unfolding invalid_nak
  invalid_nak-Serves s h p = ground (arith, snd_pkt-Serves s p)
