-- ===== src/Rudp/Process.antt =====
-- RProcess.h: what the server does with a message of a client. Files and the order of bytes on the
-- network are the record Files.
pub mod Packets
pub mod Served
pub mod Sent
pub mod Answers
use cprogramming.Prelude.{
  ℕ, ◌+◌, ◌-◌, ◌*◌, ◌≡◌, Bool, true, false, not, ◌&&◌, ◌||◌, Option, none, some, List, [], ◌∷◌,
  ◌==◌, if◌then◌else◌, length, take, drop, overlay,
}
use cprogramming.Rudp.Hdr.{
  RHdr, msg_siz, ack_flag, nak_flag, get_flag, dat_flag, fin_flag, chk_flag, enc_flag, r_version,
  flag_set, flag_unset, flag_check, flag_validate, flag_confirm, rhdr_computer_chksum, valid_chksum,
  client_chksum, encrypt,
}
use cprogramming.Rudp.Queue.{u16, rhead_append, rhead_peak, RState, curr}

-- The files that the server can read, by the bytes of their names, and `ntohs`, `htons`. `fread` gives
-- the bytes that it read, `word` the number that two bytes are in memory.
pub record Files : Type 1 where
  pub File : Type 0
  pub stat : List ℕ → Bool
  pub fopen : List ℕ → Option File
  pub fseek : File → ℕ → File
  pub feof : File → Bool
  pub fread : File → ℕ → List ℕ
  pub ntohs : ℕ → ℕ
  pub htons : ℕ → ℕ
  pub word : ℕ → ℕ → ℕ

-- What the manual says of a regular file that is only read: `fread` gives the bytes from the position
-- on, as many as are asked for if there are so many, and `fseek` leaves no end of file behind. `ntohs`
-- takes back what `htons` does.
pub record FilesLaws (fs : Files) : Type 0 where
  pub contents : fs.File → List ℕ
  pub fread-fopen :
      (name : List ℕ) (f : fs.File) (n : ℕ)
      → fs.fopen name ≡ some f
      → fs.fread f n ≡ take n (contents f)
  pub fread-fseek :
      (f : fs.File) (k n : ℕ) → fs.fread (fs.fseek f k) n ≡ take n (drop k (contents f))
  pub feof-fseek : (f : fs.File) (k : ℕ) → fs.feof (fs.fseek f k) ≡ false
  pub ntohs-htons : (n : ℕ) → fs.ntohs (fs.htons n) ≡ n

-- What rprocess_request returns: false, true, 2 and 3.
pub data Answer : Type 0 where
  refused send bad_chk worse_chk : Answer

-- The string that an array holds: the bytes before its first NUL.
abbrev pub c_string : List ℕ → List ℕ
c_string [] = []
c_string (c ∷ s) = let rest = c_string s in if c == 0 then [] else c ∷ rest

-- `memcmp` with EMPTY_BUF
abbrev pub all_zero : List ℕ → Bool
all_zero [] = true
all_zero (c ∷ s) = c == 0 && all_zero s

-- The path below HOSTING_ROOT, "./".
unfoldable pub fname_of : List ℕ → List ℕ
fname_of msg = c_string (b'.' ∷ b'/' ∷ take (msg_siz - 3) msg)

unfoldable pub convert_bytes : Files → RHdr → Bool → RHdr
convert_bytes fs h network =
    if network
    then record h {
      seqn = fs.ntohs h.seqn;
      ackn = fs.ntohs h.ackn;
      chks = fs.ntohs h.chks;
      flgv = fs.ntohs h.flgv;
    }
    else record h {
      seqn = fs.htons h.seqn;
      ackn = fs.htons h.ackn;
      chks = fs.htons h.chks;
      flgv = fs.htons h.flgv;
    }

abbrev pub is_none {ℓ} : {A : Type ℓ} → Option A → Bool
is_none none = true
is_none (some a) = false

-- The check sum of a header, put into it.
unfoldable pub add_chksum : RHdr → RHdr
add_chksum h = let h' = flag_set h chk_flag in record h' { chks = rhdr_computer_chksum h'.msg }

abbrev pub on_last : (RHdr → RHdr) → List RHdr → List RHdr
on_last f [] = []
on_last f (last ∷ q) = f last ∷ q

-- RET_PKT
unfoldable pub ret_pkt : RState → RState × Answer
ret_pkt s = if is_none (curr s) then (s, worse_chk) else (s, send)

-- SND_PKT
unfoldable pub with_chksum : RState → RHdr → RHdr
with_chksum s h = if s.chksum && not (flag_validate h chk_flag) then add_chksum h else h

unfoldable pub snd_pkt : RState → RState × Answer
snd_pkt s = ret_pkt (record s { mys = on_last (with_chksum s) s.mys })

-- INVALID_NAK, for the message `h`
unfoldable pub invalid_nak : RState → RHdr → RState × Answer
invalid_nak s h =
    if flag_validate h nak_flag
    then snd_pkt s
    else if is_none (curr s)
    then (s, worse_chk)
    else (s, bad_chk)

-- The next packet: `rhead_append`, and the counts.
unfoldable pub append_packet : (RHdr → RHdr) → RState → RState
append_packet f s = record s {
  mys = on_last f (rhead_append s.mys);
  ack = u16 (s.ack + 1);
  seq = u16 (s.seq + 1);
}

unfoldable pub data_packet : List ℕ → RHdr → RHdr
data_packet bytes e = let e' = flag_set e dat_flag in record e' { msg = overlay bytes e'.msg }

-- Where `fread` gives nothing, FLAG_VERSION_INIT takes DAT off again.
unfoldable pub fin_packet : RHdr → RHdr
fin_packet e = flag_set (record e { flgv = r_version }) fin_flag

-- The first request, with what `fopen` gives for it
unfoldable pub get_from : (fs : Files) → RState → RHdr → Option fs.File → RState × Answer
get_from fs s h none = (s, refused)
get_from fs s h (some f) =
    snd_pkt (record (append_packet (data_packet (fs.fread f msg_siz)) s) { request = some h })

unfoldable pub serve_get : Files → RState → RHdr → RState × Answer
serve_get fs s h =
    if not (fs.stat (fname_of h.msg))
    then (s, refused)
    else get_from fs s h (fs.fopen (fname_of h.msg))

-- The packet that comes next, from the file after `fseek`
unfoldable pub next_packet : (fs : Files) → fs.File → RHdr → RHdr
next_packet fs f e =
    let bytes = fs.fread f msg_siz in
    if fs.feof f
    then flag_set e fin_flag
    else if length bytes == 0
    then fin_packet e
    else data_packet bytes e

-- The acknowledgement of a packet, with what `fopen` gives for the file that was requested
unfoldable pub next_from : (fs : Files) → RState → Option fs.File → RState × Answer
next_from fs s none = (s, refused)
next_from fs s (some f) = snd_pkt (append_packet (next_packet fs (fs.fseek f (s.ack * msg_siz))) s)

unfoldable pub serve_next : Files → RState → RHdr → RState × Answer
serve_next fs s request =
    if not (fs.stat (fname_of request.msg))
    then (s, refused)
    else next_from fs s (fs.fopen (fname_of request.msg))

-- The acknowledgement of the end, `h`
unfoldable pub end_packet : RState → RHdr → RHdr → RHdr
end_packet s h e =
    let e1 = flag_set (flag_set e ack_flag) fin_flag in
    let e2 = if flag_check h chk_flag then add_chksum e1 else e1 in
    let e3 =
      if flag_check h enc_flag
      then (let e' = flag_set e2 enc_flag in record e' { msg = encrypt e'.msg })
      else e2 in
    let e4 = record e3 { ackn = s.seq } in if s.chksum then add_chksum e4 else e4

unfoldable pub serve_end : RState → RHdr → RState × Answer
serve_end s h = (append_packet (end_packet s h) s, refused)

unfoldable pub is_fin : RHdr → Bool
is_fin e = flag_check e fin_flag || flag_check e (fin_flag + chk_flag)

-- Where `curr` is set, so is `request`.
unfoldable pub next_asked : Files → RState → Option RHdr → RState × Answer
next_asked fs s none = (s, refused)
next_asked fs s (some r) = serve_next fs s r

-- With a packet sent before, `last`.
unfoldable pub answer_later : Files → RState → RHdr → RHdr → RState × Answer
answer_later fs s last h =
    if flag_check h (ack_flag + dat_flag)
    then next_asked fs s s.request
    else if flag_check h (ack_flag + fin_flag) && is_fin last
    then serve_end s h
    else invalid_nak s h

-- The flags decide, once the numbers have been looked at.
unfoldable pub flags_after : Files → RState → RHdr → Option RHdr → RState × Answer
flags_after fs s h none = if flag_check h get_flag then serve_get fs s h else invalid_nak s h
flags_after fs s h (some last) =
    if flag_check h (dat_flag + nak_flag) || flag_validate h nak_flag
    then (if s.ack == h.ackn then ret_pkt (record s { seq = u16 (s.seq + 1) }) else invalid_nak s h)
    else answer_later fs s last h

unfoldable pub answer_flags : Files → RState → RHdr → RState × Answer
answer_flags fs s h = flags_after fs s h (curr s)

unfoldable pub answer_numbers : Files → RState → RHdr → RState × Answer
answer_numbers fs s h =
    if is_none (curr s)
    then if h.seqn == 1 && h.ackn == 0 then answer_flags fs s h else (s, refused)
    else if not (flag_validate h nak_flag) && not (h.seqn == s.seq && h.ackn == s.ack)
    then ret_pkt s
    else answer_flags fs s h

-- The message, changed, in its place in the queue of the client.
abbrev pub put_his : RHdr → RState → RState
put_his h s = record s { his = on_last (λ _. h) s.his }

unfoldable pub answer_chksum : Files → RState → RHdr → RState × Answer
answer_chksum fs s h =
    let h' = flag_unset h chk_flag in
    let s' = record s { chksum = true } in
    if not (flag_validate h chk_flag || s.chksum)
    then answer_numbers fs s h
    else if is_none (curr s)
    then (if valid_chksum h then answer_numbers fs (put_his h' s') h' else (s', worse_chk))
    else if flag_validate h chk_flag && client_chksum h
    then answer_numbers fs (put_his h' s) h'
    else (s, bad_chk)

unfoldable pub process_converted : Files → RState → RHdr → RState × Answer
process_converted fs s h =
    if not (flag_confirm h)
    then invalid_nak s h
    else if not (is_none (curr s)) && not (all_zero h.msg)
    then (s, bad_chk)
    else answer_chksum fs s h

unfoldable pub process_last : Files → RState → Option RHdr → RState × Answer
process_last fs s none = (s, refused)
process_last fs s (some raw) =
    let h = convert_bytes fs raw true in process_converted fs (put_his h s) h

-- The message is the last header of `his`; rhandle_port has just put it there.
unfoldable pub rprocess_request : Files → RState → RState × Answer
rprocess_request fs s = process_last fs s (rhead_peak s.his)
