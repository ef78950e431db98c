-- ===== src/Rudp/Client.antt =====
-- RClient.c: the client, from its request on. Options are -c (check sums) and -m (misbehave); the
-- program never turns `encryption` and `xuberant` on. What goes to `fprintf` for the file that it
-- writes is a list, the last message first.
pub mod Transfer
pub mod Rounds
pub mod Whole
use cprogramming.Prelude.{
  ℕ, ◌+◌, ◌-◌, ◌%◌, Bool, true, false, not, ◌&&◌, ◌||◌, Option, none, some, List, [], ◌∷◌, ◌==◌,
  ltb, if◌then◌else◌,
}
use cprogramming.Rudp.Hdr.{
  RHdr, ack_flag, nak_flag, get_flag, dat_flag, fin_flag, chk_flag, flag_set, flag_unset,
  flag_check, flag_validate, valid_chksum,
}
use cprogramming.Rudp.Queue.{u16, entry_puts, rhead_append, rhead_peak}
use cprogramming.Rudp.Process.{add_chksum, on_last}

pub record Client : Type 0 where
  pub chksum : Bool
  pub misbehave : Bool
  pub misbehave_d : Bool
  pub mys : List RHdr
  pub his : List RHdr
  pub track_seqn : ℕ
  pub req : List (List ℕ)

-- The client with its request, for the resource given by its bytes.
unfoldable pub start : Bool → Bool → List ℕ → Client
start chksum misbehave resource = record {
  chksum = chksum;
  misbehave = misbehave;
  misbehave_d = false;
  mys = on_last (λ e. flag_set (entry_puts e resource).0 get_flag) (rhead_append []);
  his = [];
  track_seqn = 1;
  req = [];
}

-- The header that is written to the socket, before it is converted
unfoldable pub write_packet : Client → Client
write_packet c = if c.chksum then record c { mys = on_last add_chksum c.mys } else c

pub data Next : Type 0 where
  ended : Client → Next
  goes_on : Client → Next

abbrev reply : (RHdr → RHdr) → Client → Client
reply f c = record c {
  mys = on_last (λ e. record (f e) { ackn = c.track_seqn }) (rhead_append c.mys);
}

-- The end of a round: what was read is printed, and the next number is awaited.
abbrev accept : RHdr → Client → Next
accept h c = goes_on (record c { req = h.msg ∷ c.req; track_seqn = u16 (c.track_seqn + 1) })

-- INVALID_NAK, with the rest of its round
unfoldable pub invalid_nak : Client → Next
invalid_nak c =
    let nak = λ (e : RHdr). flag_set (if c.misbehave_d then flag_set e dat_flag else e) nak_flag in
    let c' = reply nak c in
    goes_on (record c' { track_seqn = u16 (u16 (c.track_seqn + 65535) + 1) })

abbrev is_last : Client → RHdr → Bool
is_last c h =
    flag_check h (fin_flag + ack_flag)
    && (elim (rhead_peak c.mys) [ none ↦ false | some e ↦ h.ackn == e.seqn ])

-- By the flags and the numbers of the answer
unfoldable pub answer_packet : Client → RHdr → Next
answer_packet c h =
    if is_last c h
    then ended c
    else if flag_check h fin_flag && h.seqn == c.track_seqn
    then accept h (reply (λ e. flag_set (flag_set e ack_flag) fin_flag) c)
    else if flag_check h dat_flag && h.seqn == c.track_seqn
    then accept h (reply (λ e. flag_set (flag_set e ack_flag) dat_flag) c)
    else invalid_nak c

-- With `rand`, which is asked for a bit where the client misbehaves.
unfoldable pub check_packet : Bool → Client → RHdr → Next
check_packet rand c h =
    if not (flag_validate h fin_flag) && c.misbehave && ltb 1 c.track_seqn && rand
    then invalid_nak (record c { misbehave_d = true })
    else answer_packet c h

-- The answer of the server, `h`, converted; it takes the place of the new last header of `his`.
unfoldable pub read_packet : Bool → Client → RHdr → Next
read_packet rand c h =
    let h' = flag_unset h chk_flag in
    if c.chksum && not (valid_chksum h)
    then invalid_nak (record c { his = h ∷ c.his })
    else check_packet rand (record c { his = h' ∷ c.his }) h'
