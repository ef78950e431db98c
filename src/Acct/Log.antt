-- ===== src/Acct/Log.antt =====
-- The queue of messages: acct_void, make_node, update_seq and add_node of acct.c.
pub mod Sequence
use cprogramming.Prelude.{
  ℕ, ◌+◌, ◌%◌, ◌^◌, Bool, true, false, Option, none, some, List, [], ◌∷◌, ◌&&◌, if◌then◌else◌, take,
}
use cprogramming.Acct.Types.{Bytes, MsgType, Common, Body, Msg, msg_size, Process, Driver, nodev}
use cprogramming.Acct.Kernel.{Kernel}
use cprogramming.Acct.Track.{State}

abbrev pub is_empty {ℓ} : {A : Type ℓ} → List A → Bool
is_empty [] = true
is_empty (x ∷ xs) = false

-- The terminal, if the process has one.
tty_of : Process → ℕ
tty_of pr = elim pr.ttyp [ none ↦ nodev | some dev ↦ if pr.controlt then dev else nodev ]

module _ (K : Kernel) where
  open K use {nanouptime, nanoboottime, timespecadd, timespecsub}

  -- `ac_seq` is filled in later, and 0 till then.
  unfoldable pub acct_void : MsgType → ℕ → Process → Common
  unfolding tty_of
  acct_void ac_type ac_len pr = record {
    ac_type = ac_type;
    ac_len = ac_len % 2 ^ 16;
    ac_seq = 0;
    ac_comm = take 16 pr.ps_comm;
    ac_etime = timespecsub nanouptime pr.ps_start;
    ac_btime = timespecadd nanoboottime pr.ps_start;
    ac_pid = pr.ps_pid;
    ac_uid = pr.cr_ruid;
    ac_gid = pr.cr_rgid;
    ac_tty = tty_of pr;
    ac_flag = pr.ps_acflag;
  }

  -- The number handed out, and the driver with the next one. `ac_seq` is an `int`; where it overflows it
  -- is taken to wrap around, as the `unsigned int` of the message does.
  unfoldable pub update_seq : State K → ℕ × State K
  update_seq s = (s.ac_seq, record s { ac_seq = (s.ac_seq + 1) % 2 ^ 32 })

  -- The node goes in at the head; a reader that waits for a first one is woken.
  unfoldable pub add_node : State K → Msg → State K
  add_node s m =
      let (seq, s') = update_seq s in
      let m' : Msg = record m { common = record (m.common) { ac_seq = seq } } in
      record s' {
        acct_list = m' ∷ s.acct_list;
        wakeups = if is_empty s.acct_list then s.wakeups + 1 else s.wakeups;
      }

  -- The end of each hook: `malloc` gave memory for the message, or only a number is used up.
  unfoldable pub log : Bool → State K → MsgType → Process → Body → State K
  log false s ac_type pr body = (update_seq s).1
  log true s ac_type pr body =
      add_node s (record { common = acct_void ac_type (msg_size ac_type) pr; body = body })
