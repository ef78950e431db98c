-- ===== src/Acct/Ioctl.antt =====
-- Opening the device and its ioctls: acctattach, acctopen, acctioctl, acctkqfilter, acctpoll and
-- acctwrite of acct.c.
pub mod Tracking
pub mod Disabling
use cprogramming.Prelude.{
  ℕ, ◌%◌, ◌^◌, Option, none, some, List, [], ◌==◌, if◌then◌else◌, bit_and, bit_or,
}
use cprogramming.Acct.Types.{Bytes, Vnode, TrkNode, Ctl, enoent, enxio, eopnotsupp}
use cprogramming.Acct.Kernel.{Kernel}
use cprogramming.Acct.Track.{
  State, nonzero, trktree_delete_vnodes, trktree_pathlookup, trktree_pathremove, trktree_add_path,
}

-- FIONREAD, FIONBIO, ACCT_IOC_* and any other command
pub data Cmd : Type 0 where
  fionread fionbio status fstatus enable disable track_file untrack_file other : Cmd

-- ACCT_ENA_OPEN | ACCT_ENA_CLOSE | ACCT_ENA_RENAME | ACCT_ENA_UNLINK
abbrev pub f_ena : ℕ
f_ena = 120

-- `x & ACCT_ENA_ALL`, as the macro expands: `&` binds tighter than the `|` in it.
unfoldable pub and_ena_all : ℕ → ℕ
and_ena_all x = bit_or (bit_or (bit_or (bit_or (bit_or (bit_or (bit_and x 1) 2) 4) 8) 16) 32) 64

-- `!x`
abbrev pub logical_not : ℕ → ℕ
logical_not x = if x == 0 then 1 else 0

-- `trk_ena` and `trk_flags` are `u_char`.
abbrev pub add_marks : (ena cond : ℕ) → TrkNode → TrkNode
add_marks ena cond n = record n {
  trk_ena = bit_or n.trk_ena (bit_and ena f_ena) % 256;
  trk_flags = bit_or n.trk_flags cond % 256;
}

module _ (K : Kernel) where
  open K use {init, store}

  unfoldable pub acctattach : State K → State K
  acctattach s = record s { acct_list = []; f_tracker = init }

  -- The errno, by the minor number of the device.
  unfoldable pub acctopen : ℕ → ℕ
  acctopen minor = if nonzero minor then enxio else 0

  ioctl_disable : State K → Ctl → Ctl × State K
  ioctl_disable s c =
      let tree =
        if nonzero (and_ena_all c.acct_ena)
        then (trktree_delete_vnodes K s.f_tracker).1
        else s.f_tracker in
      let d = record (s.ctl) { acct_ena = bit_and s.ctl.acct_ena (logical_not c.acct_ena) } in
      (
        record c { acct_ena = d.acct_ena; acct_fcount = d.acct_fcount },
        record s { ctl = d; f_tracker = tree },
      )

  -- The node that was found or added takes the marks where it stands in the tree.
  ioctl_track : State K → Ctl → ℕ × Ctl × State K
  ioctl_track s c =
      let (node, s') = trktree_add_path K s c.acct_path in
      elim node [
        | none ↦
            (enoent, record c { acct_ena = 0; acct_cond = 0; acct_fcount = s'.ctl.acct_fcount }, s')
        | some n ↦
            let n' = add_marks c.acct_ena c.acct_cond n in
            (
              0,
              record c {
                acct_ena = n'.trk_ena;
                acct_cond = n'.trk_flags;
                acct_fcount = s'.ctl.acct_fcount;
              },
              record s' {
                f_tracker = store n.trkvnode (add_marks c.acct_ena c.acct_cond) s'.f_tracker;
              },
            )
      ]

  -- The errno, the structure handed back, and the driver.
  unfoldable pub acctioctl : Cmd → Ctl → State K → ℕ × Ctl × State K
  unfolding ioctl_disable ioctl_track
  acctioctl fionread c s = (0, c, s)
  acctioctl fionbio c s = (0, c, s)
  acctioctl status c s =
      (0, record c { acct_ena = s.ctl.acct_ena; acct_fcount = s.ctl.acct_fcount }, s)
  acctioctl fstatus c s = elim (trktree_pathlookup K s c.acct_path) [
    | none ↦ (0, record c { acct_fcount = s.ctl.acct_fcount }, s)
    | some n ↦ (
      0,
      record c { acct_ena = n.trk_ena; acct_cond = n.trk_flags; acct_fcount = s.ctl.acct_fcount },
      s,
    )
  ]
  acctioctl enable c s =
      let on = bit_or s.ctl.acct_ena c.acct_ena in
      (0, record c { acct_ena = on }, record s { ctl = record (s.ctl) { acct_ena = on } })
  acctioctl disable c s = let (c', s') = ioctl_disable s c in (0, c', s')
  acctioctl track_file c s = ioctl_track s c
  acctioctl untrack_file c s =
      let s' = trktree_pathremove K s c.acct_path in
      (
        0,
        record c { acct_ena = s.ctl.acct_ena; acct_fcount = s'.ctl.acct_fcount; acct_cond = 0 },
        s',
      )
  acctioctl other c s = (0, c, s)

abbrev pub pollerr : ℕ
pollerr = 8

-- acctkqfilter and acctwrite; acctpoll
unfoldable pub acctwrite : ℕ
acctwrite = eopnotsupp

unfoldable pub acctpoll : ℕ
acctpoll = pollerr
