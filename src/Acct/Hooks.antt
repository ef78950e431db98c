-- ===== src/Acct/Hooks.antt =====
-- The hooks that the kernel calls: acct_fork to acct_close of acct.c. Each takes whether its `malloc`
-- succeeds. A file hook looks the vnode up, and logs what trktree_parsepermissions lets pass.
pub mod Audit
pub mod Trace
use cprogramming.Prelude.{
  ℕ, ◌+◌, ◌-◌, ◌*◌, ◌/◌, ◌%◌, ◌^◌, Bool, true, false, none, some, ◌==◌, ltb, if◌then◌else◌, bit_and,
  take,
}
use cprogramming.Acct.Types.{
  Bytes, Vnode, TrkNode, MsgType, open_file, rename, unlink, close, Body, fork_body, exec_body,
  exit_body, open_body, rename_body, unlink_body, close_body, Process, Usage, path_max, ena_fork,
  ena_exec, ena_exit, ena_open, ena_close, ena_rename, ena_unlink,
}
use cprogramming.Acct.Kernel.{Kernel}
use cprogramming.Acct.Track.{
  State, nonzero, trktree_vnodelookup, trktree_vnoderemove, trktree_parsepermissions,
}
use cprogramming.Acct.Log.{log}

-- `strlcpy(to, from, PATH_MAX)`
abbrev pub copy_path : Bytes → Bytes
copy_path p = take (path_max - 1) p

-- The sum of the three memory counters over the `int` of clock ticks, with its sign.
average_mem : ℕ → ℕ → ℕ
average_mem total t =
    if t == 0
    then 0
    else if ltb t (2 ^ 31)
    then total / t
    else (2 ^ 64 - total / (2 ^ 32 - t)) % 2 ^ 64

module _ (K : Kernel) where
  open K use {timespecadd, hz, tick}

  enabled : State K → ℕ → Bool
  enabled s ena = nonzero (bit_and s.ctl.acct_ena ena)

  -- The message is about the parent `pptr`, and names the child `pr`.
  unfoldable pub acct_fork : Bool → State K → (pr pptr : Process) → State K
  unfolding enabled
  acct_fork got s pr pptr =
      if enabled s ena_fork then log K got s MsgType.fork pptr (fork_body pr.ps_pid) else s

  unfoldable pub acct_exec : Bool → State K → Process → State K
  unfolding enabled
  acct_exec got s pr = if enabled s ena_exec then log K got s MsgType.exec pr exec_body else s

  ticks : Usage → ℕ
  ticks r =
      let tmp = timespecadd r.utime r.stime in (tmp.sec * hz + tmp.nsec / (1000 * tick)) % 2 ^ 32

  unfoldable pub acct_exit : Bool → State K → Process → Usage → State K
  unfolding enabled ticks average_mem
  acct_exit got s pr r =
      let mem = average_mem (r.ru_ixrss + r.ru_idrss + r.ru_isrss) (ticks r) in
      let io = r.ru_inblock + r.ru_oublock in
      if enabled s ena_exit
      then log K got s MsgType.exit pr (exit_body r.utime r.stime mem io)
      else s

  -- `i0` is the mode of the open, `i1` its errno.
  unfoldable pub acct_open : Bool → State K → Process → Vnode → (i0 i1 : ℕ) → State K
  acct_open got s pr vn i0 i1 = elim (trktree_vnodelookup K s vn) [
    | none ↦ s
    | some n ↦
        if trktree_parsepermissions s.ctl.acct_ena (some n) ena_open (i0 % 256) == 0
        then log K got s open_file pr (open_body (copy_path n.trk_name) i0 i1)
        else s
  ]

  -- A node that is dropped with its vnode: by rename and unlink, logged or not, but not where
  -- `malloc` failed.
  unfoldable pub log_and_drop : Bool → State K → ℕ → TrkNode → MsgType → Process → Body → State K
  log_and_drop got s ena n ac_type pr body =
      if trktree_parsepermissions s.ctl.acct_ena (some n) ena 0 == 0
      then (if got
          then (trktree_vnoderemove K (log K true s ac_type pr body) n.trkvnode).1
          else log K false s ac_type pr body)
      else (trktree_vnoderemove K s n.trkvnode).1

  unfoldable pub acct_rename : Bool → State K → Process → Vnode → Bytes → ℕ → State K
  acct_rename got s pr vn name e0 = elim (trktree_vnodelookup K s vn) [
    | none ↦ s
    | some n ↦
        log_and_drop got s ena_rename n rename pr
          (rename_body (copy_path n.trk_name) (take path_max name) e0)
  ]

  unfoldable pub acct_unlink : Bool → State K → Process → Vnode → ℕ → State K
  acct_unlink got s pr vn e0 = elim (trktree_vnodelookup K s vn) [
    | none ↦ s
    | some n ↦ log_and_drop got s ena_unlink n unlink pr (unlink_body (copy_path n.trk_name) e0)
  ]

  unfoldable pub acct_close : Bool → State K → Process → Vnode → State K
  acct_close got s pr vn = elim (trktree_vnodelookup K s vn) [
    | none ↦ s
    | some n ↦
        if trktree_parsepermissions s.ctl.acct_ena (some n) ena_close 0 == 0
        then log K got s close pr (close_body (copy_path n.trk_name))
        else s
  ]
