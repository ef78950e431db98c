-- ===== src/Acct/Hooks/Audit.antt =====
-- What the file hooks log, and which files they stop tracking.
use cprogramming.Prelude.{
  ℕ, ◌≡◌, refl, ◌≢◌, ◌↔◌, ◌⊎◌, arith, Bool, true, false, none, some, if◌then◌else◌, bit_and, inl,
}
use cprogramming.Acct.Types.{Vnode, Bytes, TrkNode, MsgType, Body, Process}
use cprogramming.Acct.Kernel.{Kernel, TreeLaws, same, same-mod}
use cprogramming.Acct.Track.{State, trktree_parsepermissions, trktree_vnodelookup}
use cprogramming.Acct.Track.Laws.{lookup-vnoderemove}
use cprogramming.Acct.Log.{update_seq, add_node, log}
use cprogramming.Acct.Hooks.{acct_rename, acct_unlink, log_and_drop, ena_rename, ena_unlink}

-- The event is switched on for the device and for the file, and one of the wanted conditions is
-- among the file's, if there are any wanted.
abbrev pub IsLoggable : (driver_ena : ℕ) → TrkNode → (ena flags : ℕ) → Type 0
IsLoggable driver_ena n ena flags =
    (bit_and driver_ena ena ≢ 0)
    × (bit_and n.trk_ena ena ≢ 0)
    × ((flags ≡ 0) × (n.trk_flags ≡ 0)
        ⊎ (flags ≡ 0) × (bit_and n.trk_flags n.trk_flags ≢ 0)
        ⊎ (flags ≢ 0) × (bit_and n.trk_flags flags ≢ 0))

-- trktree_parsepermissions lets an event of a tracked file pass just when it is loggable.
pub parsepermissions_lem :
    (driver_ena : ℕ) (n : TrkNode) (ena flags : ℕ)
    → (trktree_parsepermissions driver_ena (some n) ena flags ≡ 0)
      ↔ IsLoggable driver_ena n ena flags
unfolding trktree_parsepermissions
parsepermissions_lem driver_ena n ena flags = (λ h. ground arith, λ h. ground arith)

module _ (K : Kernel) (L : TreeLaws K) where
  -- Logging an event leaves the tracked files and `driver_ctl` as they are.
  pub tracker-log :
      (got : Bool) (s : State K) (t : MsgType) (pr : Process) (body : Body)
      → ((log K got s t pr body).f_tracker ≡ s.f_tracker) × ((log K got s t pr body).ctl ≡ s.ctl)
  unfolding log add_node update_seq
  tracker-log false s t pr body = ground arith
  tracker-log true s t pr body = ground arith

  lookup-log :
      (got : Bool) (s : State K) (t : MsgType) (pr : Process) (body : Body) (k : Vnode)
      → trktree_vnodelookup K (log K got s t pr body) k ≡ trktree_vnodelookup K s k
  unfolding trktree_vnodelookup
  lookup-log got s t pr body k = rw (tracker-log got s t pr body).0

  -- A vnode is found under the same keys as its node's own.
  same_key :
      (s : State K) (v k : Vnode) (n : TrkNode)
      → trktree_vnodelookup K s v ≡ some n
      → same k n.trkvnode ≡ same k v
  unfolding trktree_vnodelookup
  same_key s v k n e = ground (
    arith,
    L.find-key v n s.f_tracker e,
    same-mod v n.trkvnode,
    same-mod k n.trkvnode,
    same-mod k v,
  )

  -- With memory for the message, or with no message to log, the file is dropped.
  lookup-log_and_drop :
      (got : Bool) (s : State K) (ena : ℕ) (n : TrkNode) (t : MsgType) (pr : Process) (body : Body)
      (k : Vnode)
      → (got ≡ true) ⊎ (¬ IsLoggable s.ctl.acct_ena n ena 0)
      → trktree_vnodelookup K (log_and_drop K got s ena n t pr body) k
        ≡ (if same k n.trkvnode then none else trktree_vnodelookup K s k)
  unfolding log_and_drop
  lookup-log_and_drop got s ena n t pr body k h = ground (
    arith,
    parsepermissions_lem s.ctl.acct_ena n ena 0,
    lookup-vnoderemove K L (log K true s t pr body) n.trkvnode k,
    lookup-vnoderemove K L s n.trkvnode k,
    lookup-log true s t pr body k,
    h,
  )

  -- After acct_rename and acct_unlink of a tracked vnode, with memory for the message, the vnode is
  -- not tracked, and every other one is as before, whether or not the event was logged.
  pub rename_unlink_drop :
      (s : State K) (pr : Process) (v k : Vnode) (name : Bytes) (e0 : ℕ) (n : TrkNode)
      → trktree_vnodelookup K s v ≡ some n
      → (trktree_vnodelookup K (acct_rename K true s pr v name e0) k
          ≡ (if same k v then none else trktree_vnodelookup K s k))
        × (trktree_vnodelookup K (acct_unlink K true s pr v e0) k
            ≡ (if same k v then none else trktree_vnodelookup K s k))
  unfolding acct_rename acct_unlink
  rename_unlink_drop s pr v k name e0 n e =
      let keys = same_key s v k n e in
      (
        rw (e, acct_rename)
            (rw (← keys) (lookup-log_and_drop true s ena_rename n _ pr _ k (inl refl))),
        rw (e, acct_unlink)
            (rw (← keys) (lookup-log_and_drop true s ena_unlink n _ pr _ k (inl refl))),
      )

  -- Without memory, a loggable rename or unlink leaves the file tracked, and its number is lost.
  pub rename_unlink_kept :
      (s : State K) (pr : Process) (v : Vnode) (name : Bytes) (e0 : ℕ) (n : TrkNode)
      → trktree_vnodelookup K s v ≡ some n
      → IsLoggable s.ctl.acct_ena n ena_rename 0
      → IsLoggable s.ctl.acct_ena n ena_unlink 0
      → (acct_rename K false s pr v name e0 ≡ (update_seq K s).1)
        × (acct_unlink K false s pr v e0 ≡ (update_seq K s).1)
  unfolding acct_rename acct_unlink log_and_drop log
  rename_unlink_kept s pr v name e0 n e h h' = (
    rw (e, acct_rename, (parsepermissions_lem s.ctl.acct_ena n ena_rename 0).1 h),
    rw (e, acct_unlink, (parsepermissions_lem s.ctl.acct_ena n ena_unlink 0).1 h'),
  )
