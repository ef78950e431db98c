-- ===== src/Acct/Track.antt =====
-- The tracked files of acct.c: trk_path_copy, trkvnode_new, the trktree_* functions, and
-- path_to_vnode. A function that changes the tree or `driver_ctl` returns the new driver.
pub mod Laws
pub mod Counting
use cprogramming.Prelude.{
  ℕ, ◌+◌, ◌-◌, ◌%◌, ◌^◌, Bool, Option, none, some, List, [], ◌∷◌, ◌&&◌, ◌||◌, not, ◌==◌,
  if◌then◌else◌, bit_and, take,
}
use cprogramming.Acct.Types.{Bytes, Vnode, TrkNode, Driver, Ctl}
use cprogramming.Acct.Kernel.{Kernel}

-- `strlcpy(my_path, path, 49)` keeps 48 bytes.
unfoldable pub trk_path_copy : Bytes → Bytes
trk_path_copy path = take 48 path

-- `fcount++` and `fcount--` on 64 bits
abbrev pub count_up : Ctl → Ctl
count_up c = record c { acct_fcount = (c.acct_fcount + 1) % 2 ^ 64 }

abbrev pub count_down : Ctl → Ctl
count_down c = record c { acct_fcount = (c.acct_fcount + (2 ^ 64 - 1)) % 2 ^ 64 }

unfoldable pub trkvnode_new : Vnode → Bytes → TrkNode
trkvnode_new v path = record {
  trk_name = trk_path_copy path;
  trk_ena = 0;
  trk_flags = 0;
  trkvnode = v;
}

-- A flag word tested as a condition.
abbrev pub nonzero : ℕ → Bool
nonzero x = not (x == 0)

-- `trk_flags` of the file stands in for no flags. The result is 0 (log), 1 (not tracked) or 2.
unfoldable pub trktree_parsepermissions : ℕ → Option TrkNode → ℕ → ℕ → ℕ
trktree_parsepermissions driver_ena none ena flags = 1
trktree_parsepermissions driver_ena (some n) ena flags =
    let wanted = if flags == 0 then n.trk_flags else flags in
    if nonzero (bit_and driver_ena ena)
      && nonzero (bit_and n.trk_ena ena)
      && (wanted == 0 || nonzero (bit_and n.trk_flags wanted))
    then 0
    else 2

module _ (K : Kernel) where
  open K use {Tree, find, insert, remove, elements, namei}

  abbrev pub State : Type 0
  State = Driver Tree

  -- The loop of RBT_FOREACH_SAFE: each element is removed and counted.
  unfoldable pub delete_each : List TrkNode → Tree → ℕ → ℕ × Tree
  delete_each [] t ret = (ret, t)
  delete_each (n ∷ ns) t ret = delete_each ns (remove n.trkvnode t) (ret + 1)

  unfoldable pub trktree_delete_vnodes : Tree → ℕ × Tree
  trktree_delete_vnodes t = delete_each (elements t) t 0

  unfoldable pub trktree_add_vnode_unlocked : State → Vnode → Bytes → TrkNode × State
  trktree_add_vnode_unlocked s v path =
      let trkv = trkvnode_new v path in
      let (old, t) = insert trkv s.f_tracker in
      elim old [
        | some n ↦ (n, record s { f_tracker = t })
        | none ↦ (trkv, record s { f_tracker = t; ctl = count_up s.ctl })
      ]

  unfoldable pub trktree_add_vnode : State → Option Vnode → Bytes → Option TrkNode × State
  trktree_add_vnode s none path = (none, s)
  trktree_add_vnode s (some v) path =
      let (n, s') = trktree_add_vnode_unlocked s v path in (some n, s')

  -- Whether the vnode was found, and the driver without it.
  unfoldable pub trktree_vnoderemove : State → Vnode → Bool × State
  trktree_vnoderemove s v = elim (find v s.f_tracker) [
    | some n ↦
        (Bool.true, record s { f_tracker = remove n.trkvnode s.f_tracker; ctl = count_down s.ctl })
    | none ↦ (Bool.false, s)
  ]

  unfoldable pub trktree_vnodelookup : State → Vnode → Option TrkNode
  trktree_vnodelookup s v = find v s.f_tracker

  -- The path is looked up in its copy.
  unfoldable pub path_to_vnode : Bytes → Option Vnode
  path_to_vnode path = namei (trk_path_copy path)

  unfoldable pub trktree_pathremove : State → Bytes → State
  trktree_pathremove s path = elim (path_to_vnode path) [
    | none ↦ s
    | some v ↦ (trktree_vnoderemove s v).1
  ]

  unfoldable pub trktree_pathlookup : State → Bytes → Option TrkNode
  trktree_pathlookup s path = elim (path_to_vnode path) [
    | none ↦ none
    | some v ↦ trktree_vnodelookup s v
  ]

  unfoldable pub trktree_add_path : State → Bytes → Option TrkNode × State
  trktree_add_path s path = trktree_add_vnode s (path_to_vnode path) path
