-- ===== src/Acct/Track/Counting.antt =====
-- `acct_fcount` counts the tracked files, as long as nothing but additions and removals happens.
use cprogramming.Prelude.{◌+◌, ◌^◌, ◌<◌, ◌≡◌, inl, inr, arith, length, Option-cases}
use cprogramming.Acct.Types.{Vnode, Bytes}
use cprogramming.Acct.Kernel.{Kernel, TreeLaws}
use cprogramming.Acct.Track.{
  State, trkvnode_new, trktree_add_vnode_unlocked, trktree_add_vnode, trktree_add_path,
  trktree_vnoderemove, trktree_pathremove, path_to_vnode,
}

abbrev pub IsCounted : (K : Kernel) → State K → Type 0
IsCounted K s = (s.ctl.acct_fcount ≡ length (K.elements s.f_tracker)) × (s.ctl.acct_fcount < 2 ^ 64)

module _ (K : Kernel) (L : TreeLaws K) where
  pub vnoderemove-IsCounted :
      (s : State K) (v : Vnode) → IsCounted K s → IsCounted K (trktree_vnoderemove K s v).1
  unfolding trktree_vnoderemove
  vnoderemove-IsCounted s v c = elim (Option-cases (K.find v s.f_tracker)) [
    | inl e ↦ ground arith
    | inr (n, e) ↦ ground (arith, L.length-remove v n s.f_tracker e)
  ]

  pub pathremove-IsCounted :
      (s : State K) (path : Bytes) → IsCounted K s → IsCounted K (trktree_pathremove K s path)
  unfolding trktree_pathremove
  pathremove-IsCounted s path c = elim (Option-cases (path_to_vnode K path)) [
    | inl e ↦ ground arith
    | inr (v, e) ↦ ground (arith, vnoderemove-IsCounted s v c)
  ]

  pub add_vnode-IsCounted :
      (s : State K) (v : Vnode) (path : Bytes)
      → IsCounted K s
      → s.ctl.acct_fcount + 1 < 2 ^ 64
      → IsCounted K (trktree_add_vnode_unlocked K s v path).1
  unfolding trktree_add_vnode_unlocked trkvnode_new
  add_vnode-IsCounted s v path c room = elim (Option-cases (K.find v s.f_tracker)) [
    | inl e ↦ ground (
      arith,
      L.insert-fresh (trkvnode_new v path) s.f_tracker e,
      L.length-insert (trkvnode_new v path) s.f_tracker e,
    )
    | inr (n, e) ↦ ground (arith, L.insert-found (trkvnode_new v path) n s.f_tracker e)
  ]

  pub add_path-IsCounted :
      (s : State K) (path : Bytes)
      → IsCounted K s
      → s.ctl.acct_fcount + 1 < 2 ^ 64
      → IsCounted K (trktree_add_path K s path).1
  unfolding trktree_add_path trktree_add_vnode
  add_path-IsCounted s path c room = elim (Option-cases (path_to_vnode K path)) [
    | inl e ↦ ground arith
    | inr (v, e) ↦ ground (arith, add_vnode-IsCounted s v path c room)
  ]
