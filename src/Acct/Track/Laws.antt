-- ===== src/Acct/Track/Laws.antt =====
-- What the functions on tracked files do to lookups.
use cprogramming.Prelude.{
  ℕ, ◌+◌, ◌≡◌, refl, inl, inr, arith, true, none, some, List, [], ◌∷◌, if◌then◌else◌, length,
  Option-cases,
}
use cprogramming.Acct.Types.{Vnode, Bytes, TrkNode}
use cprogramming.Acct.Kernel.{Kernel, TreeLaws, same, same-mod, same_self, has_key}
use cprogramming.Acct.Track.{
  State, delete_each, trktree_delete_vnodes, trkvnode_new, trktree_add_vnode_unlocked,
  trktree_vnoderemove, trktree_vnodelookup,
}

module _ (K : Kernel) (L : TreeLaws K) where
  find-delete_each :
      (ns : List TrkNode) (t : K.Tree) (r : ℕ) (k : Vnode)
      → K.find k (delete_each K ns t r).1 ≡ (if has_key k ns then none else K.find k t)
  unfolding delete_each
  find-delete_each [] t r k = refl
  find-delete_each (n ∷ ns) t r k =
      ground
        (arith, find-delete_each ns (K.remove n.trkvnode t) (r + 1) k, L.find-remove k n.trkvnode t)

  count-delete_each :
      (ns : List TrkNode) (t : K.Tree) (r : ℕ) → (delete_each K ns t r).0 ≡ r + length ns
  unfolding delete_each
  count-delete_each [] t r = omega arith
  count-delete_each (n ∷ ns) t r =
      omega (arith, count-delete_each ns (K.remove n.trkvnode t) (r + 1))

  -- trktree_delete_vnodes leaves no tracked file, and returns how many there were.
  pub trktree_delete_vnodes_all :
      (t : K.Tree)
      → ((k : Vnode) → K.find k (trktree_delete_vnodes K t).1 ≡ none)
        × ((trktree_delete_vnodes K t).0 ≡ length (K.elements t))
  unfolding trktree_delete_vnodes
  trktree_delete_vnodes_all t = (
    λ k. elim (Option-cases (K.find k t)) [
      | inl free ↦ ground (arith, find-delete_each (K.elements t) t 0 k)
      | inr (n, e) ↦
          ground (arith, find-delete_each (K.elements t) t 0 k, L.elements-complete k n t e)
    ],
    omega (arith, count-delete_each (K.elements t) t 0),
  )

  -- What is removed is no longer found, and nothing else is lost.
  pub lookup-vnoderemove :
      (s : State K) (v k : Vnode)
      → trktree_vnodelookup K (trktree_vnoderemove K s v).1 k
        ≡ (if same k v then none else trktree_vnodelookup K s k)
  unfolding trktree_vnodelookup trktree_vnoderemove
  lookup-vnoderemove s v k = elim (Option-cases (K.find v s.f_tracker)) [
    | inl e ↦ ground (arith, L.find-same k v s.f_tracker)
    | inr (n, e) ↦ ground (
      arith,
      L.find-key v n s.f_tracker e,
      L.find-remove k n.trkvnode s.f_tracker,
      same-mod k v,
      same-mod k n.trkvnode,
      same-mod v n.trkvnode,
    )
  ]

  -- A vnode that is added is found after, with the node that is returned, and the other lookups
  -- are as before.
  pub lookup-add_vnode :
      (s : State K) (v : Vnode) (path : Bytes) (k : Vnode)
      → trktree_vnodelookup K (trktree_add_vnode_unlocked K s v path).1 k ≡ (
          if same k v
          then some (trktree_add_vnode_unlocked K s v path).0
          else trktree_vnodelookup K s k)
  unfolding trktree_vnodelookup trktree_add_vnode_unlocked trkvnode_new
  lookup-add_vnode s v path k = elim (Option-cases (K.find v s.f_tracker)) [
    | inl e ↦ ground (
      arith,
      L.find-insert k (trkvnode_new v path) s.f_tracker e,
      L.insert-fresh (trkvnode_new v path) s.f_tracker e,
    )
    | inr (n, e) ↦
        ground
          (arith, L.insert-found (trkvnode_new v path) n s.f_tracker e, L.find-same k v s.f_tracker)
  ]

  -- The node that an addition returns stands under the key that was added.
  pub key-add_vnode :
      (s : State K) (v : Vnode) (path : Bytes)
      → same v (trktree_add_vnode_unlocked K s v path).0.trkvnode ≡ true
  unfolding trktree_add_vnode_unlocked trkvnode_new
  key-add_vnode s v path = elim (Option-cases (K.find v s.f_tracker)) [
    | inl e ↦ ground (arith, L.insert-fresh (trkvnode_new v path) s.f_tracker e, same_self v)
    | inr (n, e) ↦
        ground (
          arith,
          L.insert-found (trkvnode_new v path) n s.f_tracker e,
          L.find-key v n s.f_tracker e,
        )
  ]
