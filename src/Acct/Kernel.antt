-- ===== src/Acct/Kernel.antt =====
-- What acct.c uses of the kernel: the red-black trees of sys/tree.h, `namei`, the clock and its
-- macros. It is a parameter of the model, with the documented laws of the tree apart.
use cprogramming.Prelude.{
  ℕ, ◌+◌, ◌-◌, ◌%◌, ◌^◌, ◌<◌, ◌≡◌, arith, Bool, true, Option, none, some, List, [], ◌∷◌, ◌||◌, ◌==◌,
  if◌then◌else◌, length,
}
use cprogramming.Acct.Types.{Bytes, Vnode, Timespec, TrkNode}

-- The difference of two vnode pointers, cut to the 32 bits of the `int` that is returned.
unfoldable pub trkvnode_compare : Vnode → Vnode → ℕ
trkvnode_compare n1 n2 = (n1 + (2 ^ 32 - n2 % 2 ^ 32)) % 2 ^ 32

-- The tree takes two nodes for the same one when their comparison is 0.
unfoldable pub same : Vnode → Vnode → Bool
same n1 n2 = trkvnode_compare n1 n2 == 0

pub same-mod : (a b : Vnode) → same a b ≡ (a % 2 ^ 32 == b % 2 ^ 32)
unfolding same trkvnode_compare
same-mod a b = ground arith

pub same_self : (a : Vnode) → same a a ≡ true
same_self a = ground (arith, same-mod a a)

-- Vnodes less than 2 ^ 32 places apart are told apart.
pub same→≡ : (a b : Vnode) → a < 2 ^ 32 → b < 2 ^ 32 → same a b ≡ true → a ≡ b
same→≡ a b p q h = ground (arith, same-mod a b)

pub record Kernel : Type 1 where
  pub Tree : Type 0
  -- RBT_INIT, RBT_FIND, RBT_INSERT (with the element found, if the key is taken) and RBT_REMOVE
  pub init : Tree
  pub find : Vnode → Tree → Option TrkNode
  pub insert : TrkNode → Tree → Option TrkNode × Tree
  pub remove : Vnode → Tree → Tree
  -- A store to the fields that are not the key, through the pointer that RBT_FIND returns.
  pub store : Vnode → (TrkNode → TrkNode) → Tree → Tree
  -- The elements in the order of RBT_FOREACH.
  pub elements : Tree → List TrkNode
  -- The vnode that `namei` finds under a path, or an error.
  pub namei : Bytes → Option Vnode
  pub nanouptime : Timespec
  pub nanoboottime : Timespec
  pub timespecadd : Timespec → Timespec → Timespec
  pub timespecsub : Timespec → Timespec → Timespec
  pub hz : ℕ
  pub tick : ℕ

-- One of the elements has this key.
abbrev pub has_key : Vnode → List TrkNode → Bool
has_key k [] = Bool.false
has_key k (n ∷ ns) = same k n.trkvnode || has_key k ns

-- What sys/tree.h documents: a set of elements, ordered by the comparison.
pub record TreeLaws (K : Kernel) : Type 0 where
  pub find-init : (k : Vnode) → K.find k K.init ≡ none
  pub find-same : (k j : Vnode) (t : K.Tree) → same k j ≡ true → K.find k t ≡ K.find j t
  pub find-key :
      (k : Vnode) (n : TrkNode) (t : K.Tree) → K.find k t ≡ some n → same k n.trkvnode ≡ true
  pub insert-found :
      (n old : TrkNode) (t : K.Tree) → K.find n.trkvnode t ≡ some old → K.insert n t ≡ (some old, t)
  pub insert-fresh :
      (n : TrkNode) (t : K.Tree) → K.find n.trkvnode t ≡ none → (K.insert n t).0 ≡ none
  pub find-insert :
      (k : Vnode) (n : TrkNode) (t : K.Tree)
      → K.find n.trkvnode t ≡ none
      → K.find k (K.insert n t).1 ≡ (if same k n.trkvnode then some n else K.find k t)
  pub find-remove :
      (k j : Vnode) (t : K.Tree) → K.find k (K.remove j t) ≡ (if same k j then none else K.find k t)
  pub find-store :
      (k j : Vnode) (f : TrkNode → TrkNode) (n : TrkNode) (t : K.Tree)
      → ((m : TrkNode) → (f m).trkvnode ≡ m.trkvnode)
      → K.find j t ≡ some n
      → K.find k (K.store j f t) ≡ (if same k j then some (f n) else K.find k t)
  pub elements-complete :
      (k : Vnode) (n : TrkNode) (t : K.Tree) → K.find k t ≡ some n → has_key k (K.elements t) ≡ true
  pub length-insert :
      (n : TrkNode) (t : K.Tree)
      → K.find n.trkvnode t ≡ none
      → length (K.elements (K.insert n t).1) ≡ length (K.elements t) + 1
  pub length-remove :
      (j : Vnode) (n : TrkNode) (t : K.Tree)
      → K.find j t ≡ some n
      → length (K.elements (K.remove n.trkvnode t)) + 1 ≡ length (K.elements t)
  pub length-store :
      (j : Vnode) (f : TrkNode → TrkNode) (t : K.Tree)
      → length (K.elements (K.store j f t)) ≡ length (K.elements t)
