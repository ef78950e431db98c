-- ===== src/Acct/Sample.antt =====
-- A kernel that meets the laws: the tree is a list of nodes with keys of their own. The tests run on
-- it.
use cprogramming.Prelude.{
  ◌+◌, ◌≡◌, refl, arith, Bool, true, false, not, sym, ap, ◌⊎◌, ◌&&◌, Option, none, some, List, [],
  ◌∷◌, if◌then◌else◌, length, inl, inr, Bool-cases, ◌-◌,
}
use cprogramming.Acct.Types.{Vnode, TrkNode, Timespec, Bytes}
use cprogramming.Acct.Kernel.{same, same-mod, has_key, TreeLaws, Kernel}

abbrev pub distinct : List TrkNode → Bool
distinct [] = true
distinct (n ∷ ns) = not (has_key n.trkvnode ns) && distinct ns

abbrev pub Nodes : Type 0
Nodes = (l : List TrkNode) × (distinct l ≡ true)

abbrev pub find_in : Vnode → List TrkNode → Option TrkNode
find_in k [] = none
find_in k (n ∷ ns) = if same k n.trkvnode then some n else find_in k ns

abbrev pub remove_in : Vnode → List TrkNode → List TrkNode
remove_in k [] = []
remove_in k (n ∷ ns) = if same k n.trkvnode then ns else n ∷ remove_in k ns

-- The key of a node is its vnode, so a store leaves it alone.
abbrev pub store_in : Vnode → (TrkNode → TrkNode) → List TrkNode → List TrkNode
store_in k f [] = []
store_in k f (n ∷ ns) =
    (if same k n.trkvnode then record (f n) { trkvnode = n.trkvnode } else n) ∷ store_in k f ns

find-has_key : (k : Vnode) (l : List TrkNode) → has_key k l ≡ false → find_in k l ≡ none
find-has_key k [] h = refl
find-has_key k (n ∷ ns) h = ground (arith, find-has_key k ns)

has_key-find :
    (k : Vnode) (n : TrkNode) (l : List TrkNode) → find_in k l ≡ some n → has_key k l ≡ true
has_key-find k n [] h = cc
has_key-find k n (m ∷ ns) h = ground (arith, has_key-find k n ns)

has_key-same : (j k : Vnode) (l : List TrkNode) → same j k ≡ true → has_key j l ≡ has_key k l
has_key-same j k [] h = refl
has_key-same j k (n ∷ ns) h =
    ground
      (arith, has_key-same j k ns h, same-mod j k, same-mod j n.trkvnode, same-mod k n.trkvnode)

find-key_in :
    (k : Vnode) (n : TrkNode) (l : List TrkNode) → find_in k l ≡ some n → same k n.trkvnode ≡ true
find-key_in k n [] h = cc
find-key_in k n (m ∷ ns) h = ground (arith, find-key_in k n ns)

find-same_in : (k j : Vnode) (l : List TrkNode) → same k j ≡ true → find_in k l ≡ find_in j l
find-same_in k j [] h = refl
find-same_in k j (n ∷ ns) h =
    ground
      (arith, find-same_in k j ns h, same-mod k j, same-mod j n.trkvnode, same-mod k n.trkvnode)

find-remove_in :
    (k j : Vnode) (l : List TrkNode)
    → distinct l ≡ true
    → find_in k (remove_in j l) ≡ (if same k j then none else find_in k l)
find-remove_in k j [] d = ground arith
find-remove_in k j (n ∷ ns) d = ground (
  arith,
  find-remove_in k j ns,
  find-has_key k ns,
  has_key-same k n.trkvnode ns,
  same-mod k j,
  same-mod j n.trkvnode,
  same-mod k n.trkvnode,
)

has_key-remove_in :
    (k j : Vnode) (l : List TrkNode) → has_key k l ≡ false → has_key k (remove_in j l) ≡ false
has_key-remove_in k j [] h = refl
has_key-remove_in k j (n ∷ ns) h = ground (arith, has_key-remove_in k j ns)

pub distinct-remove_in :
    (j : Vnode) (l : List TrkNode) → distinct l ≡ true → distinct (remove_in j l) ≡ true
distinct-remove_in j [] d = refl
distinct-remove_in j (n ∷ ns) d =
    ground (arith, distinct-remove_in j ns, has_key-remove_in n.trkvnode j ns)

length-remove_in :
    (j : Vnode) (l : List TrkNode) → has_key j l ≡ true → length (remove_in j l) + 1 ≡ length l
length-remove_in j [] h = cc
length-remove_in j (n ∷ ns) h = ground (arith, length-remove_in j ns)

has_key-store_in :
    (k j : Vnode) (f : TrkNode → TrkNode) (l : List TrkNode)
    → has_key k (store_in j f l) ≡ has_key k l
has_key-store_in k j f [] = refl
has_key-store_in k j f (n ∷ ns) = ground (arith, has_key-store_in k j f ns)

pub distinct-store_in :
    (j : Vnode) (f : TrkNode → TrkNode) (l : List TrkNode)
    → distinct l ≡ true
    → distinct (store_in j f l) ≡ true
distinct-store_in j f [] d = refl
distinct-store_in j f (n ∷ ns) d =
    ground (arith, distinct-store_in j f ns, has_key-store_in n.trkvnode j f ns)

length-store_in :
    (j : Vnode) (f : TrkNode → TrkNode) (l : List TrkNode) → length (store_in j f l) ≡ length l
length-store_in j f [] = refl
length-store_in j f (n ∷ ns) = ground (arith, length-store_in j f ns)

-- A store under another key is not seen.
find-unset :
    (k j : Vnode) (f : TrkNode → TrkNode) (l : List TrkNode)
    → same k j ≡ false
    → find_in k (store_in j f l) ≡ find_in k l
find-unset k j f [] h = refl
find-unset k j f (m ∷ ns) h =
    ground
      (arith, find-unset k j f ns h, same-mod k j, same-mod j m.trkvnode, same-mod k m.trkvnode)

rekey :
    (f : TrkNode → TrkNode) (m : TrkNode)
    → (f m).trkvnode ≡ m.trkvnode
    → record (f m) { trkvnode = m.trkvnode } ≡ f m
rekey f m e = ap (λ v. record (f m) { trkvnode = v }) (sym e)

find-store_in :
    (k j : Vnode) (f : TrkNode → TrkNode) (n : TrkNode) (l : List TrkNode)
    → ((m : TrkNode) → (f m).trkvnode ≡ m.trkvnode)
    → find_in j l ≡ some n
    → find_in k (store_in j f l) ≡ (if same k j then some (f n) else find_in k l)
find-store_in k j f n [] keep h = cc
find-store_in k j f n (m ∷ ns) keep h = ground (
  arith,
  find-store_in k j f n ns keep,
  rekey f m (keep m),
  keep m,
  same-mod k j,
  same-mod j m.trkvnode,
  same-mod k m.trkvnode,
  find-unset k j f ns,
)

pub distinct-cons :
    (n : TrkNode) (l : List TrkNode)
    → distinct l ≡ true
    → has_key n.trkvnode l ≡ false
    → distinct (n ∷ l) ≡ true
distinct-cons n l d fresh = ground arith

abbrev pub insert_in :
    (n : TrkNode) (l : List TrkNode)
    → distinct l ≡ true
    → (has_key n.trkvnode l ≡ true) ⊎ (has_key n.trkvnode l ≡ false)
    → Option TrkNode × Nodes
insert_in n l d (inl taken) = (find_in n.trkvnode l, (l, d))
insert_in n l d (inr fresh) = (none, (n ∷ l, distinct-cons n l d fresh))

abbrev pub zero_time : Timespec
zero_time = record { sec = 0; nsec = 0 }

-- A path resolves to the number that it begins with.
abbrev pub head_of : Bytes → Option Vnode
head_of [] = none
head_of (b ∷ bs) = some b

abbrev pub sample : Kernel
sample = record {
  Tree = Nodes;
  init = ([], refl);
  find = λ k t. find_in k t.0;
  insert = λ n t. insert_in n t.0 t.1 (Bool-cases (has_key n.trkvnode t.0));
  remove = λ k t. (remove_in k t.0, distinct-remove_in k t.0 t.1);
  store = λ k f t. (store_in k f t.0, distinct-store_in k f t.0 t.1);
  elements = λ t. t.0;
  namei = head_of;
  nanouptime = zero_time;
  nanoboottime = zero_time;
  timespecadd = λ a b. record { sec = a.sec + b.sec; nsec = a.nsec + b.nsec };
  timespecsub = λ a b. record { sec = a.sec - b.sec; nsec = a.nsec - b.nsec };
  hz = 100;
  tick = 10000;
}

no_key : (k : Vnode) (l : List TrkNode) → find_in k l ≡ none → has_key k l ≡ false
no_key k [] h = refl
no_key k (n ∷ ns) h = ground (arith, no_key k ns)

insert-found_in :
    (n old : TrkNode) (t : Nodes)
    (c : (has_key n.trkvnode t.0 ≡ true) ⊎ (has_key n.trkvnode t.0 ≡ false))
    → find_in n.trkvnode t.0 ≡ some old
    → insert_in n t.0 t.1 c ≡ (some old, t)
insert-found_in n old t (inl taken) e = ap (λ (o : Option TrkNode). (o, t)) e
insert-found_in n old t (inr fresh) e = absurd (ground (arith, has_key-find n.trkvnode old t.0 e))

-- The three laws of an insertion under a free key.
fresh_in :
    (n : TrkNode) (t : Nodes)
    (c : (has_key n.trkvnode t.0 ≡ true) ⊎ (has_key n.trkvnode t.0 ≡ false))
    → find_in n.trkvnode t.0 ≡ none
    → let (old, t') = insert_in n t.0 t.1 c in
      (old ≡ none)
      × ((k : Vnode) → find_in k t'.0 ≡ (if same k n.trkvnode then some n else find_in k t.0))
      × (length t'.0 ≡ length t.0 + 1)
fresh_in n t (inl taken) e = absurd (ground (arith, no_key n.trkvnode t.0 e))
fresh_in n t (inr free) e = (refl, λ k. refl, omega arith)

found :
    (n : TrkNode) (t : Nodes) (j : Vnode) → find_in j t.0 ≡ some n → has_key n.trkvnode t.0 ≡ true
found n t j e =
    ground (arith, has_key-find j n t.0 e, find-key_in j n t.0 e, has_key-same j n.trkvnode t.0)

pub sample_laws : TreeLaws sample
sample_laws = record {
  find-init = λ k. refl;
  find-same = λ k j t h. find-same_in k j t.0 h;
  find-key = λ k n t e. find-key_in k n t.0 e;
  insert-found = λ n old t e. insert-found_in n old t _ e;
  insert-fresh = λ n t e. (fresh_in n t _ e).0;
  find-insert = λ k n t e. (fresh_in n t _ e).1 k;
  find-remove = λ k j t. find-remove_in k j t.0 t.1;
  find-store = λ k j f n t keep e. find-store_in k j f n t.0 keep e;
  elements-complete = λ k n t e. has_key-find k n t.0 e;
  length-insert = λ n t e. (fresh_in n t _ e).2;
  length-remove = λ j n t e. length-remove_in n.trkvnode t.0 (found n t j e);
  length-store = λ j f t. length-store_in j f t.0;
}
