-- ===== src/Battle/Nodes.antt =====
-- node.c, list.c and queue.c: the linked list by which a queue is kept, as nodes at addresses. A heap
-- gives what stands at an address; where a function reads or writes through NULL, or at an address that
-- holds no node, the result is none. The struct `_list` is passed on by its fields.
pub mod Linked
pub mod Step
pub mod Runs
mod Tests
use cprogramming.Prelude.{ℕ, ◌+◌, ◌-◌, Option, none, some, ◌==◌, if◌then◌else◌}
use cprogramming.Battle.Text.{Thing, thing_clean}

abbrev pub Ptr : Type 0
Ptr = ℕ

-- `struct _node`
pub record Node : Type 0 where
  pub thing : Thing
  pub prev : Ptr
  pub next : Ptr

abbrev pub Heap : Type 0
Heap = Ptr → Option Node

unfoldable pub write : Heap → Ptr → Option Node → Heap
write h p c a = if a == p then c else h a

-- `struct _list`
pub record Ends : Type 0 where
  pub head : Ptr
  pub tail : Ptr
  pub size : ℕ

abbrev pub list_new : Ends
list_new = record { head = 0; tail = 0; size = 0 }

-- node_make, at the address that `malloc` has given
unfoldable pub node_make : Ptr → Thing → Heap → Heap
node_make n t h = write h n (some (record { thing = thing_clean t; prev = 0; next = 0 }))

-- The node at an address
unfoldable pub load : Ptr → Heap → Option Node
load p h = if p == 0 then none else h p

unfoldable pub node_set_next : Ptr → Ptr → Heap → Option Heap
node_set_next n m h = elim (load n h) [
  | none ↦ none
  | some x ↦ some (write h n (some (record x { next = m })))
]

unfoldable pub node_set_prev : Ptr → Ptr → Heap → Option Heap
node_set_prev n m h = elim (load n h) [
  | none ↦ none
  | some x ↦ some (write h n (some (record x { prev = m })))
]

abbrev then_on {ℓ} : {A B : Type ℓ} → Option A → (A → Option B) → Option B
then_on none k = none
then_on (some a) k = k a

-- The links of list_append, where the list is not empty
unfoldable pub link_last : Ptr → Ends → Heap → Option (Ends × Heap)
link_last n l h = then_on (node_set_next l.tail n h) (λ h1.
    then_on (node_set_prev n l.tail h1) (λ h2. some (record l { tail = n; size = l.size + 1 }, h2)))

unfoldable pub list_append : Ptr → Thing → Ends → Heap → Option (Ends × Heap)
list_append n t l h =
    if l.head == 0
    then some (record { head = n; tail = n; size = l.size + 1 }, node_make n t h)
    else link_last n l (node_make n t h)

-- The links of list_top, `f` being the first node: what stands behind it is the first one now, and `f`
-- is freed.
unfoldable pub unlink_first : Node → Ends → Heap → Option (Option Thing × Ends × Heap)
unlink_first f l h =
    let t = some (thing_clean f.thing) in
    if f.next == 0
    then some (t, record { head = f.next; tail = 0; size = l.size - 1 }, write h l.head none)
    else then_on (node_set_prev f.next 0 h)
        (λ h1. some (t, record l { head = f.next; size = l.size - 1 }, write h1 l.head none))

-- The text, or NULL
unfoldable pub list_top : Ends → Heap → Option (Option Thing × Ends × Heap)
list_top l h =
    if l.size == 0 then some (none, l, h) else then_on (load l.head h) (λ f. unlink_first f l h)
