-- ===== src/Battle/Nodes/Runs.antt =====
-- queue.c over list.c: the queue by linked nodes hands out what a sequence of texts does.
use cprogramming.Prelude.{◌≡◌, ◌≢◌, refl, ◌∙◌, ap, Option, none, some, List, [], ◌∷◌, ◌++◌}
use cprogramming.Battle.Text.{Thing, thing_clean, Queue, queue_enqueue, queue_dequeue}
use cprogramming.Battle.Nodes.{Ptr, Heap, Ends, list_new, list_append, list_top}
use cprogramming.Battle.Nodes.Linked.{Cells, IsList}
use cprogramming.Battle.Nodes.Step.{
  Appended, list_append-Appended, Topped, list_top-nil, list_top-cons,
}

-- A call of queue_enqueue, with the address that `malloc` gives, or of queue_dequeue
pub data Op : Type 0 where
  enqueue : Ptr → Thing → Op
  dequeue : Op

abbrev Handed : Type 0
Handed = Option (List (Option Thing))

abbrev with_out : Option Thing → Handed → Handed
with_out t none = none
with_out t (some ts) = some (t ∷ ts)

abbrev after_append {ℓ} : {R : Type ℓ} → R → Option (Ends × Heap) → (Ends → Heap → R) → R
after_append wrong none k = wrong
after_append wrong (some (l, h)) k = k l h

abbrev after_top : Option (Option Thing × Ends × Heap) → (Ends → Heap → Handed) → Handed
after_top none k = none
after_top (some (t, l, h)) k = with_out t (k l h)

abbrev AfterTop : Option (Option Thing × Ends × Heap) → (Ends → Heap → Type 0) → Type 0
AfterTop none k = Unit {0}
AfterTop (some (t, l, h)) k = k l h

-- What the calls of queue_dequeue hand out, or none where a call reads or writes through NULL or at an
-- address without a node
abbrev pub run : List Op → Ends → Heap → Option (List (Option Thing))
run [] l h = some []
run (enqueue n t ∷ ops) l h = after_append none (list_append n t l h) (run ops)
run (dequeue ∷ ops) l h = after_top (list_top l h) (run ops)

-- `malloc` gives no NULL, and no address that is in use; one that was freed may come again.
abbrev pub AllFresh : List Op → Ends → Heap → Type 0
AllFresh [] l h = Unit {0}
AllFresh (enqueue n t ∷ ops) l h =
    (n ≢ 0) × (h n ≡ none) × after_append (Unit {0}) (list_append n t l h) (AllFresh ops)
AllFresh (dequeue ∷ ops) l h = AfterTop (list_top l h) (AllFresh ops)

-- The same calls on a sequence of texts
abbrev pub run_queue : List Op → Queue → List (Option Thing)
run_queue [] q = []
run_queue (enqueue n t ∷ ops) q = run_queue ops (queue_enqueue q t)
run_queue (dequeue ∷ ops) q = (queue_dequeue q).0 ∷ run_queue ops (queue_dequeue q).1

abbrev texts : Cells → Queue
texts [] = []
texts ((a, t) ∷ xs) = t ∷ texts xs

texts-append : (xs : Cells) (n : Ptr) (t : Thing) → texts (xs ++ (n, t) ∷ []) ≡ texts xs ++ t ∷ []
texts-append [] n t = refl
texts-append ((a, u) ∷ xs) n t = ap (λ l. u ∷ l) (texts-append xs n t)

-- The calls that are still to come, `ops`, hand out what they do on the texts.
abbrev Follows : List Op → Type 0
Follows ops =
    (l : Ends) (h : Heap) (xs : Cells)
    → IsList h l xs
    → AllFresh ops l h
    → run ops l h ≡ some (run_queue ops (texts xs))

append-Follows :
    (ops : List Op) (xs : Cells) (o : Option (Ends × Heap))
    → Follows ops
    → Appended xs o
    → after_append (Unit {0}) o (AllFresh ops)
    → after_append none o (run ops) ≡ some (run_queue ops (texts xs))
append-Follows ops xs none next is fresh = absurd is
append-Follows ops xs (some (l, h)) next is fresh = next l h xs is fresh

top-Follows :
    (ops : List Op) (t : Option Thing) (xs : Cells) (o : Option (Option Thing × Ends × Heap))
    → Follows ops
    → Topped t xs o
    → AfterTop o (AllFresh ops)
    → after_top o (run ops) ≡ some (t ∷ run_queue ops (texts xs))
top-Follows ops t xs none next is fresh = absurd is
top-Follows ops t xs (some (u, l, h)) next is fresh =
    ap (with_out u) (next l h xs is.1 fresh) ∙ ap (λ u. some (u ∷ run_queue ops (texts xs))) is.0

run-Follows : (ops : List Op) → Follows ops
unfolding queue_enqueue queue_dequeue
run-Follows [] l h xs is fresh = refl
run-Follows (enqueue n t ∷ ops) l h xs is fresh =
    append-Follows ops (xs ++ (n, thing_clean t) ∷ []) (list_append n t l h) (run-Follows ops)
      (list_append-Appended h n t xs l fresh.0 fresh.1 is) fresh.2
    ∙ ap (λ q. some (run_queue ops q)) (texts-append xs n (thing_clean t))
run-Follows (dequeue ∷ ops) l h [] is fresh =
    top-Follows ops none [] (list_top l h) (run-Follows ops) (list_top-nil h l is) fresh
run-Follows (dequeue ∷ ops) l h ((a, t) ∷ xs) is fresh =
    top-Follows ops (some (thing_clean t)) xs (list_top l h) (run-Follows ops)
      (list_top-cons h l a t xs is) fresh

-- Any calls of queue_enqueue and queue_dequeue on a new list of linked nodes, where `malloc` gives no
-- NULL and no address in use, read and write only nodes that are there, and hand out what the same
-- calls do on a sequence of texts: the texts in the order in which they were put in, each cleaned, and
-- NULL where there is none.
pub run-run_queue :
    (ops : List Op) (h : Heap)
    → AllFresh ops list_new h
    → run ops list_new h ≡ some (run_queue ops [])
run-run_queue ops h fresh =
    run-Follows ops list_new h []
      (record { linked = tt; at_head = refl; at_tail = refl; counted = refl }) fresh
