-- ===== src/Battle/Nodes/Tests.antt =====
-- A queue of three texts, of which the third takes the address of the first.
use cprogramming.Prelude.{◌≡◌, refl, arith, Option, none, some, List, [], ◌∷◌}
use cprogramming.Battle.Text.{
  Thing, thing_clean, copy_spaced, trim_end, trim_start, queue_enqueue, queue_dequeue,
}
use cprogramming.Battle.Nodes.{
  Heap, write, list_new, node_make, load, node_set_next, node_set_prev, link_last, list_append,
  unlink_first, list_top,
}
use cprogramming.Battle.Nodes.Runs.{Op, enqueue, dequeue, run, run_queue, AllFresh, run-run_queue}

abbrev ops : List Op
ops =
    enqueue 7 (b'a' ∷ [])
    ∷ enqueue 3 (b' ' ∷ b'b' ∷ [])
    ∷ dequeue
    ∷ enqueue 7 (b'c' ∷ [])
    ∷ dequeue
    ∷ dequeue
    ∷ dequeue
    ∷ []

abbrev nothing : Heap
nothing p = none

abbrev handed_out : List (Option Thing)
handed_out = some (b'a' ∷ []) ∷ some (b'b' ∷ []) ∷ some (b'c' ∷ []) ∷ none ∷ []

ops_fresh : AllFresh ops list_new nothing
unfolding list_append link_last list_top unlink_first node_set_next node_set_prev load node_make
    write
ops_fresh = (omega arith, refl, (omega arith, refl, (omega arith, refl, tt)))

ops_queue : run_queue ops [] ≡ handed_out
unfolding queue_enqueue queue_dequeue thing_clean copy_spaced trim_end trim_start
ops_queue = refl

run-run_queue_example : run ops list_new nothing ≡ some (run_queue ops [])
run-run_queue_example = run-run_queue ops nothing ops_fresh
