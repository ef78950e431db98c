-- ===== src/Acct/Hooks/Trace.antt =====
-- What holds after any sequence of hook calls.
use cprogramming.Prelude.{
  ℕ, ◌+◌, ◌^◌, ◌≤◌, ◌<◌, inl, inr, arith, Bool, true, false, List, [], ◌∷◌, if◌then◌else◌, length,
  Option-cases,
}
use cprogramming.Acct.Types.{Vnode, Bytes, TrkNode, MsgType, Body, Process, Usage}
use cprogramming.Acct.Kernel.{Kernel, TreeLaws}
use cprogramming.Acct.Track.{State, trktree_vnodelookup, trktree_vnoderemove}
use cprogramming.Acct.Track.Counting.{IsCounted, vnoderemove-IsCounted}
use cprogramming.Acct.Log.{update_seq, add_node, log}
use cprogramming.Acct.Log.Sequence.{IsNumbered, log-IsNumbered}
use cprogramming.Acct.Hooks.{
  acct_fork, acct_exec, acct_exit, acct_open, acct_rename, acct_unlink, acct_close, log_and_drop,
}

-- A call of a hook; `got` is whether its `malloc` succeeds.
pub data Event : Type 0 where
  forked : (got : Bool) → (pr pptr : Process) → Event
  execed : (got : Bool) → Process → Event
  exited : (got : Bool) → Process → Usage → Event
  opened : (got : Bool) → Process → Vnode → (i0 i1 : ℕ) → Event
  renamed : (got : Bool) → Process → Vnode → Bytes → ℕ → Event
  unlinked : (got : Bool) → Process → Vnode → ℕ → Event
  closed : (got : Bool) → Process → Vnode → Event

module _ (K : Kernel) where
  unfoldable pub run_hook : State K → Event → State K
  run_hook s (forked got pr pptr) = acct_fork K got s pr pptr
  run_hook s (execed got pr) = acct_exec K got s pr
  run_hook s (exited got pr r) = acct_exit K got s pr r
  run_hook s (opened got pr v i0 i1) = acct_open K got s pr v i0 i1
  run_hook s (renamed got pr v name e0) = acct_rename K got s pr v name e0
  run_hook s (unlinked got pr v e0) = acct_unlink K got s pr v e0
  run_hook s (closed got pr v) = acct_close K got s pr v

  unfoldable pub run_hooks : State K → List Event → State K
  run_hooks s [] = s
  run_hooks s (e ∷ es) = run_hooks (run_hook s e) es

  -- What every hook keeps, and how far it moves the numbers.
  record Kept (s s' : State K) : Type 0 where
    numbered : IsNumbered K s → IsNumbered K s'
    counted : IsCounted K s → IsCounted K s'
    next : s'.ac_seq ≤ s.ac_seq + 1

  Kept-refl : (s : State K) → Kept s s
  Kept-refl s = record { numbered = λ h. h; counted = λ h. h; next = omega arith }

  module _ (L : TreeLaws K) where
    Kept-log :
        (got : Bool) (s : State K) (t : MsgType) (pr : Process) (body : Body)
        → s.ac_seq + 1 < 2 ^ 32
        → Kept s (log K got s t pr body)
    unfolding log add_node update_seq
    Kept-log true s t pr body room = record {
      numbered = log-IsNumbered K true s t pr body room;
      counted = λ c. c;
      next = omega arith;
    }
    Kept-log false s t pr body room = record {
      numbered = log-IsNumbered K false s t pr body room;
      counted = λ c. c;
      next = omega arith;
    }

    Kept-remove : (s s' : State K) (v : Vnode) → Kept s s' → Kept s (trktree_vnoderemove K s' v).1
    unfolding trktree_vnoderemove
    Kept-remove s s' v k = record {
      numbered = λ h. elim (Option-cases (K.find v s'.f_tracker)) [
        | inl e ↦ rw (e, trktree_vnoderemove) (k.numbered h)
        | inr (n, e) ↦ rw (e, trktree_vnoderemove) (k.numbered h)
      ];
      counted = λ c. vnoderemove-IsCounted K L s' v (k.counted c);
      next = next_of;
    }
      where
        next_of : (trktree_vnoderemove K s' v).1.ac_seq ≤ s.ac_seq + 1
        next_of = elim (Option-cases (K.find v s'.f_tracker)) [
          | inl e ↦ rw (e, trktree_vnoderemove) k.next
          | inr (n, e) ↦ rw (e, trktree_vnoderemove) k.next
        ]

    Kept-if : (b : Bool) (s x y : State K) → Kept s x → Kept s y → Kept s (if b then x else y)
    Kept-if true s x y kx ky = kx
    Kept-if false s x y kx ky = ky

    Kept-log_and_drop :
        (got : Bool) (s : State K) (ena : ℕ) (n : TrkNode) (t : MsgType) (pr : Process)
        (body : Body)
        → s.ac_seq + 1 < 2 ^ 32
        → Kept s (log_and_drop K got s ena n t pr body)
    unfolding log_and_drop
    Kept-log_and_drop got s ena n t pr body room =
        Kept-if _ s _ _
          (Kept-if got s _ _ (Kept-remove s _ _ (Kept-log true s t pr body room))
            (Kept-log false s t pr body room))
          (Kept-remove s s _ (Kept-refl s))

    Kept-run_hook : (s : State K) (e : Event) → s.ac_seq + 1 < 2 ^ 32 → Kept s (run_hook s e)
    unfolding run_hook acct_fork acct_exec acct_exit acct_open acct_rename acct_unlink acct_close
    Kept-run_hook s (forked got pr pptr) room =
        Kept-if _ s _ _ (Kept-log got s _ _ _ room) (Kept-refl s)
    Kept-run_hook s (execed got pr) room = Kept-if _ s _ _ (Kept-log got s _ _ _ room) (Kept-refl s)
    Kept-run_hook s (exited got pr r) room =
        Kept-if _ s _ _ (Kept-log got s _ _ _ room) (Kept-refl s)
    Kept-run_hook s (opened got pr v i0 i1) room = elim (Option-cases (trktree_vnodelookup K s v)) [
      | inl e ↦ rw (e, acct_open) (Kept-refl s)
      | inr (n, e) ↦ rw (e, acct_open) (Kept-if _ s _ _ (Kept-log got s _ _ _ room) (Kept-refl s))
    ]
    Kept-run_hook s (renamed got pr v name e0) room =
        elim (Option-cases (trktree_vnodelookup K s v)) [
          | inl e ↦ rw (e, acct_rename) (Kept-refl s)
          | inr (n, e) ↦ rw (e, acct_rename) (Kept-log_and_drop got s _ n _ pr _ room)
        ]
    Kept-run_hook s (unlinked got pr v e0) room = elim (Option-cases (trktree_vnodelookup K s v)) [
      | inl e ↦ rw (e, acct_unlink) (Kept-refl s)
      | inr (n, e) ↦ rw (e, acct_unlink) (Kept-log_and_drop got s _ n _ pr _ room)
    ]
    Kept-run_hook s (closed got pr v) room = elim (Option-cases (trktree_vnodelookup K s v)) [
      | inl e ↦ rw (e, acct_close) (Kept-refl s)
      | inr (n, e) ↦ rw (e, acct_close) (Kept-if _ s _ _ (Kept-log got s _ _ _ room) (Kept-refl s))
    ]

    -- While the numbers last, any sequence of hook calls, with or without memory, keeps the queue in
    -- the order of its numbers, keeps `acct_fcount` the number of tracked files, and uses at most
    -- one number for each call.
    pub run_hooks_invariants :
        (s : State K) (es : List Event)
        → s.ac_seq + length es < 2 ^ 32
        → IsNumbered K s
        → IsCounted K s
        → IsNumbered K (run_hooks s es)
          × IsCounted K (run_hooks s es)
          × ((run_hooks s es).ac_seq ≤ s.ac_seq + length es)
    unfolding run_hooks
    run_hooks_invariants s [] room h c = (h, c, omega arith)
    run_hooks_invariants s (e ∷ es) room h c =
        let k = Kept-run_hook s e (omega arith) in
        let rest =
          run_hooks_invariants (run_hook s e) es (omega (arith, k.next)) (k.numbered h)
            (k.counted c) in
        (rest.0, rest.1, omega (arith, k.next, rest.2))
