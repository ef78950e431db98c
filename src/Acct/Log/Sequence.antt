-- ===== src/Acct/Log/Sequence.antt =====
-- The messages stand in the queue by their numbers, the newest at the head.
use cprogramming.Prelude.{ℕ, ◌+◌, ◌^◌, ◌<◌, arith, Bool, true, false, List, [], ◌∷◌}
use cprogramming.Acct.Types.{MsgType, Msg, Body, Process}
use cprogramming.Acct.Kernel.{Kernel}
use cprogramming.Acct.Track.{State}
use cprogramming.Acct.Log.{update_seq, add_node, log}

-- The numbers fall from the head on, and are all below the bound.
abbrev pub FallsBelow : ℕ → List Msg → Type 0
FallsBelow bound [] = Unit {0}
FallsBelow bound (m ∷ ms) = (m.common.ac_seq < bound) × FallsBelow m.common.ac_seq ms

abbrev pub IsNumbered : (K : Kernel) → State K → Type 0
IsNumbered K s = FallsBelow s.ac_seq s.acct_list

pub FallsBelow-weaken : (a b : ℕ) (ms : List Msg) → a < b + 1 → FallsBelow a ms → FallsBelow b ms
FallsBelow-weaken a b [] h f = tt
FallsBelow-weaken a b (m ∷ ms) h f = (omega arith, f.1)

module _ (K : Kernel) where
  pub log-IsNumbered :
      (got : Bool) (s : State K) (ac_type : MsgType) (pr : Process) (body : Body)
      → s.ac_seq + 1 < 2 ^ 32
      → IsNumbered K s
      → IsNumbered K (log K got s ac_type pr body)
  unfolding log add_node update_seq
  log-IsNumbered false s ac_type pr body room f =
      FallsBelow-weaken s.ac_seq _ s.acct_list (omega arith) f
  log-IsNumbered true s ac_type pr body room f = (omega arith, f)
