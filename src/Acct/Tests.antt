-- ===== src/Acct/Tests.antt =====
-- Runs of the driver on the sample kernel, and the theorems at inputs that meet their hypotheses.
use cprogramming.Prelude.{
  ℕ, ◌%◌, ◌≤◌, ◌≡◌, ◌≢◌, refl, inl, arith, true, false, none, some, List, [], ◌∷◌, bit_and, bit_or,
  if◌then◌else◌,
}
use cprogramming.Acct.Types.{
  Bytes, Vnode, TrkNode, Process, Ctl, Msg, MsgType, open_file, exec_body,
}
use cprogramming.Acct.Kernel.{same, trkvnode_compare}
use cprogramming.Acct.Sample.{Nodes, sample, sample_laws, zero_time}
use cprogramming.Acct.Track.{
  State, path_to_vnode, trk_path_copy, trktree_vnodelookup, trktree_delete_vnodes,
  trktree_parsepermissions, trktree_vnoderemove,
}
use cprogramming.Acct.Track.Counting.{IsCounted}
use cprogramming.Acct.Track.Laws.{trktree_delete_vnodes_all}
use cprogramming.Acct.Log.{log, add_node, update_seq, acct_void}
use cprogramming.Acct.Log.Sequence.{IsNumbered}
use cprogramming.Acct.Hooks.{
  acct_exec, log_and_drop, acct_open, acct_rename, acct_unlink, acct_close,
}
use cprogramming.Acct.Hooks.Audit.{rename_unlink_drop}
use cprogramming.Acct.Hooks.Trace.{
  Event, execed, opened, renamed, closed, run_hook, run_hooks, run_hooks_invariants,
}
use cprogramming.Acct.Ioctl.{disable, track_file, untrack_file, fstatus, acctioctl, f_ena}
use cprogramming.Acct.Ioctl.Tracking.{
  ena_of, cond_of, track_fstatus, untrack_file_lem, acctioctl-IsCounted,
}
use cprogramming.Acct.Ioctl.Disabling.{disable_lem}
use cprogramming.Acct.Read.{Uio, returned, acctread, acctclose}
use cprogramming.Acct.Read.Fifo.{acctread_oldest, moved_once, acctclose_lem}

abbrev shell : Process
shell = record {
  ps_comm = 115 ∷ 104 ∷ [];
  ps_start = zero_time;
  ps_pid = 7;
  cr_ruid = 1000;
  cr_rgid = 1000;
  controlt = true;
  ttyp = some 5;
  ps_acflag = 0;
}

-- The path that stands for vnode 4, and a file tracked for opens and renames there.
abbrev path4 : Bytes
path4 = 4 ∷ 47 ∷ []

abbrev node4 : TrkNode
node4 = record { trk_name = path4; trk_ena = 40; trk_flags = 3; trkvnode = 4 }

abbrev one_node : Nodes
one_node = (node4 ∷ [], refl)

abbrev control : Ctl
control = record { acct_ena = 127; acct_cond = 0; acct_fcount = 1; acct_path = [] }

-- Everything is enabled, one file is tracked, and nothing is queued.
abbrev watching : State sample
watching = record {
  ctl = control;
  acct_list = [];
  ac_seq = 10;
  f_tracker = one_node;
  readers = 0;
  wakeups = 0;
}

abbrev request : Ctl
request = record { acct_ena = 24; acct_cond = 4; acct_fcount = 0; acct_path = path4 }

abbrev script : List Event
script =
    execed true shell
    ∷ opened true shell 4 1 0
    ∷ opened false shell 4 1 0
    ∷ opened true shell 9 1 0
    ∷ renamed true shell 4 path4 0
    ∷ closed true shell 4
    ∷ []

message : MsgType → ℕ → Msg
message t seq = record {
  common = record (acct_void sample t 1112 shell) { ac_seq = seq };
  body = exec_body;
}

abbrev busy : State sample
busy = record watching { acct_list = message open_file 9 ∷ message open_file 8 ∷ [] }

abbrev asked : Uio
asked = record { offset_negative = false; uio_resid = 2000; moved = [] }

run_hooks_invariants_example :
    IsNumbered sample (run_hooks sample watching script)
    × IsCounted sample (run_hooks sample watching script)
    × ((run_hooks sample watching script).ac_seq ≤ 16)
run_hooks_invariants_example =
    run_hooks_invariants sample sample_laws watching script (omega arith) tt (omega arith)

-- Two of the messages of the script are logged with memory, one without; the tracking ends.
numbers_used : (run_hooks sample watching script).ac_seq ≡ 14
unfolding run_hooks run_hook acct_exec acct_open acct_rename acct_close log_and_drop log add_node
    update_seq trktree_vnodelookup trktree_parsepermissions trktree_vnoderemove same
    trkvnode_compare
numbers_used = refl

rename_unlink_drop_example :
    (trktree_vnodelookup sample (acct_rename sample true watching shell 4 path4 0) 4
      ≡ (if same 4 4 then none else trktree_vnodelookup sample watching 4))
    × (trktree_vnodelookup sample (acct_unlink sample true watching shell 4 0) 4
        ≡ (if same 4 4 then none else trktree_vnodelookup sample watching 4))
unfolding trktree_vnodelookup same trkvnode_compare
rename_unlink_drop_example =
    rename_unlink_drop sample sample_laws watching shell 4 4 path4 0 node4 refl

track_fstatus_example :
    let (errno, c', s') = acctioctl sample track_file request watching in
    let (errno', d', s'') = acctioctl sample fstatus request s' in
    (errno ≡ 0)
    × (c'.acct_ena ≡ bit_or (ena_of sample watching 4) (bit_and 24 f_ena) % 256)
    × (c'.acct_cond ≡ bit_or (cond_of sample watching 4) 4 % 256)
    × (errno' ≡ 0)
    × (d'.acct_ena ≡ c'.acct_ena)
    × (d'.acct_cond ≡ c'.acct_cond)
    × (s'' ≡ s')
unfolding path_to_vnode trk_path_copy
track_fstatus_example = track_fstatus sample sample_laws watching request request 4 refl refl

untrack_file_lem_example :
    let (errno, c', s') = acctioctl sample untrack_file request watching in
    (errno ≡ 0)
    × (trktree_vnodelookup sample s' 5
        ≡ (if same 5 4 then none else trktree_vnodelookup sample watching 5))
    × (c'.acct_ena ≡ 127)
    × (c'.acct_cond ≡ 0)
unfolding path_to_vnode trk_path_copy
untrack_file_lem_example = untrack_file_lem sample sample_laws watching request 4 5 refl

acctioctl-IsCounted_example : IsCounted sample (acctioctl sample track_file request watching).2
acctioctl-IsCounted_example =
    acctioctl-IsCounted sample sample_laws track_file watching request (λ e. ground arith)
      (omega arith) (omega arith)

disable_lem_example :
    let (errno, c', s') = acctioctl sample disable request watching in
    (errno ≡ 0)
    × (request.acct_ena ≢ 0 → s'.ctl.acct_ena ≡ 0)
    × (request.acct_ena ≡ 0 → s'.ctl.acct_ena ≡ watching.ctl.acct_ena % 2)
    × ((k : Vnode) → trktree_vnodelookup sample s' k ≡ none)
    × (s'.ctl.acct_fcount ≡ 1)
    × (c'.acct_fcount ≡ 1)
disable_lem_example = disable_lem sample sample_laws watching request

acctread_oldest_example :
    acctread sample (λ n. 0) [] busy asked
    ≡ returned 0 (record busy { acct_list = message open_file 9 ∷ [] }) (moved_once asked 1112)
unfolding message acct_void
acctread_oldest_example =
    acctread_oldest sample (λ n. 0) [] busy asked (message open_file 9 ∷ []) (message open_file 8)
      (λ n. refl) (inl (omega arith)) refl refl

acctclose_lem_example :
    ((acctclose sample busy).0 ≡ 0)
    × ((acctclose sample busy).1 ≡ record busy { acct_list = []; ac_seq = 0 })
    × IsNumbered sample (acctclose sample busy).1
acctclose_lem_example = acctclose_lem sample busy

trktree_delete_vnodes_all_example :
    ((k : Vnode) → sample.find k (trktree_delete_vnodes sample one_node).1 ≡ none)
    × ((trktree_delete_vnodes sample one_node).0 ≡ 1)
trktree_delete_vnodes_all_example = trktree_delete_vnodes_all sample sample_laws one_node
