-- ===== src/Pfexec/Kernel/Call/Approved.antt =====
-- When the credentials of a process change, and what its caller is told.
use cprogramming.Prelude.{
  ℕ, ◌^◌, ◌<◌, ◌≡◌, refl, ◌∙◌, ap, ◌⊎◌, inl, inr, arith, Bool, true, false, not, Option, none, some,
  List, ◌==◌, ltb, leb, if◌then◌else◌, get_or, Bool-cases, bit_and, ==→≡,
}
use cprogramming.Pfexec.Packet.{Limits, Text, zero_arg, Resp, some_bad_ref, pfresp_chroot, einval}
use cprogramming.Pfexec.Packet.Refs.{Fits, some_bad_ref-Fits}
use cprogramming.Pfexec.Kernel.Request.{Opts, Uap, Proc, validate_args}
use cprogramming.Pfexec.Kernel.Socket.{Exchange, answered, crashed, waiting}
use cprogramming.Pfexec.Kernel.Call.{
  Kern, process_response, pfexec_escilate, check_priv, new_cred, confine, pfexec_exec, World,
  CallResult, returned, asleep, fault, finish, request, call_with, sys_pfexecve,
}

-- A response that is accepted: its groups and its environment fit, and it grants the request.
pub record IsApproval (l : Limits) (r : Resp) : Type 0 where
  pub granted : r.pfr_errno ≡ 0
  pub groups_fit : r.pfr_ngroups < l.ngroups_max
  pub env_fits : r.pfr_envc < 1024
  pub refs_fit : (i : ℕ) → i < r.pfr_envc → Fits l.arg_max (get_or r.pfr_envp i zero_arg)

process_response-IsApproval :
    (l : Limits) (r : Resp) → l.arg_max < 2 ^ 31 → process_response l r ≡ 0 → IsApproval l r
unfolding process_response
process_response-IsApproval l r m h = elim (Bool-cases (leb l.ngroups_max r.pfr_ngroups)) [
  | inl many ↦ absurd (nonzero (rw many at h))
  | inr few ↦ elim (Bool-cases (leb 1024 r.pfr_envc)) [
    | inl long ↦ absurd (nonzero (rw (few, long) at h))
    | inr short ↦ elim (Bool-cases (some_bad_ref l.arg_max r.pfr_envp 0 r.pfr_envc)) [
      | inl bad ↦ absurd (nonzero (rw (few, short, bad) at h))
      | inr good ↦ record {
        granted = rw (few, short, good) at h;
        groups_fit = ground arith;
        env_fits = ground arith;
        refs_fit = λ i lt.
            some_bad_ref-Fits l.arg_max r.pfr_envp r.pfr_envc 0 i m good (omega arith)
              (omega arith);
      }
    ]
  ]
]
  where
    nonzero : einval ≡ 0 → ⊥
    nonzero e = omega arith

-- Running the program under an approval.
abbrev raised : Resp → Proc → Proc
raised r p = record p { ps_ucred = new_cred r p.ps_ucred; ps_sugid = true }

abbrev run_as : Kern → Limits → Text → List Text → Resp → Proc → Proc
run_as k l path argp r p = confine k l r (k.sys_execve (raised r p) path argp (check_priv r).1).1

pfexec_exec-run_as :
    (k : Kern) (l : Limits) (path : Text) (argp : List Text) (r : Resp) (p : Proc)
    → IsApproval l r
    → pfexec_exec k l path argp r p ≡ (0, run_as k l path argp r p)
unfolding pfexec_exec pfexec_escilate check_priv
pfexec_exec-run_as k l path argp r p a =
    rw (a.granted, few l.ngroups_max r.pfr_ngroups a.groups_fit) refl
  where
    few : (n m : ℕ) → m < n → ltb n m ≡ false
    few n m h = ground arith

-- The daemon's answer to the request of this call was an approval, the call returned 0, and the
-- process is what running the program under the approval leaves.
pub record IsGranted (k : Kern) (l : Limits) (w : World) (p : Proc) (u : Uap) (ret : ℕ) (p' : Proc)
    : Type 0 where
  pub opts : Opts
  pub path : Text
  pub argp : List Text
  pub envp : List Text
  pub resp : Resp
  pub given : u ≡ record { opts = some opts; path = some path; argp = some argp; envp = some envp }
  pub answer : w.exchange (request k l p opts path argp envp) ≡ answered 0 (some resp)
  pub approval : IsApproval l resp
  pub ret_is : ret ≡ 0
  pub proc_is : p' ≡ run_as k l path argp resp p

-- How a call may end.
abbrev pub Ends : Kern → Limits → World → Proc → Uap → CallResult → Type 0
Ends k l w p u (returned ret p') = (p' ≡ p) ⊎ IsGranted k l w p u ret p'
Ends k l w p u asleep = Unit {0}
Ends k l w p u fault = Unit {0}

module _ (k : Kern) (l : Limits) (m : l.arg_max < 2 ^ 31) (w : World) (p : Proc) where
  module _ (o : Opts) (path : Text) (argp envp : List Text) where
    abbrev all_given : Uap
    all_given = record { opts = some o; path = some path; argp = some argp; envp = some envp }

    finish-Ends :
        (x : Exchange)
        → w.exchange (request k l p o path argp envp) ≡ x
        → Ends k l w p all_given (finish k l path argp p x)
    unfolding finish
    finish-Ends crashed e = tt
    finish-Ends waiting e = tt
    finish-Ends (answered errno none) e = elim (Bool-cases (errno == 0)) [
      | inl zero_there ↦ rw zero_there tt
      | inr some_error ↦ rw some_error (inl refl)
    ]
    finish-Ends (answered errno (some r)) e = elim (Bool-cases (errno == 0)) [
      | inr some_error ↦ rw some_error (inl refl)
      | inl no_error ↦ elim (Bool-cases (process_response l r == 0)) [
        | inr refused ↦ rw (no_error, refused) (inl refl)
        | inl accepted ↦
            let a = process_response-IsApproval l r m (==→≡ _ _ accepted) in
            rw (no_error, accepted, pfexec_exec-run_as k l path argp r p a)
              (inr (record {
                opts = o;
                path = path;
                argp = argp;
                envp = envp;
                resp = r;
                given = refl;
                answer = e ∙ ap (λ n. answered n (some r)) (==→≡ _ _ no_error);
                approval = a;
                ret_is = refl;
                proc_is = refl;
              }))
      ]
    ]

    if-Ends :
        (b : Bool) (x y : CallResult)
        → Ends k l w p all_given x
        → Ends k l w p all_given y
        → Ends k l w p all_given (if b then x else y)
    if-Ends true x y a b = a
    if-Ends false x y a b = b

    call_with-Ends :
        Ends k l w p all_given (call_with k l w p (some o) (some path) (some argp) (some envp))
    unfolding call_with
    call_with-Ends = if-Ends (not w.taskq) _ _ (inl refl) (
        if-Ends (not w.memory) _ _ (inl refl)
          (if-Ends (not (w.tsleep == 0)) _ _ (inl refl) (finish-Ends _ refl)))

  -- Whatever the daemon and the rest of the world do, a call that returns leaves the process as it
  -- was, or the daemon's answer to this very request was a well-formed response that grants it, the
  -- call returns 0, and the process is the one that ran the program under the credentials of that
  -- response.
  pub sys_pfexecve-Ends : (u : Uap) → Ends k l w p u (sys_pfexecve k l w p u)
  unfolding sys_pfexecve validate_args
  sys_pfexecve-Ends u = by_args u.opts u.path u.argp u.envp
    where
      by_args :
          (a : Option Opts) (b : Option Text) (c d : Option (List Text))
          → let v : Uap = record { opts = a; path = b; argp = c; envp = d } in
            Ends k l w p v (sys_pfexecve k l w p v)
      by_args none b c d = inl refl
      by_args (some a) none c d = inl refl
      by_args (some a) (some b) none d = inl refl
      by_args (some a) (some b) (some c) none = inl refl
      by_args (some a) (some b) (some c) (some d) = call_with-Ends a b c d

-- Without a chroot, what a failing sys_execve leaves is left.
run_as-failed :
    (k : Kern) (l : Limits) (path : Text) (argp : List Text) (r : Resp) (p : Proc) (e : ℕ)
    → bit_and r.pfr_flags pfresp_chroot ≡ 0
    → k.sys_execve (raised r p) path argp (check_priv r).1 ≡ (e, raised r p)
    → run_as k l path argp r p ≡ raised r p
unfolding confine
run_as-failed k l path argp r p e root failed = rw (root, failed) refl

finish-approved :
    (k : Kern) (l : Limits) (path : Text) (argp : List Text) (r : Resp) (p : Proc)
    → l.arg_max < 2 ^ 31
    → process_response l r ≡ 0
    → finish k l path argp p (answered 0 (some r)) ≡ returned 0 (run_as k l path argp r p)
unfolding finish
finish-approved k l path argp r p m ok =
    rw (ok, pfexec_exec-run_as k l path argp r p (process_response-IsApproval l r m ok)) refl

-- Where the daemon grants the request, no chroot is asked for, and sys_execve fails with the error `e`
-- and leaves the process alone, the call returns 0, and the process goes on with the credentials of the
-- response: the caller's own program has them.
pub failed_exec_raises :
    (k : Kern) (l : Limits) (w : World) (p : Proc) (o : Opts) (path : Text) (argp envp : List Text)
    (r : Resp) (e : ℕ)
    → l.arg_max < 2 ^ 31
    → w.taskq ≡ true
    → w.memory ≡ true
    → w.tsleep ≡ 0
    → w.exchange (request k l p o path argp envp) ≡ answered 0 (some r)
    → process_response l r ≡ 0
    → bit_and r.pfr_flags pfresp_chroot ≡ 0
    → k.sys_execve (raised r p) path argp (check_priv r).1 ≡ (e, raised r p)
    → sys_pfexecve k l w p
        (record { opts = some o; path = some path; argp = some argp; envp = some envp })
      ≡ returned 0 (raised r p)
unfolding sys_pfexecve validate_args call_with
failed_exec_raises k l w p o path argp envp r e m t mem s x ok root failed =
    simp (t, mem, s, x)
      (finish-approved k l path argp r p m ok
        ∙ ap (returned 0) (run_as-failed k l path argp r p e root failed))
