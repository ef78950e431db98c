-- ===== src/Pfexec/Kernel/Call.antt =====
-- kern_pfexec.c: sys_pfexecve, and what it does with a response: process_response, check_priv,
-- pfexec_escilate, apply_chroot and pfexec_exec. Reference counts, unveil and the count of processes
-- of a user are left out.
pub mod Approved
use cprogramming.Prelude.{
  ℕ, zero, suc, ◌+◌, ◌-◌, Bool, true, false, not, Option, none, some, List, [], ◌∷◌, ◌++◌, ◌==◌,
  ltb, leb, if◌then◌else◌, get_or, take, bit_and,
}
use cprogramming.Pfexec.Packet.{
  Limits, Text, Arg, zero_arg, Req, Resp, einval, pfresp_chroot, some_bad_ref,
}
use cprogramming.Pfexec.Packet.Strings.{c_string, drop, string_at}
use cprogramming.Pfexec.Kernel.Request.{
  Opts, Uap, Ucred, Proc, validate_args, craft_mbuf, fill_mbuf,
}
use cprogramming.Pfexec.Kernel.Socket.{Exchange, answered, crashed, waiting}

-- What the code calls of the kernel. `namei` finds the vnode of a path or an error, `access` is
-- VOP_ACCESS with VEXEC, and `sys_execve` returns its error and the process after it.
pub record Kern : Type 0 where
  pub copyinstr : Text → ℕ → ℕ
  pub namei : Proc → Text → ℕ × ℕ
  pub is_dir : ℕ → Bool
  pub access : ℕ → Proc → ℕ
  pub sys_execve : Proc → Text → List Text → List Text → ℕ × Proc

unfoldable pub process_response : Limits → Resp → ℕ
process_response l r =
    if leb l.ngroups_max r.pfr_ngroups
    then einval
    else if leb 1024 r.pfr_envc
    then einval
    else if some_bad_ref l.arg_max r.pfr_envp 0 r.pfr_envc
    then einval
    else r.pfr_errno

-- The loop of check_priv from `i` on, with `n` to go.
unfoldable pub environment_from : Resp → ℕ → ℕ → List Text
environment_from r i zero = []
environment_from r i (suc n) =
    string_at r.pfr_envarea (get_or r.pfr_envp i zero_arg).pfa_offset ∷ environment_from r (suc i) n

-- What is returned, and `data->environment`.
unfoldable pub check_priv : Resp → ℕ × List Text
check_priv r = (r.pfr_errno, environment_from r 0 r.pfr_envc)

abbrev pub new_cred : Resp → Ucred → Ucred
new_cred r old = record {
  cr_uid = r.pfr_uid;
  cr_ruid = r.pfr_uid;
  cr_svuid = r.pfr_uid;
  cr_gid = r.pfr_gid;
  cr_rgid = r.pfr_gid;
  cr_svgid = r.pfr_gid;
  cr_ngroups = r.pfr_ngroups;
  cr_groups = take r.pfr_ngroups r.pfr_groups ++ drop r.pfr_ngroups old.cr_groups;
}

-- `sys_pf_errno`, and the process.
unfoldable pub pfexec_escilate : Limits → Resp → Proc → ℕ × Proc
pfexec_escilate l r p =
    if ltb l.ngroups_max r.pfr_ngroups
    then (einval, p)
    else (0, record p { ps_ucred = new_cred r p.ps_ucred; ps_sugid = true })

unfoldable pub pfex_path_copy : Limits → Text → Text
pfex_path_copy l path = take (l.path_max - 1) (c_string path)

-- ENOTDIR is 20.
unfoldable pub change_dir : Kern → Proc → Text → ℕ × ℕ
change_dir k p path =
    let (error, vp) = k.namei p path in
    if not (error == 0)
    then (error, vp)
    else if not (k.is_dir vp)
    then (20, vp)
    else (k.access vp p, vp)

unfoldable pub apply_chdir : Kern → Proc → Text → ℕ × Proc
apply_chdir k p path =
    let (error, vp) = change_dir k p path in
    if not (error == 0) then (error, p) else (0, record p { fd_cdir = vp })

abbrev new_root : Option ℕ → Proc → ℕ → Proc
new_root none p vp = record p { fd_rdir = some vp }
new_root (some old) p vp = record p { fd_rdir = some vp; fd_cdir = vp }

unfoldable pub apply_chroot : Kern → Proc → Text → ℕ × Proc
apply_chroot k p path =
    let (error, vp) = change_dir k p path in
    if not (error == 0) then (error, p) else (0, new_root p.fd_rdir p vp)

-- "/var/empty"
abbrev pub var_empty : Text
var_empty = b'/' ∷ b'v' ∷ b'a' ∷ b'r' ∷ b'/' ∷ b'e' ∷ b'm' ∷ b'p' ∷ b't' ∷ b'y' ∷ []

-- The part of pfexec_exec behind sys_execve, whose errors are dropped.
unfoldable pub confine : Kern → Limits → Resp → Proc → Proc
confine k l r p =
    let (error, p') = apply_chroot k p (pfex_path_copy l r.pfr_chroot) in
    if bit_and r.pfr_flags pfresp_chroot == 0
    then p
    else if error == 0
    then p'
    else (apply_chroot k p' (pfex_path_copy l var_empty)).1

-- `sys_pf_errno`, and the process. What sys_execve returns is not looked at.
unfoldable pub pfexec_exec : Kern → Limits → Text → List Text → Resp → Proc → ℕ × Proc
pfexec_exec k l path argp r p =
    let (denied, env) = check_priv r in
    let (errno, p') = pfexec_escilate l r p in
    if not (denied == 0) then (0, p) else (errno, confine k l r (k.sys_execve p' path argp env).1)

-- The rest of the world for one call: whether taskq_create and malloc succeed, what tsleep_nsec
-- returns, and the exchange with the daemon.
pub record World : Type 0 where
  pub taskq : Bool
  pub memory : Bool
  pub tsleep : ℕ
  pub exchange : Req → Exchange

-- How the call ends. `asleep` waits for the daemon, and `fault` is a use of a null pointer.
pub data CallResult : Type 0 where
  returned : ℕ → Proc → CallResult
  asleep : CallResult
  fault : CallResult

-- From the wake-up on.
unfoldable pub finish : Kern → Limits → Text → List Text → Proc → Exchange → CallResult
finish k l path argp p crashed = fault
finish k l path argp p waiting = asleep
finish k l path argp p (answered errno none) = if errno == 0 then fault else returned errno p
finish k l path argp p (answered errno (some r)) =
    let ret = process_response l r in
    let (done, p') = pfexec_exec k l path argp r p in
    if not (errno == 0)
    then returned errno p
    else if not (ret == 0)
    then returned ret p
    else returned done p'

abbrev pub request : Kern → Limits → Proc → Opts → Text → List Text → List Text → Req
request k l p opts path argp envp =
    fill_mbuf k.copyinstr l p opts path (some argp) (some envp) (craft_mbuf l)

unfoldable pub call_with :
    Kern
    → Limits
    → World
    → Proc
    → Option Opts
    → Option Text
    → Option (List Text)
    → Option (List Text)
    → CallResult
call_with k l w p (some opts) (some path) (some argp) (some envp) =
    if not w.taskq
    then returned 0 p
    else if not w.memory
    then returned 0 p
    else if not (w.tsleep == 0)
    then returned w.tsleep p
    else finish k l path argp p (w.exchange (request k l p opts path argp envp))
call_with k l w p (some opts) (some path) (some argp) none = fault
call_with k l w p (some opts) (some path) none envp = fault
call_with k l w p (some opts) none argp envp = fault
call_with k l w p none path argp envp = fault

unfoldable pub sys_pfexecve : Kern → Limits → World → Proc → Uap → CallResult
sys_pfexecve k l w p u =
    let ret = validate_args u in
    if not (ret == 0) then returned ret p else call_with k l w p u.opts u.path u.argp u.envp
