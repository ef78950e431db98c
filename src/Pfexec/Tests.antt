-- ===== src/Pfexec/Tests.antt =====
-- A kernel, users and a rule, on which the theorems are applied: user 7 may run "/b x" as root.
use cprogramming.Prelude.{
  ℕ, ◌+◌, ◌-◌, ◌<◌, ◌≤◌, get_or, ◌^◌, ◌≡◌, ◌↔◌, refl, arith, Bool, true, false, Option, none, some,
  [], ◌∷◌, ◌==◌, ltb, if◌then◌else◌, length,
}
use cprogramming.Pfexec.Packet.{Limits, Text, zero_arg, Req, Resp, some_bad_ref}
use cprogramming.Pfexec.Packet.Strings.{string_at, strcmp_eq, strncmp_eq, c_string}
use cprogramming.Pfexec.Kernel.Request.{
  Opts, Uap, Ucred, Proc, replicate, fill_area, validate_args, fill_mbuf, fill_strings, fill_one,
  craft_mbuf, copy_string,
}
use cprogramming.Pfexec.Kernel.Request.Found.{AllStrings, fill_area_lem, fill_area_overflow}
use cprogramming.Pfexec.Kernel.Socket.{
  Layer, connected, answered, start_sock, listen_sock, rcv_sock, rcv_loop,
}
use cprogramming.Pfexec.Kernel.Call.{
  Kern, World, process_response, new_cred, returned, request, sys_pfexecve, call_with, finish,
  pfexec_exec, check_priv, environment_from, pfexec_escilate, confine, apply_chroot, change_dir,
  pfex_path_copy,
}
use cprogramming.Pfexec.Kernel.Call.Approved.{Ends, sys_pfexecve-Ends, failed_exec_raises}
use cprogramming.Pfexec.Daemon.{
  Passwd, Rule, Users, nopass, match_cmdargs, malformed, last_match, match, parseuid, uidcheck,
  match_target, match_cmd, match_args, prompt_password,
}
use cprogramming.Pfexec.Daemon.Response.{
  zero_resp, answer_client, process_request, by_rule, permit, craft_response, response_for,
  envarea_convert, envarea_destroy_revert, revert_strings, spread_groups, get_groups, rule_groups,
  keep_groups, default_groups, rule_chroot,
}
use cprogramming.Pfexec.Daemon.Decision.{Answer, answer_client_lem}
use cprogramming.Pfexec.Daemon.Arguments.{Agrees}
use cprogramming.Pfexec.Whole.{length-replicate, filled-Agrees}

abbrev limits : Limits
limits = record { arg_max = 16; path_max = 8; ngroups_max = 4; login_name_max = 6 }

abbrev copyinstr : Text → ℕ → ℕ
copyinstr s n = if ltb (length s) n then length s + 1 else n

copyinstr-whole : (s : Text) (n : ℕ) → length s < n → copyinstr s n ≡ length s + 1
copyinstr-whole s n h = ground arith

-- "/b", "x", "xy" and "root"
abbrev slash_b : Text
slash_b = b'/' ∷ b'b' ∷ []

abbrev x_arg : Text
x_arg = b'x' ∷ []

abbrev xy_arg : Text
xy_arg = b'x' ∷ b'y' ∷ []

abbrev root_name : Text
root_name = b'r' ∷ b'o' ∷ b'o' ∷ b't' ∷ []

abbrev cred : Ucred
cred = record {
  cr_uid = 7;
  cr_ruid = 7;
  cr_svuid = 7;
  cr_gid = 7;
  cr_rgid = 7;
  cr_svgid = 7;
  cr_ngroups = 1;
  cr_groups = 7 ∷ 0 ∷ 0 ∷ 0 ∷ [];
}

abbrev proc : Proc
proc = record { ps_pid = 100; ps_ucred = cred; ps_sugid = false; fd_cdir = 2; fd_rdir = none }

abbrev opts : Opts
opts = record { pfo_flags = 2; pfo_user = root_name }

-- A kernel on which no program can be run: ENOEXEC is 8.
abbrev kern : Kern
kern = record {
  copyinstr = copyinstr;
  namei = λ p path. (0, 3);
  is_dir = λ vp. true;
  access = λ vp p. 0;
  sys_execve = λ p path argp envp. (8, p);
}

abbrev root_entry : Passwd
root_entry = record { pw_name = root_name; pw_uid = 0; pw_gid = 0 }

abbrev root_only : Text → Option Passwd
root_only name = if strcmp_eq name root_name then some root_entry else none

-- "7"
abbrev seven : Text → ℕ → ℕ → Option ℕ
seven s low high = if strcmp_eq s (b'7' ∷ []) then some 7 else none

abbrev users : Users
users = record {
  getpwnam = root_only;
  getpwuid = λ n. if n == 0 then some root_entry else none;
  getgrnam = λ name. none;
  getgrouplist = λ name gid. gid ∷ 5 ∷ [];
  strtonum = seven;
  uid_max = 2 ^ 31 - 1;
  gid_max = 2 ^ 31 - 1;
  prepenv = λ r name pw env. env;
}

abbrev rule : Rule
rule = record {
  action = 1;
  options = nopass;
  ident = b'7' ∷ [];
  target = some root_name;
  cmd = some slash_b;
  cmdargs = some (xy_arg ∷ []);
  envlist = none;
  grplist = none;
  chroot = none;
}

abbrev layer : Layer
layer = record {
  socreate = 0;
  sosetopt_sndbuf = 0;
  sosetopt_rcvbuf = 0;
  soconnect = 0;
  connection = connected;
  sosend = 0;
  soreceive =
      record { ret = 0; has_mbuf = true; resid = 40 }
      ∷ record { ret = 0; has_mbuf = true; resid = 60 }
      ∷ [];
  resp_size = 100;
  resp_memory = true;
}

-- What the daemon answers; zeros where it ends.
abbrev response_of : Option (Resp × Bool) → Resp
response_of none = zero_resp limits
response_of (some (resp, logged)) = resp

abbrev daemon : Req → Resp
daemon req = response_of (answer_client limits users (rule ∷ []) req)

abbrev world : World
world = record { taskq = true; memory = true; tsleep = 0; exchange = start_sock layer daemon }

abbrev call : Uap
call = record {
  opts = some opts;
  path = some slash_b;
  argp = some (slash_b ∷ x_arg ∷ []);
  envp = some [];
}

-- The request of this call.
abbrev sample : Req
sample = request kern limits proc opts slash_b (slash_b ∷ x_arg ∷ []) []

slash_b-AllStrings : AllStrings (slash_b ∷ x_arg ∷ [])
slash_b-AllStrings = ((λ e. omega arith, (λ e. omega arith, tt)), ((λ e. omega arith, tt), tt))

fill_area_lem_example :
    let f =
      fill_area copyinstr 16
        (some (slash_b ∷ x_arg ∷ []))
        (replicate 1024 zero_arg)
        (replicate 16 0) in
    (f.count ≡ 2)
    × (f.within ≡ true)
    × ((k : ℕ)
        → k < 2
        → (string_at f.area (get_or f.refs k zero_arg).pfa_offset
            ≡ get_or (slash_b ∷ x_arg ∷ []) k [])
          × ((get_or f.refs k zero_arg).pfa_len ≡ length (get_or (slash_b ∷ x_arg ∷ []) k [])))
    × ((k : ℕ) → 2 ≤ k → get_or f.refs k zero_arg ≡ get_or (replicate 1024 zero_arg) k zero_arg)
    × (some_bad_ref 16 f.refs 0 f.count ≡ false)
fill_area_lem_example =
    fill_area_lem copyinstr copyinstr-whole 16 (omega arith) (replicate 1024 zero_arg)
      (replicate 16 0) (length-replicate 1024 zero_arg) refl (slash_b ∷ x_arg ∷ [])
      slash_b-AllStrings (omega arith) (omega arith)

-- Nine bytes and then seven, in an area of sixteen.
abbrev nine : Text
nine = replicate 9 b'a'

abbrev seven_bytes : Text
seven_bytes = replicate 7 b'b'

fill_area_overflow_example :
    (fill_area copyinstr 16
      (some (nine ∷ seven_bytes ∷ []))
      (replicate 1024 zero_arg)
      (replicate 16 0)).within
    ≡ false
fill_area_overflow_example =
    fill_area_overflow copyinstr copyinstr-whole 16 (omega arith) (replicate 1024 zero_arg)
      (replicate 16 0) (length-replicate 1024 zero_arg) refl nine seven_bytes (omega arith)
      (omega arith) (omega arith) (omega arith)

sys_pfexecve-Ends_example :
    Ends kern limits world proc call (sys_pfexecve kern limits world proc call)
sys_pfexecve-Ends_example = sys_pfexecve-Ends kern limits (omega arith) world proc call

abbrev approval : Resp
approval = record {
  pfr_flags = 7;
  pfr_errno = 0;
  pfr_uid = 0;
  pfr_gid = 0;
  pfr_ngroups = 1;
  pfr_groups = 0 ∷ 0 ∷ 0 ∷ 0 ∷ [];
  pfr_chroot = [];
  pfr_envc = 0;
  pfr_envp = [];
  pfr_envarea = [];
}

abbrev granting : World
granting = record {
  taskq = true;
  memory = true;
  tsleep = 0;
  exchange = λ req. answered 0 (some approval);
}

approval-good : process_response limits approval ≡ 0
unfolding process_response some_bad_ref
approval-good = refl

failed_exec_raises_example :
    sys_pfexecve kern limits granting proc call
    ≡ returned 0 (record proc { ps_ucred = new_cred approval cred; ps_sugid = true })
failed_exec_raises_example =
    failed_exec_raises kern limits granting proc opts slash_b (slash_b ∷ x_arg ∷ []) [] approval 8
      (omega arith) refl refl refl refl approval-good refl refl

answer_client_lem_example :
    Answer limits users (rule ∷ []) sample (answer_client limits users (rule ∷ []) sample)
answer_client_lem_example = answer_client_lem limits users (rule ∷ []) sample

filled-Agrees_example :
    (match_cmdargs sample (some (xy_arg ∷ [])) ≡ true) ↔ Agrees (x_arg ∷ []) 0 (xy_arg ∷ [])
filled-Agrees_example =
    filled-Agrees copyinstr copyinstr-whole limits (omega arith) proc opts slash_b slash_b
      (x_arg ∷ []) [] slash_b-AllStrings (omega arith) (omega arith) (xy_arg ∷ [])

-- The whole exchange: the program may run with "x" although the rule says "xy", and as no program can
-- be run here, the caller is left with the user of root.
exchange_raises :
    sys_pfexecve kern limits world proc call
    ≡ returned 0 (record proc {
      ps_ucred = record {
        cr_uid = 0;
        cr_ruid = 0;
        cr_svuid = 0;
        cr_gid = 0;
        cr_rgid = 0;
        cr_svgid = 0;
        cr_ngroups = 2;
        cr_groups = 0 ∷ 5 ∷ 0 ∷ 0 ∷ [];
      };
      ps_sugid = true;
    })
unfolding sys_pfexecve validate_args call_with finish process_response some_bad_ref pfexec_exec
    check_priv environment_from pfexec_escilate confine apply_chroot change_dir start_sock
    listen_sock rcv_sock rcv_loop answer_client process_request malformed last_match match parseuid
    uidcheck match_target match_cmd match_cmdargs match_args strcmp_eq strncmp_eq c_string by_rule
    permit prompt_password craft_response response_for envarea_convert envarea_destroy_revert
    revert_strings spread_groups get_groups rule_groups keep_groups default_groups rule_chroot
    zero_resp fill_mbuf fill_area fill_strings fill_one craft_mbuf copy_string pfex_path_copy
exchange_raises = refl
