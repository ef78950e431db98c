-- ===== src/Pfexec/Daemon.antt =====
-- pfexecd.c: what the daemon decides on a request, by the rules of its configuration. The user and
-- group databases, `strtonum`, and prepenv of env.c, which is OpenBSD's, are a parameter.
pub mod Response
pub mod Decision
pub mod Arguments
use cprogramming.Prelude.{
  ℕ, zero, suc, ◌+◌, ◌-◌, Bool, true, false, not, ◌&&◌, ◌||◌, Option, none, some, List, [], ◌∷◌,
  ◌==◌, ltb, leb, if◌then◌else◌, get_or, bit_and, ℤ, pos, negsuc, ◌-ℤ◌, ltb_ℤ,
}
use cprogramming.Pfexec.Packet.{Limits, Text, Arg, zero_arg, Req, some_bad_ref, pfexecve_user}
use cprogramming.Pfexec.Packet.Strings.{strlen, drop, string_at, c_string, strcmp_eq, strncmp_eq}

pub record Passwd : Type 0 where
  pub pw_name : Text
  pub pw_uid : ℕ
  pub pw_gid : ℕ

-- `struct rule`; `none` is a null pointer.
pub record Rule : Type 0 where
  pub action : ℕ
  pub options : ℕ
  pub ident : Text
  pub target : Option Text
  pub cmd : Option Text
  pub cmdargs : Option (List Text)
  pub envlist : Option (List Text)
  pub grplist : Option (List Text)
  pub chroot : Option Text

-- DENY, NOPASS, NOLOG, KEEPGRP and CHROOT
abbrev pub deny : ℕ
deny = 2

abbrev pub nopass : ℕ
nopass = 1

abbrev pub nolog : ℕ
nolog = 8

abbrev pub keepgrp : ℕ
keepgrp = 16

abbrev pub chroot_option : ℕ
chroot_option = 32

pub record Users : Type 0 where
  pub getpwnam : Text → Option Passwd
  pub getpwuid : ℕ → Option Passwd
  pub getgrnam : Text → Option ℕ
  pub getgrouplist : Text → ℕ → List ℕ
  pub strtonum : Text → ℕ → ℕ → Option ℕ
  pub uid_max : ℕ
  pub gid_max : ℕ
  pub prepenv : Rule → Text → Passwd → List Text → List Text

-- Whether it is found, and `*uid`. `strtonum` gives 0 for what is no number.
unfoldable pub parseuid : Users → Text → Bool × ℕ
parseuid u s = elim (u.getpwnam s) [
  | some pw ↦ (not (pw.pw_uid == u.uid_max), pw.pw_uid)
  | none ↦ elim (u.strtonum s 0 (u.uid_max - 1)) [ some n ↦ (true, n) | none ↦ (false, 0) ]
]

unfoldable pub uidcheck : Users → Text → ℕ → Bool
uidcheck u s desired = let (found, uid) = parseuid u s in found && uid == desired

unfoldable pub parsegid : Users → Text → Bool × ℕ
parsegid u s = elim (u.getgrnam s) [
  | some gid ↦ (not (gid == u.gid_max), gid)
  | none ↦ elim (u.strtonum s 0 (u.gid_max - 1)) [ some n ↦ (true, n) | none ↦ (false, 0) ]
]

unfoldable pub prompt_password : Req → ℕ
prompt_password req = 0

-- The argument `i` of a request.
abbrev pub arg_at : Req → ℕ → Arg
arg_at req i = get_or req.pfr_argp i zero_arg

-- The loop over the arguments of a rule from `i` on, and the test behind it.
unfoldable pub match_args : Req → ℤ → ℕ → List Text → Bool
match_args req max_args i [] = not (ltb_ℤ (pos i) max_args)
match_args req max_args i (c ∷ cs) =
    let a = arg_at req (i + 1) in
    let rest = match_args req max_args (suc i) cs in
    if ltb_ℤ max_args (pos i)
    then false
    else if not (strncmp_eq c (string_at req.pfr_argarea a.pfa_offset) a.pfa_len)
    then false
    else rest

abbrev pub max_args_of : Req → ℤ
max_args_of req = pos req.pfr_argc -ℤ pos 1

abbrev pub is_empty : List Text → Bool
is_empty [] = true
is_empty (c ∷ cs) = false

unfoldable pub match_cmdargs : Req → Option (List Text) → Bool
match_cmdargs req none = true
match_cmdargs req (some cs) =
    if is_empty cs && ltb_ℤ (pos 0) (max_args_of req)
    then false
    else match_args req (max_args_of req) 0 cs

unfoldable pub match_cmd : Req → Rule → Option Text → Bool
match_cmd req r none = true
match_cmd req r (some cmd) =
    if not (strcmp_eq cmd (c_string req.pfr_path)) then false else match_cmdargs req r.cmdargs

unfoldable pub match_target : Users → Option Text → ℕ → Bool
match_target u none target = true
match_target u (some t) target = uidcheck u t target

unfoldable pub match : Users → Req → Rule → Bool
match u req r =
    let (found, target) = parseuid u (c_string req.pfr_req_user) in
    if not (uidcheck u r.ident req.pfr_uid)
    then false
    else if not (match_target u r.target target)
    then false
    else match_cmd req r r.cmd

-- The tests of process_request before it looks at the rules. 0xfffffffc is ~PFEXECVE_ALL_FLAGS.
unfoldable pub malformed : Limits → Req → Bool
malformed l req =
    leb l.ngroups_max req.pfr_ngroups
    || not (bit_and req.pfr_req_flags 0xfffffffc == 0)
    || (ltb (strlen req.pfr_path) 1 || leb l.path_max (strlen req.pfr_path))
    || (leb 1024 req.pfr_argc || leb 1024 req.pfr_envc)
    || (not (bit_and req.pfr_req_flags pfexecve_user == 0)
        && (ltb (strlen req.pfr_req_user) 1 || leb l.login_name_max (strlen req.pfr_req_user)))
    || some_bad_ref l.arg_max req.pfr_argp 0 req.pfr_argc
    || some_bad_ref l.arg_max req.pfr_envp 0 req.pfr_envc

-- The loop over the rules: `lastr` at its end.
unfoldable pub last_match : Users → Req → Option Rule → List Rule → Option Rule
last_match u req lastr [] = lastr
last_match u req lastr (r ∷ rules) =
    last_match u req (if match u req r then some r else lastr) rules

abbrev pub has : ℕ → ℕ → Bool
has flags bit = not (bit_and flags bit == 0)
