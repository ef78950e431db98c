-- ===== src/Pfexec/Packet.antt =====
-- pfexecvar.h and pfexec.h: the request from the kernel to the daemon and the response. A char array
-- is the list of its bytes. The sizes of the arrays, of sys/syslimits.h, are parameters.
pub mod Strings
pub mod Refs
use cprogramming.Prelude.{
  ℕ, zero, suc, ◌+◌, ◌%◌, ◌^◌, Bool, true, false, ◌||◌, List, ltb, leb, if◌then◌else◌, get_or,
}

pub record Limits : Type 0 where
  pub arg_max : ℕ
  pub path_max : ℕ
  pub ngroups_max : ℕ
  pub login_name_max : ℕ

abbrev pub Text : Type 0
Text = List ℕ

-- A reference to a string in one of the areas.
pub record Arg : Type 0 where
  pub pfa_offset : ℕ
  pub pfa_len : ℕ

abbrev pub zero_arg : Arg
zero_arg = record { pfa_offset = 0; pfa_len = 0 }

-- `struct pfexec_req`
pub record Req : Type 0 where
  pub pfr_pid : ℕ
  pub pfr_uid : ℕ
  pub pfr_gid : ℕ
  pub pfr_ngroups : ℕ
  pub pfr_groups : List ℕ
  pub pfr_req_flags : ℕ
  pub pfr_req_user : Text
  pub pfr_path : Text
  pub pfr_argc : ℕ
  pub pfr_argp : List Arg
  pub pfr_envc : ℕ
  pub pfr_envp : List Arg
  pub pfr_argarea : Text
  pub pfr_envarea : Text

-- `struct pfexec_resp`
pub record Resp : Type 0 where
  pub pfr_flags : ℕ
  pub pfr_errno : ℕ
  pub pfr_uid : ℕ
  pub pfr_gid : ℕ
  pub pfr_ngroups : ℕ
  pub pfr_groups : List ℕ
  pub pfr_chroot : Text
  pub pfr_envc : ℕ
  pub pfr_envp : List Arg
  pub pfr_envarea : Text

abbrev pub pfresp_uid : ℕ
pfresp_uid = 1

abbrev pub pfresp_gid : ℕ
pfresp_gid = 2

abbrev pub pfresp_groups : ℕ
pfresp_groups = 4

abbrev pub pfresp_chroot : ℕ
pfresp_chroot = 8

abbrev pub pfexecve_noprompt : ℕ
pfexecve_noprompt = 1

abbrev pub pfexecve_user : ℕ
pfexecve_user = 2

abbrev pub pfexecve_all_flags : ℕ
pfexecve_all_flags = 3

-- EPERM, ENOMEM, EINVAL, EPIPE and ENOTCONN
abbrev pub eperm : ℕ
eperm = 1

abbrev pub enomem : ℕ
enomem = 12

abbrev pub einval : ℕ
einval = 22

abbrev pub epipe : ℕ
epipe = 32

abbrev pub enotconn : ℕ
enotconn = 57

-- The three tests of one reference. The sum is of `uint32_t`.
abbrev pub bad_ref : ℕ → Arg → Bool
bad_ref arg_max a =
    leb arg_max a.pfa_offset
    || leb arg_max a.pfa_len
    || leb arg_max ((a.pfa_offset + a.pfa_len) % 2 ^ 32)

-- The loop over the references from `i` on, with `n` to go: whether one is bad.
unfoldable pub some_bad_ref : ℕ → List Arg → ℕ → ℕ → Bool
some_bad_ref arg_max refs i zero = false
some_bad_ref arg_max refs i (suc n) =
    let rest = some_bad_ref arg_max refs (suc i) n in
    if bad_ref arg_max (get_or refs i zero_arg) then true else rest
