-- ===== src/Pfexec/Kernel/Request.antt =====
-- kern_pfexec.c: validate_args, craft_mbuf and fill_mbuf, which make the request. `copyinstr` is the
-- kernel's: the number of bytes, with the NUL, that it copies of a string into so many bytes.
pub mod Copies
pub mod Found
use cprogramming.Prelude.{
  ℕ, zero, suc, ◌+◌, ◌-◌, ◌%◌, ◌^◌, ◌≤◌, ◌<◌, ◌≡◌, Bool, true, false, ◌&&◌, Option, none, some,
  List, [], ◌∷◌, ◌++◌, ltb, leb, if◌then◌else◌, length, set, take,
}
use cprogramming.Pfexec.Packet.{Limits, Text, Arg, zero_arg, Req, einval}
use cprogramming.Pfexec.Packet.Strings.{put_bytes}

-- `struct pfexecve_opts`
pub record Opts : Type 0 where
  pub pfo_flags : ℕ
  pub pfo_user : Text

-- `struct sys_pfexecve_args`, as the caller's memory has it: `none` is a null pointer.
pub record Uap : Type 0 where
  pub opts : Option Opts
  pub path : Option Text
  pub argp : Option (List Text)
  pub envp : Option (List Text)

pub record Ucred : Type 0 where
  pub cr_uid : ℕ
  pub cr_ruid : ℕ
  pub cr_svuid : ℕ
  pub cr_gid : ℕ
  pub cr_rgid : ℕ
  pub cr_svgid : ℕ
  pub cr_ngroups : ℕ
  pub cr_groups : List ℕ

-- A process: its credentials, whether PS_SUGID is set, and its directories.
pub record Proc : Type 0 where
  pub ps_pid : ℕ
  pub ps_ucred : Ucred
  pub ps_sugid : Bool
  pub fd_cdir : ℕ
  pub fd_rdir : Option ℕ

abbrev pub given {ℓ} : {A : Type ℓ} → Option A → Bool
given none = false
given (some a) = true

unfoldable pub validate_args : Uap → ℕ
validate_args u = if given u.opts && given u.path && given u.argp && given u.envp then 0 else einval

abbrev pub replicate {ℓ} : {A : Type ℓ} → ℕ → A → List A
replicate zero v = []
replicate (suc n) v = v ∷ replicate n v

-- What craft_mbuf allocates is zeroed.
unfoldable pub craft_mbuf : Limits → Req
craft_mbuf l = record {
  pfr_pid = 0;
  pfr_uid = 0;
  pfr_gid = 0;
  pfr_ngroups = 0;
  pfr_groups = replicate l.ngroups_max 0;
  pfr_req_flags = 0;
  pfr_req_user = replicate l.login_name_max 0;
  pfr_path = replicate l.path_max 0;
  pfr_argc = 0;
  pfr_argp = replicate 1024 zero_arg;
  pfr_envc = 0;
  pfr_envp = replicate 1024 zero_arg;
  pfr_argarea = replicate l.arg_max 0;
  pfr_envarea = replicate l.arg_max 0;
}

-- The variables of the two loops of fill_mbuf. `within` is whether each write was inside the area.
pub record Filling : Type 0 where
  pub count : ℕ
  pub max : ℕ
  pub len : ℕ
  pub refs : List Arg
  pub area : Text
  pub within : Bool

-- A difference and a sum of `size_t`.
abbrev pub size_sub : ℕ → ℕ → ℕ
size_sub a b = (a + 2 ^ 64 - b) % 2 ^ 64

abbrev pub size_add : ℕ → ℕ → ℕ
size_add a b = (a + b) % 2 ^ 64

-- One round of a loop, when copyinstr has copied so many bytes.
unfoldable pub fill_one : ℕ → Filling → Text → Filling
fill_one copied f s = record {
  count = f.count + 1;
  max = size_sub f.max copied;
  len = size_add f.len copied;
  refs =
      set f.refs f.count
        (record { pfa_offset = f.len % 2 ^ 32; pfa_len = size_sub copied 1 % 2 ^ 32 });
  area = put_bytes f.area f.len (take copied (s ++ (0 ∷ [])));
  within = f.within && leb (f.len + copied) (length f.area);
}

module _ (copyinstr : Text → ℕ → ℕ) where
  unfoldable pub fill_strings : List Text → Filling → Filling
  fill_strings [] f = f
  fill_strings (s ∷ ss) f =
      if ltb f.count 1024 && ltb 0 f.max
      then fill_strings ss (fill_one (copyinstr s (size_sub f.max f.len)) f s)
      else f

  -- A string into an array of its own.
  unfoldable pub copy_string : Text → Text → Text
  copy_string array s = put_bytes array 0 (take (copyinstr s (length array)) (s ++ (0 ∷ [])))

  -- The last byte of an area is set to NUL at the end.
  unfoldable pub fill_area : ℕ → Option (List Text) → List Arg → Text → Filling
  fill_area arg_max none refs area = record {
    count = 0;
    max = arg_max;
    len = 0;
    refs = refs;
    area = set area (arg_max - 1) 0;
    within = true;
  }
  fill_area arg_max (some ss) refs area =
      let f =
        fill_strings ss
          (record { count = 0; max = arg_max; len = 0; refs = refs; area = area; within = true }) in
      record f { area = set f.area (arg_max - 1) 0 }

  -- Of arguments that validate_args has let pass.
  unfoldable pub fill_mbuf :
      Limits → Proc → Opts → Text → Option (List Text) → Option (List Text) → Req → Req
  fill_mbuf l p opts path argp envp req =
      let args = fill_area l.arg_max argp req.pfr_argp req.pfr_argarea in
      let env = fill_area l.arg_max envp req.pfr_envp req.pfr_envarea in
      record req {
        pfr_pid = p.ps_pid;
        pfr_uid = p.ps_ucred.cr_uid;
        pfr_gid = p.ps_ucred.cr_gid;
        pfr_ngroups = p.ps_ucred.cr_ngroups;
        pfr_groups = take l.ngroups_max p.ps_ucred.cr_groups;
        pfr_req_flags = opts.pfo_flags;
        pfr_req_user = copy_string (set req.pfr_req_user (l.login_name_max - 1) 0) opts.pfo_user;
        pfr_path = copy_string (set req.pfr_path (l.path_max - 1) 0) path;
        pfr_argp = args.refs;
        pfr_argarea = args.area;
        pfr_argc = args.count;
        pfr_envp = env.refs;
        pfr_envarea = env.area;
        pfr_envc = env.count;
      }
