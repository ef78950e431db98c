-- ===== src/Acct/Types.antt =====
-- The structures of acct.h and of acct.c, and the constants of acct.h. Byte strings are lists of
-- bytes without the closing NUL. A `struct vnode *` is the place of the vnode in memory, counted in
-- vnodes. Sizes are those of amd64.
use cprogramming.Prelude.{ℕ, Bool, Option, List, ◌^◌, ◌-◌}

abbrev pub Bytes : Type 0
Bytes = List ℕ

abbrev pub Vnode : Type 0
Vnode = ℕ

-- `struct timespec`
pub record Timespec : Type 0 where
  pub sec : ℕ
  pub nsec : ℕ

-- ACCT_MSG_*
pub data MsgType : Type 0 where
  fork exec exit open_file rename unlink close : MsgType

-- `struct acct_common`
pub record Common : Type 0 where
  pub ac_type : MsgType
  pub ac_len : ℕ
  pub ac_seq : ℕ
  pub ac_comm : Bytes
  pub ac_etime : Timespec
  pub ac_btime : Timespec
  pub ac_pid : ℕ
  pub ac_uid : ℕ
  pub ac_gid : ℕ
  pub ac_tty : ℕ
  pub ac_flag : ℕ

-- What follows `ac_common` in each of the seven message structures.
pub data Body : Type 0 where
  fork_body : (cpid : ℕ) → Body
  exec_body : Body
  exit_body : (utime stime : Timespec) → (mem io : ℕ) → Body
  open_body : (path : Bytes) → (mode errno : ℕ) → Body
  rename_body : (path target : Bytes) → (errno : ℕ) → Body
  unlink_body : (path : Bytes) → (errno : ℕ) → Body
  close_body : (path : Bytes) → Body

pub record Msg : Type 0 where
  pub common : Common
  pub body : Body

-- `sizeof` of the structure of each message
abbrev pub msg_size : MsgType → ℕ
msg_size MsgType.fork = 88
msg_size MsgType.exec = 80
msg_size MsgType.exit = 128
msg_size open_file = 1112
msg_size rename = 2136
msg_size unlink = 1112
msg_size close = 1104

abbrev pub common_size : ℕ
common_size = 80

abbrev pub path_max : ℕ
path_max = 1024

-- ACCT_ENA_*
abbrev pub ena_fork : ℕ
ena_fork = 1

abbrev pub ena_exec : ℕ
ena_exec = 2

abbrev pub ena_exit : ℕ
ena_exit = 4

abbrev pub ena_open : ℕ
ena_open = 8

abbrev pub ena_close : ℕ
ena_close = 16

abbrev pub ena_rename : ℕ
ena_rename = 32

abbrev pub ena_unlink : ℕ
ena_unlink = 64

-- `struct acct_ctl`
pub record Ctl : Type 0 where
  pub acct_ena : ℕ
  pub acct_cond : ℕ
  pub acct_fcount : ℕ
  pub acct_path : Bytes

-- `struct trkvnode`, an element of the tree of tracked files
pub record TrkNode : Type 0 where
  pub trk_name : Bytes
  pub trk_ena : ℕ
  pub trk_flags : ℕ
  pub trkvnode : Vnode

-- What the driver reads of a `struct process`; `ttyp` is the device of the session's terminal.
pub record Process : Type 0 where
  pub ps_comm : Bytes
  pub ps_start : Timespec
  pub ps_pid : ℕ
  pub cr_ruid : ℕ
  pub cr_rgid : ℕ
  pub controlt : Bool
  pub ttyp : Option ℕ
  pub ps_acflag : ℕ

-- `struct rusage` of the main thread, and the times that `calctsru` gives
pub record Usage : Type 0 where
  pub utime : Timespec
  pub stime : Timespec
  pub ru_ixrss : ℕ
  pub ru_idrss : ℕ
  pub ru_isrss : ℕ
  pub ru_inblock : ℕ
  pub ru_oublock : ℕ

-- errno values
abbrev pub enoent : ℕ
enoent = 2

abbrev pub enxio : ℕ
enxio = 6

abbrev pub einval : ℕ
einval = 22

abbrev pub ewouldblock : ℕ
ewouldblock = 35

abbrev pub eopnotsupp : ℕ
eopnotsupp = 45

-- `(dev_t)-1`
abbrev pub nodev : ℕ
nodev = 2 ^ 32 - 1

-- The variables of acct.c: `driver_ctl`, `acct_list` (head first), `ac_seq`, `f_tracker`, the read
-- holds on `ac_taillock`, and how often `wakeup` was called.
pub record Driver (Tree : Type 0) : Type 0 where
  pub ctl : Ctl
  pub acct_list : List Msg
  pub ac_seq : ℕ
  pub f_tracker : Tree
  pub readers : ℕ
  pub wakeups : ℕ
