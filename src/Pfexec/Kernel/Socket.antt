-- ===== src/Pfexec/Kernel/Socket.antt =====
-- kern_pfexec.c: listen_sock, send_sock, rcv_sock and start_sock, the exchange with the daemon. What
-- the socket layer returns at each step is a parameter.
use cprogramming.Prelude.{
  ℕ, Bool, true, false, not, Option, none, some, List, [], ◌∷◌, ◌==◌, if◌then◌else◌, ℤ, pos, ◌-ℤ◌,
  ltb_ℤ,
}
use cprogramming.Pfexec.Packet.{Req, Resp, enomem, epipe, enotconn}

-- How the wait for the connection ends.
pub data Connection : Type 0 where
  connected : Connection
  timed_out : Connection
  so_error : ℕ → Connection

-- What one call of `soreceive` returns: its result, whether there is an mbuf, and `uio_resid`.
pub record Received : Type 0 where
  pub ret : ℕ
  pub has_mbuf : Bool
  pub resid : ℕ

pub record Layer : Type 0 where
  pub socreate : ℕ
  pub sosetopt_sndbuf : ℕ
  pub sosetopt_rcvbuf : ℕ
  pub soconnect : ℕ
  pub connection : Connection
  pub sosend : ℕ
  pub soreceive : List Received
  pub resp_size : ℕ
  pub resp_memory : Bool

abbrev conn_errno : ℕ → ℕ
conn_errno ret = if ret == 0 then 0 else enotconn

-- `sys_pf_errno`, and whether `data->so` is set. A timeout leaves `ret` at 0.
unfoldable pub listen_sock : Layer → ℕ × Bool
listen_sock l =
    if not (l.socreate == 0)
    then (enotconn, false)
    else if not (l.sosetopt_sndbuf == 0)
    then (enotconn, false)
    else if not (l.sosetopt_rcvbuf == 0)
    then (enotconn, false)
    else if not (l.soconnect == 0)
    then (enotconn, false)
    else elim l.connection [
      | connected ↦ (0, true)
      | timed_out ↦ (0, false)
      | so_error e ↦ (conn_errno e, false)
    ]

-- The loop of rcv_sock: the error, 0 once all is received, or `none` while it waits.
unfoldable pub rcv_loop : ℕ → ℤ → List Received → Option ℕ
rcv_loop total len [] = none
rcv_loop total len (r ∷ rs) =
    let len' = len -ℤ (pos total -ℤ pos r.resid) in
    let rest = rcv_loop total len' rs in
    if not r.has_mbuf
    then some epipe
    else if not (r.ret == 0)
    then some r.ret
    else if ltb_ℤ (pos 0) len'
    then rest
    else some 0

-- `sys_pf_errno` and `resp`, where the daemon has sent the response.
unfoldable pub rcv_sock : Layer → Resp → Option (ℕ × Option Resp)
rcv_sock l resp = elim (rcv_loop l.resp_size (pos l.resp_size) l.soreceive) [
  | none ↦ none
  | some e ↦
      if not (e == 0)
      then some (e, none)
      else if l.resp_memory
      then some (0, some resp)
      else some (enomem, none)
]

-- The state of the call when start_sock is done. `crashed` is a use of the socket that is not there.
pub data Exchange : Type 0 where
  answered : ℕ → Option Resp → Exchange
  crashed : Exchange
  waiting : Exchange

unfoldable pub start_sock : Layer → (Req → Resp) → Req → Exchange
start_sock l daemon req =
    let (errno, has_so) = listen_sock l in
    if not (errno == 0)
    then answered errno none
    else if not has_so
    then crashed
    else if not (l.sosend == 0)
    then answered l.sosend none
    else elim (rcv_sock l (daemon req)) [ none ↦ waiting | some (e, resp) ↦ answered e resp ]
