-- ===== src/Pfexec/Daemon/Response.antt =====
-- pfexecd.c: craft_response, process_request, and what on_client_readable sends.
use cprogramming.Prelude.{
  ℕ, zero, suc, ◌+◌, ◌-◌, Bool, true, false, not, ◌&&◌, Option, none, some, List, [], ◌∷◌, ◌++◌,
  ◌==◌, ltb, leb, if◌then◌else◌, get_or, set, length, take, bit_or, ℤ, pos, negsuc,
}
use cprogramming.Pfexec.Packet.{
  Limits, Text, zero_arg, Req, Resp, eperm, einval, pfresp_uid, pfresp_gid, pfresp_groups,
  pfresp_chroot, pfexecve_noprompt,
}
use cprogramming.Pfexec.Packet.Strings.{c_string, drop, string_at, put_bytes}
use cprogramming.Pfexec.Kernel.Request.{Filling, size_sub, replicate}
use cprogramming.Pfexec.Kernel.Call.{var_empty}
use cprogramming.Pfexec.Daemon.{
  Passwd, Rule, Users, deny, nopass, nolog, keepgrp, chroot_option, parseuid, parsegid,
  prompt_password, malformed, last_match, has,
}

-- envarea_convert from `i` on, with `n` to go.
unfoldable pub envarea_convert : Req → ℕ → ℕ → List Text
envarea_convert req i zero = []
envarea_convert req i (suc n) =
    string_at req.pfr_envarea (get_or req.pfr_envp i zero_arg).pfa_offset
    ∷ envarea_convert req (suc i) n

-- `strlcpy` into so many bytes: what it writes.
abbrev strlcpy_bytes : Text → ℕ → Text
strlcpy_bytes s zero = []
strlcpy_bytes s (suc room) = take room s ++ (0 ∷ [])

-- One round of envarea_destroy_revert. `max - len` is handed over as a `size_t`.
unfoldable pub revert_one : Filling → Text → Filling
revert_one f s = record {
  count = f.count + 1;
  max = f.max - (length s + 1);
  len = f.len + (length s + 1);
  refs = set f.refs f.count (record { pfa_offset = f.len; pfa_len = length s + 1 });
  area = put_bytes f.area f.len (strlcpy_bytes s (size_sub f.max f.len));
  within =
      f.within && leb (f.len + length (strlcpy_bytes s (size_sub f.max f.len))) (length f.area);
}

unfoldable pub revert_strings : List Text → Filling → Filling
revert_strings [] f = f
revert_strings (s ∷ ss) f =
    if ltb f.count 1024 && ltb 0 f.max then revert_strings ss (revert_one f s) else f

unfoldable pub envarea_destroy_revert : ℕ → List Text → Resp → Resp
envarea_destroy_revert arg_max env resp =
    let f = revert_strings env (record {
      count = 0;
      max = arg_max;
      len = 0;
      refs = resp.pfr_envp;
      area = resp.pfr_envarea;
      within = true;
    }) in
    record resp { pfr_envp = f.refs; pfr_envarea = set f.area (arg_max - 1) 0; pfr_envc = f.count }

abbrev same_group : Option ℕ → ℕ → Bool
same_group none g = false
same_group (some h) g = h == g

-- The loops of get_groups from place `i` on, where `last` is the group before: a group that is the
-- same as the one before it is not written, and its place is skipped.
unfoldable pub spread_groups : Option ℕ → ℕ → List ℕ → List ℕ → List ℕ
spread_groups last i [] target = target
spread_groups last i (g ∷ gs) target =
    spread_groups (some g) (suc i) gs (if same_group last g then target else set target i g)

unfoldable pub get_groups : Limits → Users → Passwd → Resp → Resp
get_groups l u pw resp =
    let groups = take (l.ngroups_max + 1) (u.getgrouplist pw.pw_name pw.pw_gid) in
    record resp {
      pfr_groups = spread_groups none 0 groups resp.pfr_groups;
      pfr_ngroups = length groups;
    }

-- The groups of a rule from place `gs` on, with `n` places to go. A name that is not found leaves its
-- place as it is.
unfoldable pub set_groups : Users → ℕ → ℕ → List Text → Resp → Resp
set_groups u gs zero names resp = record resp { pfr_ngroups = gs }
set_groups u gs (suc n) [] resp = record resp { pfr_ngroups = gs }
set_groups u gs (suc n) (name ∷ names) resp =
    let (found, gid) = parsegid u name in
    set_groups u (suc gs) n names (
      if found
      then record resp {
        pfr_groups = set resp.pfr_groups gs gid;
        pfr_gid = if gs == 0 then gid else resp.pfr_gid;
      }
      else resp)

unfoldable pub rule_groups : Limits → Users → Option (List Text) → Resp → Resp
rule_groups l u none resp = resp
rule_groups l u (some names) resp =
    let resp' = set_groups u 0 l.ngroups_max names resp in
    record resp' { pfr_flags = bit_or (bit_or resp'.pfr_flags pfresp_gid) pfresp_groups }

unfoldable pub keep_groups : Limits → Req → Rule → Resp → Resp
keep_groups l req r resp =
    let n = if ltb req.pfr_ngroups l.ngroups_max then req.pfr_ngroups else l.ngroups_max in
    if has r.options keepgrp
    then record resp {
      pfr_groups = take n req.pfr_groups ++ drop n resp.pfr_groups;
      pfr_gid = req.pfr_gid;
      pfr_ngroups = n;
    }
    else resp

unfoldable pub default_groups : Limits → Users → Passwd → Resp → Resp
default_groups l u pw resp =
    let resp' = get_groups l u pw resp in
    if resp.pfr_ngroups == 0
    then record resp' { pfr_flags = bit_or (bit_or resp'.pfr_flags pfresp_gid) pfresp_groups }
    else resp

-- The default is given its own size.
abbrev chroot_bytes : ℕ → Option Text → Text
chroot_bytes path_max none = strlcpy_bytes var_empty (length var_empty + 1)
chroot_bytes path_max (some path) = strlcpy_bytes path path_max

unfoldable pub rule_chroot : Limits → Rule → Resp → Resp
rule_chroot l r resp =
    if has r.options chroot_option
    then record resp {
      pfr_chroot = put_bytes resp.pfr_chroot 0 (chroot_bytes l.path_max r.chroot);
      pfr_flags = bit_or resp.pfr_flags pfresp_chroot;
    }
    else resp

-- For a target that the user database has.
unfoldable pub response_for : Limits → Users → Req → Rule → Passwd → Resp → Resp
response_for l u req r pw resp =
    let n = if ltb 1024 req.pfr_envc then 1024 else req.pfr_envc in
    let env = u.prepenv r (c_string req.pfr_req_user) pw (envarea_convert req 0 n) in
    let resp1 =
      envarea_destroy_revert l.arg_max env
        (record resp { pfr_flags = bit_or resp.pfr_flags pfresp_uid }) in
    let resp2 = record resp1 { pfr_uid = pw.pw_uid; pfr_gid = pw.pw_gid } in
    rule_chroot l r (default_groups l u pw (keep_groups l req r (rule_groups l u r.grplist resp2)))

-- `none` is the use of the null pointer that there is for a target without an entry.
unfoldable pub craft_response : Limits → Users → Req → Rule → Resp → Option Resp
craft_response l u req r resp =
    let (found, target) = parseuid u (c_string req.pfr_req_user) in
    elim (u.getpwuid target) [ none ↦ none | some pw ↦ some (response_for l u req r pw resp) ]

-- What process_request returns, -1 included, and the response; or the daemon ends.
pub data Processed : Type 0 where
  processed : ℤ → Resp → Processed
  daemon_fault : Processed

abbrev refused : Resp → Processed
refused resp = processed (pos eperm) (record resp { pfr_errno = eperm })

-- By the last rule that matches, if it does not deny.
unfoldable pub permit : Limits → Users → Req → Rule → Resp → Processed
permit l u req r resp =
    if has req.pfr_req_flags pfexecve_noprompt && not (has r.options nopass)
    then processed (pos eperm) resp
    else if not (has r.options nopass) && prompt_password req == 0
    then processed (pos eperm) resp
    else elim (craft_response l u req r resp) [
      | none ↦ daemon_fault
      | some resp' ↦
          processed (if has r.options nolog then negsuc 0 else pos 0)
            (record resp' { pfr_errno = 0 })
    ]

unfoldable pub by_rule : Limits → Users → Req → Option Rule → Resp → Processed
by_rule l u req none resp = refused resp
by_rule l u req (some r) resp = if has r.action deny then refused resp else permit l u req r resp

unfoldable pub process_request : Limits → Users → List Rule → Req → Resp → Processed
process_request l u rules req resp =
    if malformed l req
    then processed (pos einval) resp
    else by_rule l u req (last_match u req none rules) resp

unfoldable pub zero_resp : Limits → Resp
zero_resp l = record {
  pfr_flags = 0;
  pfr_errno = 0;
  pfr_uid = 0;
  pfr_gid = 0;
  pfr_ngroups = 0;
  pfr_groups = replicate l.ngroups_max 0;
  pfr_chroot = replicate l.path_max 0;
  pfr_envc = 0;
  pfr_envp = replicate 1024 zero_arg;
  pfr_envarea = replicate l.arg_max 0;
}

-- The response that on_client_readable sends after process_request, and whether it logs.
abbrev pub sent : Limits → Processed → Option (Resp × Bool)
sent l daemon_fault = none
sent l (processed (pos zero) resp) = some (resp, true)
sent l (processed (pos (suc n)) resp) = some (record (zero_resp l) { pfr_errno = suc n }, true)
sent l (processed (negsuc n) resp) = some (resp, false)

unfoldable pub answer_client : Limits → Users → List Rule → Req → Option (Resp × Bool)
answer_client l u rules req = sent l (process_request l u rules req (zero_resp l))
