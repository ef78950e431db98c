-- ===== src/Acct/Ioctl/Tracking.antt =====
-- ACCT_IOC_TRACK_FILE, ACCT_IOC_FSTATUS and ACCT_IOC_UNTRACK_FILE together, and the count of files.
use cprogramming.Prelude.{
  ℕ, ◌+◌, ◌%◌, ◌^◌, ◌<◌, ◌≡◌, ◌≢◌, refl, inl, inr, arith, none, some, bit_and, bit_or, Option-cases,
  if◌then◌else◌, ◌∙◌,
}
use cprogramming.Acct.Types.{Bytes, Vnode, TrkNode, Ctl, enoent}
use cprogramming.Acct.Kernel.{Kernel, TreeLaws, same, same-mod}
use cprogramming.Acct.Track.{
  State, path_to_vnode, trktree_vnodelookup, trktree_pathlookup, trktree_add_path,
  trktree_add_vnode, trktree_add_vnode_unlocked, trktree_pathremove, trkvnode_new,
}
use cprogramming.Acct.Track.Laws.{lookup-add_vnode, key-add_vnode, lookup-vnoderemove}
use cprogramming.Acct.Track.Counting.{IsCounted, add_path-IsCounted, pathremove-IsCounted}
use cprogramming.Acct.Ioctl.{
  Cmd, status, fstatus, enable, disable, track_file, untrack_file, other, fionread, fionbio,
  add_marks, acctioctl, ioctl_track, f_ena,
}

-- The marks that the file under a vnode has, if any, or 0.
abbrev pub ena_of : (K : Kernel) → State K → Vnode → ℕ
ena_of K s v = elim (trktree_vnodelookup K s v) [ none ↦ 0 | some n ↦ n.trk_ena ]

abbrev pub cond_of : (K : Kernel) → State K → Vnode → ℕ
cond_of K s v = elim (trktree_vnodelookup K s v) [ none ↦ 0 | some n ↦ n.trk_flags ]

abbrev tracked : (K : Kernel) → State K → Ctl → Vnode → ℕ × Ctl × State K
tracked K s c v =
    let (n, s') = trktree_add_vnode_unlocked K s v c.acct_path in
    let n' = add_marks c.acct_ena c.acct_cond n in
    (
      0,
      record c {
        acct_ena = n'.trk_ena;
        acct_cond = n'.trk_flags;
        acct_fcount = s'.ctl.acct_fcount;
      },
      record s' { f_tracker = K.store n.trkvnode (add_marks c.acct_ena c.acct_cond) s'.f_tracker },
    )

module _ (K : Kernel) (L : TreeLaws K) where
  -- The new node is found under its own key.
  here :
      (s : State K) (v : Vnode) (path : Bytes)
      → let (n, s') = trktree_add_vnode_unlocked K s v path in
        K.find n.trkvnode s'.f_tracker ≡ some n
  unfolding trktree_vnodelookup
  here s v path =
      let n = (trktree_add_vnode_unlocked K s v path).0 in
      ground (
        arith,
        lookup-add_vnode K L s v path n.trkvnode,
        key-add_vnode K L s v path,
        same-mod v n.trkvnode,
        same-mod n.trkvnode v,
      )

  -- The node that an addition returns has the marks that the file had before.
  marks-add_vnode :
      (s : State K) (v : Vnode) (path : Bytes)
      → ((trktree_add_vnode_unlocked K s v path).0.trk_ena ≡ ena_of K s v)
        × ((trktree_add_vnode_unlocked K s v path).0.trk_flags ≡ cond_of K s v)
  unfolding trktree_add_vnode_unlocked trktree_vnodelookup trkvnode_new
  marks-add_vnode s v path = elim (Option-cases (K.find v s.f_tracker)) [
    | inl e ↦ ground (arith, L.insert-fresh (trkvnode_new v path) s.f_tracker e)
    | inr (n, e) ↦ ground (arith, L.insert-found (trkvnode_new v path) n s.f_tracker e)
  ]

  add_path_lem :
      (s : State K) (v : Vnode) (path : Bytes)
      → path_to_vnode K path ≡ some v
      → trktree_add_path K s path ≡ (
        some (trktree_add_vnode_unlocked K s v path).0,
        (trktree_add_vnode_unlocked K s v path).1,
      )
  unfolding trktree_add_path trktree_add_vnode
  add_path_lem s v path e = rw e

  -- What the ioctl does, once the path is looked up.
  track_file_lem :
      (s : State K) (c : Ctl) (v : Vnode)
      → path_to_vnode K c.acct_path ≡ some v
      → acctioctl K track_file c s ≡ tracked K s c v
  unfolding acctioctl ioctl_track
  track_file_lem s c v e =
      rw (add_path_lem s v c.acct_path e, ioctl_track, add_path_lem s v c.acct_path e)

  pathlookup_lem :
      (s : State K) (path : Bytes) (v : Vnode)
      → path_to_vnode K path ≡ some v
      → trktree_pathlookup K s path ≡ trktree_vnodelookup K s v
  unfolding trktree_pathlookup
  pathlookup_lem s path v e = rw (e, trktree_pathlookup)

  pathlookup_none :
      (s : State K) (path : Bytes)
      → path_to_vnode K path ≡ none
      → trktree_pathlookup K s path ≡ none
  unfolding trktree_pathlookup
  pathlookup_none s path e = rw (e, trktree_pathlookup)

  fstatus_lem :
      (s : State K) (d : Ctl) (v : Vnode) (n : TrkNode)
      → path_to_vnode K d.acct_path ≡ some v
      → trktree_vnodelookup K s v ≡ some n
      → acctioctl K fstatus d s ≡ (
        0,
        record d { acct_ena = n.trk_ena; acct_cond = n.trk_flags; acct_fcount = s.ctl.acct_fcount },
        s,
      )
  unfolding acctioctl
  fstatus_lem s d v n e found = rw (pathlookup_lem s d.acct_path v e ∙ found, acctioctl)

  lookup-tracked :
      (s : State K) (c : Ctl) (v : Vnode)
      → trktree_vnodelookup K (tracked K s c v).2 v
        ≡ some (add_marks c.acct_ena c.acct_cond (trktree_add_vnode_unlocked K s v c.acct_path).0)
  unfolding trktree_vnodelookup
  lookup-tracked s c v =
      let n = (trktree_add_vnode_unlocked K s v c.acct_path).0 in
      let s' = (trktree_add_vnode_unlocked K s v c.acct_path).1 in
      let key = key-add_vnode K L s v c.acct_path in
      ground (
        arith,
        key,
        L.find-store v n.trkvnode (add_marks c.acct_ena c.acct_cond) n s'.f_tracker (λ m. refl)
            (here s v c.acct_path),
      )

  -- Where the first 48 bytes of a path, which are all that path_to_vnode looks up, name a file,
  -- tracking the path succeeds and adds the marks asked for to those that this file had, of the
  -- events only the four on files. ACCT_IOC_FSTATUS for the same path then finds these marks,
  -- and changes nothing.
  pub track_fstatus :
      (s : State K) (c d : Ctl) (v : Vnode)
      → path_to_vnode K c.acct_path ≡ some v
      → d.acct_path ≡ c.acct_path
      → let (errno, c', s') = acctioctl K track_file c s in
        let (errno', d', s'') = acctioctl K fstatus d s' in
        (errno ≡ 0)
        × (c'.acct_ena ≡ bit_or (ena_of K s v) (bit_and c.acct_ena f_ena) % 256)
        × (c'.acct_cond ≡ bit_or (cond_of K s v) c.acct_cond % 256)
        × (errno' ≡ 0)
        × (d'.acct_ena ≡ c'.acct_ena)
        × (d'.acct_cond ≡ c'.acct_cond)
        × (s'' ≡ s')
  track_fstatus s c d v e same_path =
      let marks = marks-add_vnode s v c.acct_path in
      let found = lookup-tracked s c v in
      let again = fstatus_lem (tracked K s c v).2 d v _ (rw same_path e) found in
      rw (track_file_lem s c v e, again)
        (refl, ground (arith, marks), ground (arith, marks), refl, refl, refl, refl)

  no_path :
      (s : State K) (path : Bytes)
      → path_to_vnode K path ≡ none
      → trktree_add_path K s path ≡ (none, s)
  unfolding trktree_add_path trktree_add_vnode
  no_path s path e = rw e

  -- Where the first 48 bytes of a path, which are all that path_to_vnode looks up, name a file,
  -- untracking the path leaves this file untracked and every other one as it was, whatever marks
  -- were asked for; the marks handed back are those of the device, and no conditions.
  pub untrack_file_lem :
      (s : State K) (c : Ctl) (v k : Vnode)
      → path_to_vnode K c.acct_path ≡ some v
      → let (errno, c', s') = acctioctl K untrack_file c s in
        (errno ≡ 0)
        × (trktree_vnodelookup K s' k ≡ (if same k v then none else trktree_vnodelookup K s k))
        × (c'.acct_ena ≡ s.ctl.acct_ena)
        × (c'.acct_cond ≡ 0)
  unfolding acctioctl trktree_pathremove
  untrack_file_lem s c v k e =
      (refl, rw (e, trktree_pathremove) (lookup-vnoderemove K L s v k), refl, refl)

  -- A path whose first 48 bytes name no file cannot be tracked or untracked: the driver is unchanged, and tracking
  -- says ENOENT where untracking and asking say nothing.
  pub no_such_path :
      (s : State K) (c : Ctl)
      → path_to_vnode K c.acct_path ≡ none
      → ((acctioctl K track_file c s).0 ≡ enoent)
        × ((acctioctl K track_file c s).2 ≡ s)
        × ((acctioctl K untrack_file c s).0 ≡ 0)
        × ((acctioctl K untrack_file c s).2 ≡ s)
        × ((acctioctl K fstatus c s).0 ≡ 0)
        × ((acctioctl K fstatus c s).2 ≡ s)
  unfolding acctioctl ioctl_track trktree_pathremove
  no_such_path s c e =
      let gone = no_path s c.acct_path e in
      (
        rw (gone, ioctl_track),
        rw (gone, ioctl_track, gone),
        refl,
        rw (e, trktree_pathremove),
        rw (pathlookup_none s c.acct_path e, acctioctl),
        rw (pathlookup_none s c.acct_path e, acctioctl),
      )

  track_file-IsCounted :
      (s : State K) (c : Ctl)
      → IsCounted K s
      → s.ctl.acct_fcount + 1 < 2 ^ 64
      → IsCounted K (acctioctl K track_file c s).2
  unfolding acctioctl ioctl_track
  track_file-IsCounted s c h room = elim (Option-cases (trktree_add_path K s c.acct_path).0) [
    | inl e ↦ rw (e, ioctl_track) (add_path-IsCounted K L s c.acct_path h room)
    | inr (n, e) ↦ rw (e, ioctl_track, L.length-store) (add_path-IsCounted K L s c.acct_path h room)
  ]

  -- Every ioctl but ACCT_IOC_DISABLE keeps `acct_fcount` the number of tracked files.
  pub acctioctl-IsCounted :
      (cmd : Cmd) (s : State K) (c : Ctl)
      → cmd ≢ disable
      → IsCounted K s
      → s.ctl.acct_fcount + 1 < 2 ^ 64
      → IsCounted K (acctioctl K cmd c s).2
  unfolding acctioctl
  acctioctl-IsCounted fionread s c ne h room = h
  acctioctl-IsCounted fionbio s c ne h room = h
  acctioctl-IsCounted status s c ne h room = h
  acctioctl-IsCounted fstatus s c ne h room =
      elim (Option-cases (trktree_pathlookup K s c.acct_path)) [
        | inl e ↦ rw (e, acctioctl) h
        | inr (n, e) ↦ rw (e, acctioctl) h
      ]
  acctioctl-IsCounted enable s c ne h room = h
  acctioctl-IsCounted disable s c ne h room = absurd (ne refl)
  acctioctl-IsCounted track_file s c ne h room = track_file-IsCounted s c h room
  acctioctl-IsCounted untrack_file s c ne h room = pathremove-IsCounted K L s c.acct_path h
  acctioctl-IsCounted other s c ne h room = h
