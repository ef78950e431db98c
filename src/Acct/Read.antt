-- ===== src/Acct/Read.antt =====
-- Reading and closing the device: acctread, acctclose and ac_seq_reset of acct.c.
pub mod Fifo
use cprogramming.Prelude.{
  ℕ, zero, suc, ◌+◌, ◌-◌, ◌*◌, Bool, Option, none, some, List, [], ◌∷◌, ◌++◌, ◌&&◌, ◌||◌, not, ◌==◌,
  ltb, leb, if◌then◌else◌, min,
}
use cprogramming.Acct.Types.{Msg, einval, ewouldblock, common_size}
use cprogramming.Acct.Kernel.{Kernel}
use cprogramming.Acct.Track.{State}

-- `struct uio`: what acctread looks at, and the transfers done, each as the byte of the message
-- that it begins at, and its length.
pub record Uio : Type 0 where
  pub offset_negative : Bool
  pub uio_resid : ℕ
  pub moved : List (ℕ × ℕ)

-- TAILQ_LAST, and the list without it
unfoldable pub tailq_last {ℓ} : {A : Type ℓ} → List A → Option (List A × A)
tailq_last [] = none
tailq_last (x ∷ xs) = elim (tailq_last xs) [
  | none ↦ some ([], x)
  | some (front, last) ↦ some (x ∷ front, last)
]

-- How the copy loop ends; `stuck` is the model out of rounds.
pub data Copied : Type 0 where
  copied : Uio → Copied
  copy_error : ℕ → Uio → Copied
  stuck : Copied

-- The loop round `uiomove`, whose result for a length is a parameter. `tail->acc + sent` counts in
-- structures, so the transfer begins at byte `sent * sizeof(struct acct_common)`.
unfoldable pub copy_loop : (ℕ → ℕ) → ℕ → (ac_len sent : ℕ) → Uio → Copied
copy_loop uiomove zero ac_len sent u = stuck
copy_loop uiomove (suc fuel) ac_len sent u =
    let len = min (ac_len - sent) u.uio_resid in
    let u' : Uio = record u {
      uio_resid = u.uio_resid - len;
      moved = u.moved ++ ((sent * common_size, len) ∷ []);
    } in
    let next = copy_loop uiomove fuel ac_len (sent + len) u' in
    if u.uio_resid == 0 || leb ac_len sent
    then copied u
    else if uiomove len == 0
    then next
    else copy_error (uiomove len) u

pub data ReadResult (S : Type 0) : Type 0 where
  returned : (errno : ℕ) → S → Uio → ReadResult S
  asleep : S → ReadResult S
  out_of_rounds : ReadResult S

-- The loop that frees the first message until there is none.
free_all : List Msg → List Msg
free_all [] = []
free_all (m ∷ ms) = free_all ms

module _ (K : Kernel) where
  -- The oldest message is at the end of the list. It is freed and unlinked once it is copied. A
  -- failed copy returns with the lock held.
  deliver : (ℕ → ℕ) → State K → List Msg × Msg → Uio → ReadResult (State K)
  deliver uiomove s (front, tail) u =
      elim (copy_loop uiomove (tail.common.ac_len + 2) tail.common.ac_len 0 u) [
        | copied u' ↦ returned 0 (record s { acct_list = front; readers = s.readers - 1 }) u'
        | copy_error e u' ↦ returned e s u'
        | stuck ↦ out_of_rounds
      ]

  -- The wait for a first message, with the lock taken when the list is looked at. Each element of
  -- the list is a wake-up: what `tsleep_nsec` returned, and the driver as it is found then.
  await : (ℕ → ℕ) → List (ℕ × State K) → State K → Uio → ReadResult (State K)
  unfolding deliver
  await uiomove [] s u =
      let locked = record s { readers = s.readers + 1 } in
      elim (tailq_last s.acct_list) [ none ↦ asleep s | some last ↦ deliver uiomove locked last u ]
  await uiomove ((error, woken) ∷ rest) s u =
      let locked = record s { readers = s.readers + 1 } in
      let again = await uiomove rest woken u in
      elim (tailq_last s.acct_list) [
        | none ↦
            if not (error == ewouldblock) && not (error == 0) then returned error woken u else again
        | some last ↦ deliver uiomove locked last u
      ]

  unfoldable pub acctread : (ℕ → ℕ) → List (ℕ × State K) → State K → Uio → ReadResult (State K)
  unfolding await
  acctread uiomove wakes s u =
      if s.ctl.acct_ena == 0 && s.ctl.acct_fcount == 0
      then returned einval s u
      else if u.offset_negative
      then returned einval s u
      else await uiomove wakes s u

  unfoldable pub ac_seq_reset : State K → State K
  ac_seq_reset s = record s { ac_seq = 0 }

  unfoldable pub acctclose : State K → ℕ × State K
  unfolding free_all
  acctclose s = (0, ac_seq_reset (record s { acct_list = free_all s.acct_list }))
