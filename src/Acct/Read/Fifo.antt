-- ===== src/Acct/Read/Fifo.antt =====
-- A read hands over the oldest message, once, and never bytes outside of it.
use cprogramming.Acct.Types.{Msg}
use cprogramming.Acct.Kernel.{Kernel}
use cprogramming.Acct.Track.{State}
use cprogramming.Acct.Log.Sequence.{IsNumbered, FallsBelow}
use cprogramming.Acct.Read.{
  deliver, await, acctread, acctclose, returned, Uio, tailq_last, copy_loop, copied, free_all,
  ac_seq_reset,
}
use cprogramming.Prelude.{
  ℕ, suc, ◌+◌, ◌-◌, ◌≡◌, refl, arith, some, List, [], ◌∷◌, ◌++◌, ◌==◌, ◌||◌, if◌then◌else◌, min,
  ◌≢◌, ap, ◌⊎◌, ◌∙◌, subst, sym, false,
}

-- TAILQ_LAST is the element at the end.
pub tailq_last-append {ℓ} :
    {A : Type ℓ} (front : List A) (x : A) → tailq_last (front ++ (x ∷ [])) ≡ some (front, x)
unfolding tailq_last
tailq_last-append [] x = refl
tailq_last-append (y ∷ front) x = rw (tailq_last-append front x)

none_left : (ms : List Msg) → free_all ms ≡ []
unfolding free_all
none_left [] = refl
none_left (m ∷ ms) = none_left ms

abbrev pub moved_once : Uio → ℕ → Uio
moved_once u len = record u { uio_resid = u.uio_resid - len; moved = u.moved ++ ((0, len) ∷ []) }

-- If `uiomove` succeeds, the loop makes one transfer, from the first byte and of as much as there
-- is and fits, or none if nothing is there or asked for; two rounds and one look suffice.
pub copy_loop_lem :
    (uiomove : ℕ → ℕ) (fuel ac_len : ℕ) (u : Uio)
    → ((n : ℕ) → uiomove n ≡ 0)
    → copy_loop uiomove (suc (suc fuel)) ac_len 0 u
      ≡ copied
          (if u.uio_resid == 0 || ac_len == 0 then u else moved_once u (min ac_len u.uio_resid))
unfolding copy_loop
copy_loop_lem uiomove fuel ac_len u h =
    ground (arith, h (min ac_len u.uio_resid), h (min (ac_len - 0) u.uio_resid))

module _ (K : Kernel) where
  module _ (uiomove : ℕ → ℕ) (works : (n : ℕ) → uiomove n ≡ 0) (front : List Msg) (m : Msg)
      (u : Uio) where
    abbrev handed_over : Uio
    handed_over =
        if u.uio_resid == 0 || m.common.ac_len == 0
        then u
        else moved_once u (min m.common.ac_len u.uio_resid)

    copied_lem : copy_loop uiomove (m.common.ac_len + 2) m.common.ac_len 0 u ≡ copied handed_over
    copied_lem =
        let rounds : m.common.ac_len + 2 ≡ suc (suc m.common.ac_len) = omega arith in
        rw rounds (copy_loop_lem uiomove m.common.ac_len m.common.ac_len u works)

    deliver_lem :
        (s : State K)
        → deliver K uiomove (record s { readers = s.readers + 1 }) (front, m) u
          ≡ returned 0 (record s { acct_list = front }) handed_over
    unfolding deliver
    deliver_lem s = rw (copied_lem, deliver) (ground arith)

    await_lem :
        (wakes : List (ℕ × State K)) (s : State K)
        → s.acct_list ≡ front ++ (m ∷ [])
        → await K uiomove wakes s u ≡ returned 0 (record s { acct_list = front }) handed_over
    unfolding await
    await_lem [] s e = rw (ap tailq_last e ∙ tailq_last-append front m, await) (deliver_lem s)
    await_lem (w ∷ wakes) s e =
        rw (ap tailq_last e ∙ tailq_last-append front m, await) (deliver_lem s)

  -- A read with something queued, the device on and `uiomove` succeeding returns 0 at once, without
  -- waiting. It transfers the front of the oldest message, as much as was asked for, in one piece,
  -- and takes that message off the list whole, also where it was asked for less; nothing else is
  -- taken, and the lock is given back.
  pub acctread_oldest :
      (uiomove : ℕ → ℕ) (wakes : List (ℕ × State K)) (s : State K) (u : Uio) (front : List Msg)
      (m : Msg)
      → ((n : ℕ) → uiomove n ≡ 0)
      → (s.ctl.acct_ena ≢ 0) ⊎ (s.ctl.acct_fcount ≢ 0)
      → u.offset_negative ≡ false
      → s.acct_list ≡ front ++ (m ∷ [])
      → acctread K uiomove wakes s u
        ≡ returned 0
            (record s { acct_list = front })
            (if u.uio_resid == 0 || m.common.ac_len == 0
              then u
              else moved_once u (min m.common.ac_len u.uio_resid))
  unfolding acctread
  acctread_oldest uiomove wakes s u front m works on at_start e =
      ground (arith, await_lem uiomove works front m u wakes s e)

  -- Closing the device empties the queue and starts the numbers again at 0, in order; what is
  -- enabled and tracked stays.
  pub acctclose_lem :
      (s : State K)
      → ((acctclose K s).0 ≡ 0)
        × ((acctclose K s).1 ≡ record s { acct_list = []; ac_seq = 0 })
        × IsNumbered K (acctclose K s).1
  unfolding acctclose ac_seq_reset free_all
  acctclose_lem s = (
    refl,
    ap (λ l. record s { acct_list = l; ac_seq = 0 }) (none_left s.acct_list),
    subst (FallsBelow 0) (sym (none_left s.acct_list)) tt,
  )
