-- ===== src/Pfexec/Packet/Refs.antt =====
-- What the tests of references, which the kernel and the daemon share, say of the numbers.
use cprogramming.Prelude.{
  ℕ, zero, suc, ◌+◌, ◌^◌, ◌≤◌, ◌<◌, ◌≡◌, refl, subst, ◌⊎◌, inl, inr, arith, true, false, List,
  get_or, Bool-cases,
}
use cprogramming.Pfexec.Packet.{Arg, zero_arg, bad_ref, some_bad_ref}

-- Its string ends inside of the area.
abbrev pub Fits : ℕ → Arg → Type 0
Fits arg_max a = a.pfa_offset + a.pfa_len < arg_max

bad_ref-Fits :
    (arg_max : ℕ) (a : Arg) → arg_max < 2 ^ 31 → bad_ref arg_max a ≡ false → Fits arg_max a
bad_ref-Fits arg_max a m h = ground arith

pub some_bad_ref-Fits :
    (arg_max : ℕ) (refs : List Arg) (n i j : ℕ)
    → arg_max < 2 ^ 31
    → some_bad_ref arg_max refs i n ≡ false
    → i ≤ j
    → j < i + n
    → Fits arg_max (get_or refs j zero_arg)
unfolding some_bad_ref
some_bad_ref-Fits arg_max refs zero i j m h p q = absurd (omega arith)
some_bad_ref-Fits arg_max refs (suc n) i j m h p q =
    elim (Bool-cases (bad_ref arg_max (get_or refs i zero_arg))) [
      | inl bad ↦ absurd (unequal (rw bad at h))
      | inr good ↦ elim (first_or_later i j p) [
        | inl e ↦
            subst (λ k. Fits arg_max (get_or refs k zero_arg)) e
              (bad_ref-Fits arg_max (get_or refs i zero_arg) m good)
        | inr l ↦ some_bad_ref-Fits arg_max refs n (suc i) j m (rw good at h) l (omega arith)
      ]
    ]
  where
    unequal : true ≡ false → ⊥
    unequal q = cc

    first_or_later : (i j : ℕ) → i ≤ j → (i ≡ j) ⊎ (suc i ≤ j)
    first_or_later i j h = ground arith

pub some_bad_ref-none :
    (arg_max : ℕ) (refs : List Arg) (n i : ℕ)
    → ((j : ℕ) → i ≤ j → j < i + n → bad_ref arg_max (get_or refs j zero_arg) ≡ false)
    → some_bad_ref arg_max refs i n ≡ false
unfolding some_bad_ref
some_bad_ref-none arg_max refs zero i h = refl
some_bad_ref-none arg_max refs (suc n) i h =
    rw (h i (omega arith) (omega arith))
      (some_bad_ref-none arg_max refs n (suc i) (λ j p q. h j (omega arith) (omega arith)))
