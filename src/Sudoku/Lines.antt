-- ===== src/Sudoku/Lines.antt =====
-- What the check accepts: every row and every column has each of its nine elements once.
use cprogramming.Prelude.{
  ℕ, zero, suc, ◌+◌, ◌≤◌, ◌<◌, ◌≡◌, ◌≢◌, ◌↔◌, ◌∙◌, ap, sym, refl, subst, ◌⊎◌, inl, inr, arith, Bool,
  true, false, List, length, get_or, set, length-set, get_or-set_self, get_or-set_ne, ℤ, pos,
  negsuc, eq_ℤ, eq_ℤ→≡, Bool-cases, pos_part, neg_part,
}
use cprogramming.Sudoku.{check_elem, slot, check_values, values_from}

-- An element from 1 to 9.
abbrev pub InRange : ℤ → Type 0
InRange v = (v ≡ pos (suc (slot v))) × (slot v < 9)

check_elem-InRange : (v : ℤ) → check_elem v ≡ true → InRange v
unfolding check_elem
check_elem-InRange (pos n) h = (ap pos (ground arith), ground arith)
check_elem-InRange (negsuc n) h = absurd (ground arith)

InRange-check_elem : (v : ℤ) → InRange v → check_elem v ≡ true
unfolding check_elem
InRange-check_elem (pos n) h = ground (arith, ap pos_part h.0)
InRange-check_elem (negsuc n) h = absurd (ground (arith, ap neg_part h.0))

-- The `n` values of `f` from `i` on are new: in range, not seen before, and all different.
pub record IsNew (total : List ℤ) (f : ℕ → ℤ) (i n : ℕ) : Type 0 where
  pub ranged : (j : ℕ) → i ≤ j → j < i + n → InRange (f j)
  pub unseen : (j : ℕ) → i ≤ j → j < i + n → get_or total (slot (f j)) (pos 0) ≡ pos 0
  pub apart : (j k : ℕ) → i ≤ j → j < k → k < i + n → f j ≢ f k

pub first_or_later : (i j : ℕ) → i ≤ j → (j ≡ i) ⊎ (suc i ≤ j)
first_or_later i j h = ground arith

slots_differ : (v w : ℤ) → InRange v → InRange w → v ≢ w → slot v ≢ slot w
slots_differ v w p q n e = n (p.0 ∙ ap (λ k. pos (suc k)) e ∙ sym q.0)

module _ (total : List ℤ) (nine : length total ≡ 9) (f : ℕ → ℤ) (i n : ℕ) where
  abbrev seen : List ℤ
  seen = set total (slot (f i)) (f i)

  -- A later value that the new table has not seen is in another slot.
  other_slot : (v : ℤ) → InRange (f i) → get_or seen (slot v) (pos 0) ≡ pos 0 → slot (f i) ≢ slot v
  other_slot v r h e = absurd (
      nonzero (
        sym r.0
        ∙ sym (get_or-set_self total (slot (f i)) (f i) (pos 0) (omega (arith, nine, r.1)))
        ∙ ap (λ k. get_or seen k (pos 0)) e
        ∙ h))
    where
      nonzero : {k : ℕ} → pos (suc k) ≡ pos 0 → ⊥
      nonzero h = ground (arith, ap pos_part h)

  IsNew-suc :
      InRange (f i)
      → get_or total (slot (f i)) (pos 0) ≡ pos 0
      → IsNew seen f (suc i) n
      → IsNew total f i (suc n)
  IsNew-suc r u w = record {
    ranged = λ j p q. elim (first_or_later i j p) [
      | inl e ↦ subst (λ k. InRange (f k)) (sym e) r
      | inr l ↦ w.ranged j l (omega arith)
    ];
    unseen = λ j p q. elim (first_or_later i j p) [
      | inl e ↦ subst (λ k. get_or total (slot (f k)) (pos 0) ≡ pos 0) (sym e) u
      | inr l ↦
          let h = w.unseen j l (omega arith) in
          sym (get_or-set_ne total (slot (f i)) (slot (f j)) (f i) (pos 0) (other_slot (f j) r h))
          ∙ h
    ];
    apart = λ j k p q t. elim (first_or_later i j p) [
      | inl e ↦
          subst (λ m. f m ≢ f k) (sym e)
            (λ same. other_slot (f k) r (w.unseen k (omega arith) (omega arith)) (ap slot same))
      | inr l ↦ w.apart j k l q (omega arith)
    ];
  }

  IsNew-rest : IsNew total f i (suc n) → IsNew seen f (suc i) n
  IsNew-rest w = record {
    ranged = λ j p q. w.ranged j (omega arith) (omega arith);
    unseen = λ j p q.
        get_or-set_ne total (slot (f i)) (slot (f j)) (f i) (pos 0) (
          slots_differ (f i) (f j) (w.ranged i (omega arith) (omega arith))
            (w.ranged j (omega arith) (omega arith)) (w.apart i j (omega arith) p (omega arith)))
        ∙ w.unseen j (omega arith) (omega arith);
    apart = λ j k p q t. w.apart j k (omega arith) q (omega arith);
  }

pub check_values-IsNew :
    (n : ℕ) (total : List ℤ) (f : ℕ → ℤ) (i : ℕ)
    → length total ≡ 9
    → (check_values total (values_from f i n) ≡ true) ↔ IsNew total f i n
unfolding check_values values_from
check_values-IsNew zero total f i nine = (
  λ _. record {
    ranged = λ j p q. absurd (omega arith);
    unseen = λ j p q. absurd (omega arith);
    apart = λ j k p q t. absurd (omega arith);
  },
  λ _. refl,
)
check_values-IsNew (suc n) total f i nine =
    let more =
      check_values-IsNew n (seen total nine f i n) f (suc i)
        (length-set total (slot (f i)) (f i) ∙ nine) in
    elim (Bool-cases (check_elem (f i))) [
      | inr out ↦ rw out (
        λ h. absurd (ground arith),
        λ w.
            absurd
              (unequal out (InRange-check_elem (f i) (w.ranged i (omega arith) (omega arith)))),
      )
      | inl fine ↦ elim (Bool-cases (eq_ℤ (get_or total (slot (f i)) (pos 0)) (pos 0))) [
        | inr twice ↦
            rw (fine, twice)
              (
                λ h. absurd (ground arith),
                λ w. absurd (unequal (rw (w.unseen i (omega arith) (omega arith)) at twice) refl),
              )
        | inl new ↦
            rw (fine, new)
              (
                λ h.
                    IsNew-suc total nine f i n (check_elem-InRange (f i) fine) (eq_ℤ→≡ _ _ new)
                      (more.0 h),
                λ w. more.1 (IsNew-rest total nine f i n w),
              )
      ]
    ]
  where
    unequal : {c : Bool} → c ≡ false → c ≡ true → ⊥
    unequal p q = cc
