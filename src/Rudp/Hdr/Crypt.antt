-- ===== src/Rudp/Hdr/Crypt.antt =====
-- RHdr.h, encrypt and decrypt: what is encrypted comes back.
use cprogramming.Prelude.{
  ℕ, zero, suc, ◌<◌, ◌≡◌, refl, sym, ◌∙◌, ap, subst, arith, ◌⊎◌, inl, inr, Bool, true, false, ◌&&◌,
  List, [], ◌∷◌, ◌==◌, Bool-cases, ==→≡, ==→≢,
}
use cprogramming.Rudp.Hdr.{
  key_n, key_d, key_e, powr, powr_loop, compute_crypt, computer_loop, rhdr_computer_internal,
  crypt_both, carry_around_add, Compute, encrypt, decrypt,
}

abbrev all_below : ℕ → (ℕ → Bool) → Bool
all_below zero p = true
all_below (suc n) p = p n && all_below n p

and_left : (a b : Bool) → a && b ≡ true → a ≡ true
and_left a b h = ground arith

and_right : (a b : Bool) → a && b ≡ true → b ≡ true
and_right a b h = ground arith

all_below-each : (n : ℕ) (p : ℕ → Bool) (k : ℕ) → all_below n p ≡ true → k < n → p k ≡ true
all_below-each zero p k h lt = absurd (omega arith)
all_below-each (suc n) p k h lt = elim (last_or_before k n lt) [
  | inl e ↦ subst (λ i. p i ≡ true) (sym e) (and_left (p n) (all_below n p) h)
  | inr before ↦ all_below-each n p k (and_right (p n) (all_below n p) h) before
]
  where
    last_or_before : (k n : ℕ) → k < suc n → (k ≡ n) ⊎ (k < n)
    last_or_before k n h = ground arith

abbrev back : ℕ → Bool
back c = compute_crypt (compute_crypt c key_e key_n) key_d key_n == c

all_back : all_below 249 back ≡ true
unfolding compute_crypt powr powr_loop
all_back = refl

compute_crypt-back : (c : ℕ) → c < 249 → compute_crypt (compute_crypt c key_e key_n) key_d key_n ≡ c
compute_crypt-back c h = ==→≡ _ _ (all_below-each 249 back c all_back h)

zero_back : compute_crypt 0 key_d key_n ≡ 0
unfolding compute_crypt powr powr_loop
zero_back = refl

compute_crypt-nonzero :
    (c : ℕ) → c < 249 → c == 0 ≡ false → compute_crypt c key_e key_n == 0 ≡ false
compute_crypt-nonzero c h n = elim (Bool-cases (compute_crypt c key_e key_n == 0)) [
  | inr other ↦ other
  | inl nothing ↦ absurd (
      ==→≢ c 0 n (
        sym (compute_crypt-back c h)
        ∙ ap (λ k. compute_crypt k key_d key_n) (==→≡ _ _ nothing)
        ∙ zero_back))
]

abbrev pub AllBelow : ℕ → List ℕ → Type 0
AllBelow n [] = Unit {0}
AllBelow n (c ∷ s) = (c < n) × AllBelow n s

-- One round of the loop, and its end at a NUL.
module _ (f : Compute) (a c1 c2 : ℕ) (msg : List ℕ) where
  loop_stop : c1 == 0 ≡ true → (computer_loop f a (c1 ∷ c2 ∷ msg)).1 ≡ c1 ∷ c2 ∷ msg
  unfolding computer_loop
  loop_stop stop = rw stop

  loop_go :
      c1 == 0 ≡ false
      → (computer_loop f a (c1 ∷ c2 ∷ msg)).1
        ≡ (f c1 c2).1 ∷ (f c1 c2).2 ∷ (computer_loop f (carry_around_add a (f c1 c2).0) msg).1
  unfolding computer_loop
  loop_go go = rw go

loop_back :
    (msg : List ℕ) (a b : ℕ)
    → AllBelow 249 msg
    → (computer_loop (crypt_both key_d) b (computer_loop (crypt_both key_e) a msg).1).1 ≡ msg
loop_back [] a b h = unfold computer_loop in refl
loop_back (c ∷ []) a b h = unfold computer_loop in refl
loop_back (c1 ∷ c2 ∷ msg) a b h = elim (Bool-cases (c1 == 0)) [
  | inl stop ↦
      rw (loop_stop (crypt_both key_e) a c1 c2 msg stop)
        (loop_stop (crypt_both key_d) b c1 c2 msg stop)
  | inr go ↦ rw (
    loop_go (crypt_both key_e) a c1 c2 msg go,
    loop_go (crypt_both key_d) b _ _ _ (compute_crypt-nonzero c1 h.0 go),
    compute_crypt-back c1 h.0,
    compute_crypt-back c2 h.1.0,
    loop_back msg (carry_around_add a 0) (carry_around_add b 0) h.1.1,
  )
]

-- A message whose bytes are all below 249, the modulus of the key, comes back from its encryption.
pub decrypt-encrypt : (msg : List ℕ) → AllBelow 249 msg → decrypt (encrypt msg) ≡ msg
unfolding decrypt encrypt rhdr_computer_internal
decrypt-encrypt msg h = loop_back msg 0 0 h
