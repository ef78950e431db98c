-- ===== src/Rudp/Hdr/Sum.antt =====
-- RHdr.h: the check sum of a message, and which changes of the message it shows.
use cprogramming.Prelude.{
  ℕ, ◌+◌, ◌-◌, ◌≤◌, ◌<◌, ◌≡◌, ◌≢◌, refl, sym, ◌∙◌, arith, inl, inr, true, false, List, [], ◌∷◌,
  ◌++◌, ◌==◌, Bool-cases, ≢→==,
}
use cprogramming.Rudp.Hdr.{
  RHdr, computer_chksum, carry_around_add, computer_loop, rhdr_computer_internal,
  rhdr_computer_chksum, valid_chksum, Compute, flag_validate,
}

carry-le : (s v : ℕ) → carry_around_add s v ≤ 65535
unfolding carry_around_add
carry-le s v = omega arith

carry_pos : (s v : ℕ) → s ≤ 65535 → v ≤ 65535 → 0 < s + v → 0 < carry_around_add s v
unfolding carry_around_add
carry_pos s v hs hv p = omega arith

carry_same_value :
    (s v w : ℕ)
    → s ≤ 65535
    → 0 < v
    → v ≤ 65535
    → 0 < w
    → w ≤ 65535
    → carry_around_add s v ≡ carry_around_add s w
    → v ≡ w
unfolding carry_around_add
carry_same_value s v w hs pv hv pw hw e = omega arith

carry_same_sum :
    (s t v : ℕ)
    → 0 < s
    → s ≤ 65535
    → 0 < t
    → t ≤ 65535
    → v ≤ 65535
    → carry_around_add s v ≡ carry_around_add t v
    → s ≡ t
unfolding carry_around_add
carry_same_sum s t v ps hs pt ht hv e = omega arith

word-le : (c1 c2 : ℕ) → computer_chksum c1 c2 ≤ 65535
unfolding computer_chksum
word-le c1 c2 = ground arith

word_pos : (c1 c2 : ℕ) → 0 < c1 → c1 < 256 → 0 < computer_chksum c1 c2
unfolding computer_chksum
word_pos c1 c2 p h = ground arith

same_word :
    (c1 c2 d1 d2 : ℕ)
    → c1 < 256
    → c2 < 256
    → d1 < 256
    → d2 < 256
    → computer_chksum c1 c2 ≡ computer_chksum d1 d2
    → (c1 ≡ d1) × (c2 ≡ d2)
unfolding computer_chksum
same_word c1 c2 d1 d2 h1 h2 k1 k2 e = (ground arith, ground arith)

abbrev word_sum : Compute
word_sum c1 c2 = (computer_chksum c1 c2, c1, c2)

abbrev sum_from : ℕ → List ℕ → ℕ
sum_from s msg = (computer_loop word_sum s msg).0

module _ (s c1 c2 : ℕ) (msg : List ℕ) where
  sum_stop : c1 == 0 ≡ true → sum_from s (c1 ∷ c2 ∷ msg) ≡ s
  unfolding computer_loop
  sum_stop stop = rw (sum_from, stop)

  sum_go :
      c1 == 0 ≡ false
      → sum_from s (c1 ∷ c2 ∷ msg) ≡ sum_from (carry_around_add s (computer_chksum c1 c2)) msg
  unfolding computer_loop
  sum_go go = rw (sum_from, go)

sum_from-le : (msg : List ℕ) (s : ℕ) → s ≤ 65535 → sum_from s msg ≤ 65535
sum_from-le [] s h = unfold computer_loop in h
sum_from-le (c ∷ []) s h = unfold computer_loop in h
sum_from-le (c1 ∷ c2 ∷ msg) s h = elim (Bool-cases (c1 == 0)) [
  | inl stop ↦ rw (sum_stop s c1 c2 msg stop) h
  | inr go ↦ rw (sum_go s c1 c2 msg go) (sum_from-le msg _ (carry-le s (computer_chksum c1 c2)))
]

-- What follows keeps two sums apart.
sum_from-injective :
    (post : List ℕ) (s t : ℕ)
    → 0 < s
    → s ≤ 65535
    → 0 < t
    → t ≤ 65535
    → sum_from s post ≡ sum_from t post
    → s ≡ t
sum_from-injective [] s t ps hs pt ht e = unfold computer_loop in e
sum_from-injective (c ∷ []) s t ps hs pt ht e = unfold computer_loop in e
sum_from-injective (c1 ∷ c2 ∷ post) s t ps hs pt ht e = elim (Bool-cases (c1 == 0)) [
  | inl stop ↦ rw (sum_stop s c1 c2 post stop, sum_stop t c1 c2 post stop) at e
  | inr go ↦
      let v = computer_chksum c1 c2 in
      carry_same_sum s t v ps hs pt ht (word-le c1 c2) (
        sum_from-injective post _ _ (carry_pos s v hs (word-le c1 c2) (omega arith)) (carry-le s v)
          (carry_pos t v ht (word-le c1 c2) (omega arith)) (carry-le t v)
          (rw (sum_go s c1 c2 post go, sum_go t c1 c2 post go) at e))
]

-- Whole pairs of bytes, none of which begins with a NUL.
abbrev pub IsPairs : List ℕ → Type 0
IsPairs [] = Unit {0}
IsPairs (c ∷ []) = ⊥
IsPairs (c1 ∷ c2 ∷ s) = (c1 ≢ 0) × IsPairs s

changed_pair :
    (pre post : List ℕ) (c1 c2 d1 d2 s : ℕ)
    → IsPairs pre
    → s ≤ 65535
    → c1 ≢ 0
    → d1 ≢ 0
    → c1 < 256
    → d1 < 256
    → sum_from s (pre ++ c1 ∷ c2 ∷ post) ≡ sum_from s (pre ++ d1 ∷ d2 ∷ post)
    → computer_chksum c1 c2 ≡ computer_chksum d1 d2
changed_pair [] post c1 c2 d1 d2 s whole hs nc nd hc hd e =
    let v = computer_chksum c1 c2 in
    let w = computer_chksum d1 d2 in
    let pv : 0 < v = word_pos c1 c2 (omega arith) hc in
    let pw : 0 < w = word_pos d1 d2 (omega arith) hd in
    carry_same_value s v w hs pv (word-le c1 c2) pw (word-le d1 d2) (
      sum_from-injective post _ _ (carry_pos s v hs (word-le c1 c2) (omega arith)) (carry-le s v)
        (carry_pos s w hs (word-le d1 d2) (omega arith)) (carry-le s w)
        (rw (sum_go s c1 c2 post (≢→== _ _ nc), sum_go s d1 d2 post (≢→== _ _ nd)) at e))
changed_pair (p ∷ []) post c1 c2 d1 d2 s whole hs nc nd hc hd e = absurd whole
changed_pair (p ∷ q ∷ pre) post c1 c2 d1 d2 s whole hs nc nd hc hd e =
    changed_pair pre post c1 c2 d1 d2 (carry_around_add s (computer_chksum p q)) whole.1
      (carry-le s (computer_chksum p q)) nc nd hc hd
      (rw (sum_go s p q _ (≢→== _ _ whole.0), sum_go s p q _ (≢→== _ _ whole.0)) at e)

chksum_of_sum : (msg : List ℕ) → rhdr_computer_chksum msg ≡ 65535 - sum_from 0 msg
unfolding rhdr_computer_chksum rhdr_computer_internal
chksum_of_sum msg = refl

valid-chks : (h : RHdr) → valid_chksum h ≡ true → rhdr_computer_chksum h.msg ≡ h.chks
unfolding valid_chksum
valid-chks h v = ground arith

-- From the first pair that begins with a NUL on, the bytes make no difference.
sum_from-end :
    (pre post post' : List ℕ) (c2 d2 s : ℕ)
    → IsPairs pre
    → sum_from s (pre ++ 0 ∷ c2 ∷ post) ≡ sum_from s (pre ++ 0 ∷ d2 ∷ post')
sum_from-end [] post post' c2 d2 s whole =
    sum_stop s 0 c2 post refl ∙ sym (sum_stop s 0 d2 post' refl)
sum_from-end (p ∷ []) post post' c2 d2 s whole = absurd whole
sum_from-end (p ∷ q ∷ pre) post post' c2 d2 s whole =
    sum_go s p q (pre ++ 0 ∷ c2 ∷ post) (≢→== _ _ whole.0)
    ∙ sum_from-end pre post post' c2 d2 _ whole.1
    ∙ sym (sum_go s p q (pre ++ 0 ∷ d2 ∷ post') (≢→== _ _ whole.0))

-- So a message that is changed only there stays valid.
pub valid_chksum-end :
    (h : RHdr) (pre post post' : List ℕ) (c2 d2 : ℕ)
    → IsPairs pre
    → valid_chksum (record h { msg = pre ++ 0 ∷ c2 ∷ post })
      ≡ valid_chksum (record h { msg = pre ++ 0 ∷ d2 ∷ post' })
unfolding valid_chksum rhdr_computer_chksum rhdr_computer_internal flag_validate
valid_chksum-end h pre post post' c2 d2 whole = rw (sum_from-end pre post post' c2 d2 0 whole) refl

-- Of two messages that differ in one pair of bytes at most, where neither that pair nor a pair before it
-- begins with a NUL, in either message, both can be valid under the same check sum only if they are the
-- same.
pub valid_chksum-pair :
    (h : RHdr) (pre post : List ℕ) (c1 c2 d1 d2 : ℕ)
    → IsPairs pre
    → c1 ≢ 0
    → d1 ≢ 0
    → (c1 < 256) × (c2 < 256) × (d1 < 256) × (d2 < 256)
    → valid_chksum (record h { msg = pre ++ c1 ∷ c2 ∷ post }) ≡ true
    → valid_chksum (record h { msg = pre ++ d1 ∷ d2 ∷ post }) ≡ true
    → (c1 ≡ d1) × (c2 ≡ d2)
valid_chksum-pair h pre post c1 c2 d1 d2 whole nc nd small v w =
    same_word c1 c2 d1 d2 small.0 small.1 small.2 small.3
      (changed_pair pre post c1 c2 d1 d2 0 whole (omega arith) nc nd small.0 small.2 same)
  where
    same : sum_from 0 (pre ++ c1 ∷ c2 ∷ post) ≡ sum_from 0 (pre ++ d1 ∷ d2 ∷ post)
    same = omega (
      arith,
      valid-chks (record h { msg = pre ++ c1 ∷ c2 ∷ post }) v,
      valid-chks (record h { msg = pre ++ d1 ∷ d2 ∷ post }) w,
      chksum_of_sum (pre ++ c1 ∷ c2 ∷ post),
      chksum_of_sum (pre ++ d1 ∷ d2 ∷ post),
      sum_from-le (pre ++ c1 ∷ c2 ∷ post) 0,
      sum_from-le (pre ++ d1 ∷ d2 ∷ post) 0,
    )
