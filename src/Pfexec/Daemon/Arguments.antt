-- ===== src/Pfexec/Daemon/Arguments.antt =====
-- The comparison of a request's arguments with those of a rule, on requests as the kernel fills them.
use cprogramming.Prelude.{
  ℕ, zero, suc, ◌+◌, ◌≤◌, ◌<◌, ◌≡◌, ◌↔◌, refl, ◌∙◌, ap, subst, inl, inr, arith, Bool, true, false,
  List, [], ◌∷◌, ◌==◌, ltb, length, get_or, pos, ltb_ℤ, ◌-ℤ◌, ==→≡, ==→≢, Bool-cases, some,
}
use cprogramming.Pfexec.Packet.{Text, Req}
use cprogramming.Pfexec.Packet.Strings.{strncmp_eq, string_at}
use cprogramming.Pfexec.Daemon.{arg_at, match_args, match_cmdargs}

abbrev pub IsPrefix : Text → Text → Type 0
IsPrefix [] c = Unit {0}
IsPrefix (x ∷ a) [] = ⊥
IsPrefix (x ∷ a) (y ∷ c) = (y ≡ x) × IsPrefix a c

-- Comparing as many bytes as the second string has.
strncmp_eq-IsPrefix : (a c : Text) → (strncmp_eq c a (length a) ≡ true) ↔ IsPrefix a c
unfolding strncmp_eq
strncmp_eq-IsPrefix [] c = (λ h. tt, λ h. refl)
strncmp_eq-IsPrefix (x ∷ a) [] = (λ h. cc, λ h. absurd h)
strncmp_eq-IsPrefix (x ∷ a) (y ∷ c) = elim (Bool-cases (y == x)) [
  | inl same ↦
      let rest = strncmp_eq-IsPrefix a c in
      rw same (λ h. (==→≡ y x same, rest.0 h), λ h. rest.1 h.1)
  | inr other ↦ rw other (λ h. cc, λ h. absurd (==→≢ y x other h.0))
]

-- The request has the arguments `args` behind its first one, and its next reference is empty.
pub record HasArgs (req : Req) (args : List Text) : Type 0 where
  pub count : req.pfr_argc ≡ length args + 1
  pub strings :
      (i : ℕ)
      → i < length args
      → string_at req.pfr_argarea (arg_at req (i + 1)).pfa_offset ≡ get_or args i []
  pub lens : (i : ℕ) → i < length args → (arg_at req (i + 1)).pfa_len ≡ length (get_or args i [])
  pub end : (arg_at req (length args + 1)).pfa_len ≡ 0

-- What the loop asks for, from argument `i` on: a rule's argument may be longer than the one given,
-- and there may be one more of them.
pub record Agrees (args : List Text) (i : ℕ) (cs : List Text) : Type 0 where
  pub enough : length args ≤ i + length cs
  pub one_more : i + length cs ≤ length args + 1
  pub prefixes :
      (j : ℕ)
      → j < length cs
      → i + j < length args
      → IsPrefix (get_or args (i + j) []) (get_or cs j [])

module _ (req : Req) (args : List Text) (has : HasArgs req args) where
  test :
      (i : ℕ) (c : Text)
      → i ≤ length args
      → (strncmp_eq c
            (string_at req.pfr_argarea (arg_at req (i + 1)).pfa_offset)
            (arg_at req (i + 1)).pfa_len
          ≡ true)
        ↔ (i < length args → IsPrefix (get_or args i []) c)
  unfolding strncmp_eq
  test i c h = elim (Bool-cases (ltb i (length args))) [
    | inl lt ↦
        rw (has.strings i (ground arith), has.lens i (ground arith))
          (
            λ e p. (strncmp_eq-IsPrefix (get_or args i []) c).0 e,
            λ q. (strncmp_eq-IsPrefix (get_or args i []) c).1 (q (ground arith)),
          )
    | inr ge ↦
        let at_end : i ≡ length args = ground arith in
        let nothing : (arg_at req (i + 1)).pfa_len ≡ 0 =
          ap (λ k. (arg_at req (k + 1)).pfa_len) at_end ∙ has.end in
        rw nothing (λ e p. absurd (omega arith), λ q. refl)
  ]

  Agrees-cons :
      (i : ℕ) (c : Text) (cs : List Text)
      → (i < length args → IsPrefix (get_or args i []) c)
      → Agrees args (suc i) cs
      → Agrees args i (c ∷ cs)
  Agrees-cons i c cs p a = record {
    enough = omega (arith, a.enough);
    one_more = omega (arith, a.one_more);
    prefixes = found;
  }
    where
      found :
          (j : ℕ)
          → j < length (c ∷ cs)
          → i + j < length args
          → IsPrefix (get_or args (i + j) []) (get_or (c ∷ cs) j [])
      found zero lt h = subst (λ k. IsPrefix (get_or args k []) c) (omega arith) (p (omega arith))
      found (suc j) lt h =
          subst (λ k. IsPrefix (get_or args k []) (get_or cs j [])) (omega arith)
            (a.prefixes j (omega arith) (omega arith))

  Agrees-rest :
      (i : ℕ) (c : Text) (cs : List Text)
      → Agrees args i (c ∷ cs)
      → i < length args
      → IsPrefix (get_or args i []) c
  Agrees-rest i c cs a lt =
      subst (λ k. IsPrefix (get_or args k []) c) (omega arith)
        (a.prefixes 0 (omega arith) (omega arith))

  Agrees-tail :
      (i : ℕ) (c : Text) (cs : List Text) → Agrees args i (c ∷ cs) → Agrees args (suc i) cs
  Agrees-tail i c cs a = record {
    enough = omega (arith, a.enough);
    one_more = omega (arith, a.one_more);
    prefixes = λ j lt h.
        subst (λ k. IsPrefix (get_or args k []) (get_or cs j [])) (omega arith)
          (a.prefixes (suc j) (omega arith) (omega arith));
  }

  match_args-Agrees :
      (cs : List Text) (i : ℕ)
      → i ≤ length args + 1
      → (match_args req (pos (length args)) i cs ≡ true) ↔ Agrees args i cs
  unfolding match_args
  match_args-Agrees [] i h = (
    λ e. record {
      enough = ground arith;
      one_more = omega arith;
      prefixes = λ j lt. absurd (omega arith);
    },
    λ a. ground (arith, a.enough),
  )
  match_args-Agrees (c ∷ cs) i h = elim (Bool-cases (ltb (length args) i)) [
    | inl past ↦
        rw (past_test (length args) i past) (λ e. cc, λ a. absurd (ground (arith, a.one_more)))
    | inr inside ↦
        let le : i ≤ length args = ground arith in
        let this = test i c le in
        let later = match_args-Agrees cs (suc i) (omega arith) in
        elim (Bool-cases (
          strncmp_eq c (string_at req.pfr_argarea (arg_at req (i + 1)).pfa_offset)
            (arg_at req (i + 1)).pfa_len)) [
              | inr differ ↦
                  rw (inside_test (length args) i inside, differ)
                    (λ e. cc, λ a. absurd (unequal differ (this.1 (Agrees-rest i c cs a))))
              | inl agree ↦
                  rw (inside_test (length args) i inside, agree)
                    (
                      λ e. Agrees-cons i c cs (this.0 agree) (later.0 e),
                      λ a. later.1 (Agrees-tail i c cs a),
                    )
            ]
  ]
    where
      past_test : (n i : ℕ) → ltb n i ≡ true → ltb_ℤ (pos n) (pos i) ≡ true
      past_test n i h = ground arith

      inside_test : (n i : ℕ) → ltb n i ≡ false → ltb_ℤ (pos n) (pos i) ≡ false
      inside_test n i h = ground arith

      unequal : {b : Bool} → b ≡ false → b ≡ true → ⊥
      unequal p q = cc

  all_but_first : (argc n : ℕ) → argc ≡ n + 1 → pos argc -ℤ pos 1 ≡ pos n
  all_but_first argc n h = ground arith

  -- For a request as the kernel makes it, the arguments of a rule match just when there are as many of
  -- them as the request has, or one more, and each argument of the request is a prefix of the rule's:
  -- it need not be the whole of it, and the last one may be missing.
  pub match_cmdargs-Agrees :
      (cs : List Text) → (match_cmdargs req (some cs) ≡ true) ↔ Agrees args 0 cs
  unfolding match_cmdargs
  match_cmdargs-Agrees (c ∷ cs) =
      rw (all_but_first req.pfr_argc (length args) has.count)
        (match_args-Agrees (c ∷ cs) 0 (omega arith))
  match_cmdargs-Agrees [] = elim (Bool-cases (ltb 0 (length args))) [
    | inl more ↦
        rw (all_but_first req.pfr_argc (length args) has.count, more_test (length args) more)
          (λ e. cc, λ a. absurd (ground (arith, a.enough)))
    | inr none_left ↦
        rw (all_but_first req.pfr_argc (length args) has.count, none_test (length args) none_left)
          (match_args-Agrees [] 0 (omega arith))
  ]
    where
      more_test : (n : ℕ) → ltb 0 n ≡ true → ltb_ℤ (pos 0) (pos n) ≡ true
      more_test n h = ground arith

      none_test : (n : ℕ) → ltb 0 n ≡ false → ltb_ℤ (pos 0) (pos n) ≡ false
      none_test n h = ground arith
