-- ===== src/Link/Address/Good.antt =====
-- RIPop.h: which texts are taken for an address.
use cprogramming.Prelude.{
  ℕ, zero, suc, ◌+◌, ◌≡◌, ◌≤◌, refl, ◌∙◌, sym, ap, arith, inl, inr, Bool, true, false, not, ◌&&◌,
  ◌||◌, List, [], ◌∷◌, ◌==◌, leb, length, if◌then◌else◌, Bool-cases,
}
use cprogramming.Link.Address.{
  Counts, count_byte, validate_loop, str_validate_good, is_dot, is_digit, ip_max_name, no_counts,
}

-- A text without a NUL, as a C string has it
abbrev pub IsString : List ℕ → Type 0
IsString [] = Unit {0}
IsString (c ∷ s) = (c == 0 ≡ false) × IsString s

abbrev pub count_dots : List ℕ → ℕ
count_dots [] = 0
count_dots (c ∷ s) = (if is_dot c then 1 else 0) + count_dots s

-- Only digits and dots
abbrev pub all_allowed : List ℕ → Bool
all_allowed [] = true
all_allowed (c ∷ s) = (is_dot c || is_digit c) && all_allowed s

-- No two dots together; the text may be behind a dot.
abbrev pub no_pair : Bool → List ℕ → Bool
no_pair after_dot [] = true
no_pair after_dot (c ∷ s) = not (is_dot c && after_dot) && no_pair (is_dot c) s

bad_stops :
    (dot digit after_dot x y : Bool)
    → (not dot && not digit) || (dot && after_dot) ≡ true
    → true ≡ not (((dot || digit) && x) && (not (dot && after_dot) && y))
bad_stops dot digit after_dot x y h = ground arith

good_goes_on :
    (dot digit after_dot x y : Bool)
    → (not dot && not digit) || (dot && after_dot) ≡ false
    → not (x && y) ≡ not (((dot || digit) && x) && (not (dot && after_dot) && y))
good_goes_on dot digit after_dot x y h = ground arith

abbrev is_bad : Bool → ℕ → Bool
is_bad after_dot c = (not (is_dot c) && not (is_digit c)) || (is_dot c && after_dot)

abbrev counted : Bool → ℕ → Counts → Counts
counted after_dot c n = count_byte after_dot c (record n { name_sz = n.name_sz + 1 })

counted_fields :
    (after_dot : Bool) (c : ℕ) (n : Counts)
    → ((counted after_dot c n).dots ≡ n.dots + (if is_dot c then 1 else 0))
      × ((counted after_dot c n).digits ≡ n.digits + 1)
unfolding count_byte
counted_fields after_dot c n = (ground arith, refl)

not_both : {b : Bool} {P : Type 0} → b ≡ true → b ≡ false → P
not_both t f = cc

-- One round of the loop, at a byte that is not NUL
module _ (rounds : ℕ) (after_dot : Bool) (c : ℕ) (name : List ℕ) (n : Counts)
    (no_nul : c == 0 ≡ false) where
  loop_bad :
      is_bad after_dot c ≡ true
      → validate_loop (suc rounds) after_dot (c ∷ name) n ≡ counted after_dot c n
  unfolding validate_loop count_byte
  loop_bad bad = rw (no_nul, bad)

  loop_on :
      is_bad after_dot c ≡ false
      → validate_loop (suc rounds) after_dot (c ∷ name) n
        ≡ validate_loop rounds (is_dot c) name (counted after_dot c n)
  unfolding validate_loop count_byte
  loop_on good = rw (no_nul, good)

-- With rounds for the whole text, the loop sees each byte, or a bad one.
validate_all :
    (rounds : ℕ) (after_dot : Bool) (name : List ℕ) (n : Counts)
    → length name ≤ rounds
    → IsString name
    → n.bad ≡ false
    → let r = validate_loop rounds after_dot name n in
      (r.bad ≡ not (all_allowed name && no_pair after_dot name))
      × (r.bad ≡ false → (r.dots ≡ n.dots + count_dots name) × (r.digits ≡ n.digits + length name))
validate_all zero after_dot [] n h s b =
    unfold validate_loop in (b, λ e. (omega arith, omega arith))
validate_all zero after_dot (c ∷ name) n h s b = absurd (omega arith)
validate_all (suc rounds) after_dot [] n h s b =
    unfold validate_loop in (b, λ e. (omega arith, omega arith))
validate_all (suc rounds) after_dot (c ∷ name) n h s b = elim (Bool-cases (is_bad after_dot c)) [
  | inl bad ↦ rw (loop_bad rounds after_dot c name n s.0 bad) (
      unfold count_byte in
      (bad ∙ bad_stops (is_dot c) (is_digit c) after_dot _ _ bad, λ e. not_both bad e))
  | inr good ↦
      let (same, counts) =
        validate_all rounds (is_dot c) name (counted after_dot c n) (omega arith) s.1
          (unfold count_byte in good) in
      rw (loop_on rounds after_dot c name n s.0 good) (
        same
            ∙ good_goes_on (is_dot c) (is_digit c) after_dot (all_allowed name)
                (no_pair (is_dot c) name) good,
        λ e. (
          omega (arith, counts e, counted_fields after_dot c n),
          omega (arith, counts e, counted_fields after_dot c n),
        ),
      )
]

-- Of a text that is longer than the rounds, at least as many bytes are counted.
validate_long :
    (rounds : ℕ) (after_dot : Bool) (name : List ℕ) (n : Counts)
    → rounds ≤ length name
    → IsString name
    → let r = validate_loop rounds after_dot name n in r.bad ≡ false → n.digits + rounds ≤ r.digits
validate_long zero after_dot name n h s b = unfold validate_loop in omega arith
validate_long (suc rounds) after_dot [] n h s b = absurd (omega arith)
validate_long (suc rounds) after_dot (c ∷ name) n h s b = elim (Bool-cases (is_bad after_dot c)) [
  | inl bad ↦
      unfold count_byte in
      not_both bad (ap (λ r. r.bad) (sym (loop_bad rounds after_dot c name n s.0 bad)) ∙ b)
  | inr good ↦
      let seen =
        validate_long rounds (is_dot c) name (counted after_dot c n) (omega arith) s.1
          (ap (λ r. r.bad) (sym (loop_on rounds after_dot c name n s.0 good)) ∙ b) in
      rw (loop_on rounds after_dot c name n s.0 good)
        (omega (arith, seen, counted_fields after_dot c n))
]

-- A text is taken for an address just when it has only digits and dots, three dots, no two of them
-- together, and 4 to 12 bytes in all. The dots count with the digits, so an address of 13 to 15 bytes,
-- such as 192.168.100.1, is refused.
pub str_validate_good_lem :
    (name : List ℕ)
    → IsString name
    → str_validate_good name ≡ (
        (all_allowed name && no_pair false name)
        && (count_dots name == 3 && (leb 4 (length name) && leb (length name) 12)))
unfolding str_validate_good
str_validate_good_lem name s = elim (Bool-cases (leb (length name) ip_max_name)) [
  | inl fits ↦
      let (bad, counts) = validate_all ip_max_name false name no_counts (ground arith) s refl in
      ground (arith, bad, counts)
  | inr long ↦
      let seen = validate_long ip_max_name false name no_counts (ground arith) s in
      ground (arith, seen)
]
