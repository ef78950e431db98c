-- ===== src/Descent/Sums.antt =====
-- Which texts the parser accepts: sums of digits, and nothing else.
use cprogramming.Prelude.{
  ℕ, zero, suc, ◌+◌, ◌*◌, ◌≤◌, ◌≡◌, refl, inl, inr, arith, Bool, true, false, ◌&&◌, Option, none,
  some, [], ◌∷◌, length, ◌≢◌, sym, ◌∙◌, subst, ap, ◌==◌, Bool-cases, leb,
}
use cprogramming.Descent.{
  Text, Parser, plus, open_paren, close_paren, or_else, at_end, and_then, token, int, e_1, e_2, e_,
  t_1, t_2, t_3, t_, parse, accepts,
}

-- A digit, or a digit, a `+` and a sum.
abbrev pub is_sum : Text → Bool
is_sum [] = false
is_sum (d ∷ []) = int d
is_sum (d ∷ p ∷ s) = int d && plus p && is_sum s

-- T reads one digit.
abbrev ReadsDigit : Text → Option (Bool × Text) → Type 0
ReadsDigit s none = ⊥
ReadsDigit [] (some (b, s')) = b ≡ false
ReadsDigit (c ∷ s) (some (b, s')) = (b ≡ int c) × (int c ≡ true → s' ≡ s)

-- E reads a sum up to the end of the text.
abbrev ReadsSum : Text → Option (Bool × Text) → Type 0
ReadsSum s none = ⊥
ReadsSum s (some (b, s')) = (b ≡ is_sum s) × (b ≡ true → s' ≡ [])

-- No NUL stands in a text.
abbrev pub IsText : Text → Type 0
IsText [] = Unit {0}
IsText (c ∷ s) = (c ≢ 0) × IsText s

closing_fails :
    (u : Text) (r : Option (Bool × Text))
    → ReadsSum u r
    → (s : Text) × (and_then r (token close_paren) ≡ some (false, s))
unfolding close_paren
closing_fails u none h = absurd h
closing_fails u (some (false, s)) h = (s, refl)
closing_fails u (some (true, s)) h = ([], rw (h.1 refl) refl)

t_-ReadsDigit :
    (t e : Parser) (s : Text)
    → IsText s
    → ((u : Text) → IsText u → length u + 1 ≡ length s → ReadsSum u (e u))
    → ReadsDigit s (t_ t e s)
unfolding t_ t_1 t_2 t_3 int open_paren
t_-ReadsDigit t e [] x h = refl
t_-ReadsDigit t e (c ∷ u) x h = elim (Bool-cases (leb b'0' c && leb c b'9')) [
  | inl digit ↦ rw digit (sym digit, λ _. refl)
  | inr other ↦ elim (Bool-cases (c == b'(')) [
    | inr unopened ↦ rw (other, unopened) (sym other, λ q. absurd (unequal (sym other ∙ q)))
    | inl opened ↦
        rw (other, opened, (closing_fails u (e u) (h u x.1 (omega arith))).1)
          (sym other, λ q. absurd (unequal (sym other ∙ q)))
  ]
]
  where
    unequal : false ≡ true → ⊥
    unequal q = cc

-- E after its first digit.
abbrev rest_of : Parser → Text → Option (Bool × Text)
rest_of e s = or_else (at_end (some (true, s))) (at_end (and_then (token plus s) e))

ReadsSum-same :
    (s v : Text) (r : Option (Bool × Text))
    → is_sum s ≡ is_sum v
    → ReadsSum v r
    → ReadsSum s (at_end r)
ReadsSum-same s v none e h = absurd h
ReadsSum-same s v (some (false, w)) e h = (h.0 ∙ sym e, h.1)
ReadsSum-same s v (some (true, w)) e h = rw (h.1 refl) (h.0 ∙ sym e, λ _. refl)

is_sum-cons : (c p : ℕ) (v : Text) → int c ≡ true → plus p ≡ true → is_sum (c ∷ p ∷ v) ≡ is_sum v
is_sum-cons c p v d q = rw (d, q) refl

not_sum : (c p : ℕ) (v : Text) → int c ≡ true → plus p ≡ false → false ≡ is_sum (c ∷ p ∷ v)
not_sum c p v d q = rw (d, q) refl

after_digit :
    (e : Parser) (c : ℕ) (u : Text)
    → int c ≡ true
    → IsText u
    → ((v : Text) → IsText v → length v + 1 ≡ length u → ReadsSum v (e v))
    → ReadsSum (c ∷ u) (rest_of e u)
after_digit e c [] d x h = (sym d, λ _. refl)
after_digit e c (p ∷ v) d x h = elim (Bool-cases (p == 0)) [
  | inl zero_there ↦ absurd (ground arith)
  | inr more ↦ elim (Bool-cases (plus p)) [
    | inr no_plus ↦ rw (more, no_plus) (not_sum c p v d no_plus, λ q. absurd (unequal q))
    | inl a_plus ↦
        rw (more, a_plus)
          (ReadsSum-same (c ∷ p ∷ v) v (e v) (is_sum-cons c p v d a_plus) (h v x.1 (omega arith)))
  ]
]
  where
    unequal : false ≡ true → ⊥
    unequal q = cc

no_digit : (c : ℕ) (u : Text) → false ≡ int c → false ≡ is_sum (c ∷ u)
no_digit c [] h = h
no_digit c (p ∷ v) h = rw (sym h) refl

e_-ReadsSum :
    (e : Parser) (s : Text) (r : Option (Bool × Text))
    → IsText s
    → ReadsDigit s r
    → ((v : Text) → IsText v → length v + 2 ≤ length s → ReadsSum v (e v))
    → ReadsSum s (or_else (at_end r) (at_end (and_then r (λ s'. and_then (token plus s') e))))
e_-ReadsSum e s none x d h = absurd d
e_-ReadsSum e [] (some (false, s')) x d h = (refl, λ q. absurd (ground arith))
e_-ReadsSum e [] (some (true, s')) x d h = absurd (ground arith)
e_-ReadsSum e (c ∷ u) (some (false, s')) x d h = (no_digit c u d.0, λ q. absurd (ground arith))
e_-ReadsSum e (c ∷ u) (some (true, s')) x d h =
    subst (λ w. ReadsSum (c ∷ u) (rest_of e w)) (sym (d.1 (sym d.0)))
      (after_digit e c u (sym d.0) x.1 (λ v y l. h v y (omega arith)))

-- Two rounds for each byte and two more are enough.
parse_lem :
    (n : ℕ) (s : Text)
    → IsText s
    → (2 * length s + 1 ≤ n → ReadsDigit s ((parse n).0 s))
      × (2 * length s + 2 ≤ n → ReadsSum s ((parse n).1 s))
unfolding parse e_ e_1 e_2
parse_lem zero s x = (λ h. absurd (omega arith), λ h. absurd (omega arith))
parse_lem (suc n) s x = (
  λ h. t_-ReadsDigit (parse n).0 (parse n).1 s x (λ u y l. (parse_lem n u y).1 (omega arith)),
  λ h.
      e_-ReadsSum (parse n).1 s ((parse n).0 s) x ((parse_lem n s x).0 (omega arith))
        (λ v y l. (parse_lem n v y).1 (omega arith)),
)

-- With two rounds for each byte and two more the parser ends on every text, and it accepts just the
-- sums of single digits: a digit, or a digit, a `+` and a sum.
pub accepts_lem :
    (n : ℕ) (s : Text) → IsText s → 2 * length s + 2 ≤ n → accepts n s ≡ some (is_sum s)
unfolding accepts
accepts_lem n s x h = accepted s ((parse n).1 s) ((parse_lem n s x).1 h)
  where
    accepted :
        (s : Text) (r : Option (Bool × Text))
        → ReadsSum s r
        → (elim (at_end r) [ none ↦ none | some (b, _) ↦ some b ]) ≡ some (is_sum s)
    accepted s none d = absurd d
    accepted s (some (false, w)) d = ap some d.0
    accepted s (some (true, w)) d = rw (d.1 refl) (ap some d.0)
