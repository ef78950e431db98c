-- ===== src/Descent/Tests.antt =====
-- Texts that the parser accepts and refuses.
use cprogramming.Prelude.{◌≡◌, refl, arith, true, false, some, [], ◌∷◌}
use cprogramming.Descent.{
  Text, accepts, parse, e_, e_1, e_2, t_, t_1, t_2, t_3, int, plus, times, open_paren, close_paren,
}
use cprogramming.Descent.Sums.{accepts_lem, is_sum}

-- "1+2"
abbrev sum_text : Text
sum_text = b'1' ∷ b'+' ∷ b'2' ∷ []

accepts_lem_example : accepts 8 sum_text ≡ some (is_sum sum_text)
accepts_lem_example =
    accepts_lem 8 sum_text
      (λ q. absurd (ground arith), (λ q. absurd (ground arith), (λ q. absurd (ground arith), tt)))
      (omega arith)

sum_accepted : is_sum sum_text ≡ true
unfolding int plus
sum_accepted = refl

-- "(1)" and "1*2" come from the grammar in the comments, and are refused.
parentheses_refused : accepts 8 (b'(' ∷ b'1' ∷ b')' ∷ []) ≡ some false
unfolding accepts parse e_ e_1 e_2 t_ t_1 t_2 t_3 int plus times open_paren close_paren
parentheses_refused = refl

product_refused : accepts 8 (b'1' ∷ b'*' ∷ b'2' ∷ []) ≡ some false
unfolding accepts parse e_ e_1 e_2 t_ t_1 t_2 t_3 int plus times open_paren close_paren
product_refused = refl
