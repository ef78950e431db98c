-- ===== src/Descent.antt =====
-- The recursive-descent parser, recursive_descent.c and recursive_descent.h of
-- B.lex_yacc/src/recursive-descent. `next` is the text that is left, without the NUL. A token that is
-- read past the end is 0, and no text is left then.
pub mod Sums
mod Tests
use cprogramming.Prelude.{
  ℕ, zero, suc, Bool, true, false, ◌&&◌, Option, none, some, List, [], ◌∷◌, ◌==◌, leb,
  if◌then◌else◌,
}

abbrev pub Text : Type 0
Text = List ℕ

-- The result and what `next` is then; `none` if the rounds are used up.
abbrev pub Parser : Type 0
Parser = Text → Option (Bool × Text)

unfoldable pub plus : ℕ → Bool
plus t = t == b'+'

unfoldable pub times : ℕ → Bool
times t = t == b'*'

unfoldable pub open_paren : ℕ → Bool
open_paren t = t == b'('

unfoldable pub close_paren : ℕ → Bool
close_paren t = t == b')'

unfoldable pub int : ℕ → Bool
int t = leb b'0' t && leb t b'9'

-- `TEST (*next++)`
abbrev pub token : (ℕ → Bool) → Parser
token test [] = some (test 0, [])
token test (c ∷ s) = some (test c, s)

-- `p () && q ()`
abbrev pub and_then : Option (Bool × Text) → Parser → Option (Bool × Text)
and_then none q = none
and_then (some (false, s)) q = some (false, s)
and_then (some (true, s)) q = q s

-- `p () || (next = save, q ())`, with the result of `q` from `save`
abbrev pub or_else : Option (Bool × Text) → Option (Bool × Text) → Option (Bool × Text)
or_else none q = none
or_else (some (true, s)) q = some (true, s)
or_else (some (false, s)) q = q

abbrev pub is_end : Text → Bool
is_end [] = true
is_end (c ∷ s) = c == 0

-- `p () && *next == '\0'`
abbrev pub at_end : Option (Bool × Text) → Option (Bool × Text)
at_end p = and_then p (λ s. some (is_end s, s))

-- Each function of the parser, given those that it calls.
unfoldable pub e_1 : Parser → Parser
e_1 t s = t s

unfoldable pub e_2 : Parser → Parser → Parser
e_2 t e s = and_then (t s) (λ s'. and_then (token plus s') e)

unfoldable pub e_ : Parser → Parser → Parser
e_ t e s = or_else (at_end (e_1 t s)) (at_end (e_2 t e s))

unfoldable pub t_1 : Parser
t_1 s = token int s

unfoldable pub t_2 : Parser → Parser
t_2 t s = and_then (token int s) (λ s'. and_then (token times s') t)

unfoldable pub t_3 : Parser → Parser
t_3 e s = and_then (token open_paren s) (λ s'. and_then (e s') (token close_paren))

unfoldable pub t_ : Parser → Parser → Parser
t_ t e s = or_else (t_1 s) (or_else (t_2 t s) (t_3 e s))

-- T and E with at most `n` calls inside each other.
unfoldable pub parse : ℕ → Parser × Parser
parse zero = (λ s. none, λ s. none)
parse (suc n) = (t_ (parse n).0 (parse n).1, e_ (parse n).0 (parse n).1)

-- main: whether it prints "success".
unfoldable pub accepts : ℕ → Text → Option Bool
accepts n s = elim (at_end ((parse n).1 s)) [ none ↦ none | some (b, _) ↦ some b ]
