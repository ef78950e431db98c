-- ===== src/Battle/Text/Clean.antt =====
-- What thing_clean makes of a text.
use cprogramming.Prelude.{
  ◌≡◌, ◌↔◌, refl, ◌∙◌, ap, subst, inl, inr, arith, Bool, true, false, ◌&&◌, [], ◌∷◌, ◌==◌,
  Bool-cases, ℕ,
}
use cprogramming.Battle.Text.{Thing, copy_spaced, trim_end, trim_start, thing_clean}

-- No space follows a space; `after` is whether one stands before the text.
abbrev pub Spaced : Bool → Thing → Type 0
Spaced after [] = Unit {0}
Spaced after (c ∷ t) = ((c == b' ' && after) ≡ false) × Spaced (c == b' ') t

abbrev pub EndsWell : Thing → Type 0
EndsWell [] = Unit {0}
EndsWell (c ∷ []) = (c == b' ') ≡ false
EndsWell (c ∷ d ∷ t) = EndsWell (d ∷ t)

-- The text neither begins nor ends with a space, and no two spaces stand together in it.
abbrev pub IsClean : Thing → Type 0
IsClean t = Spaced true t × EndsWell t

Spaced-copy_spaced : (a : Bool) (t : Thing) → Spaced a (copy_spaced a t)
unfolding copy_spaced
Spaced-copy_spaced a [] = tt
Spaced-copy_spaced a (c ∷ t) = elim (Bool-cases (c == b' ' && a)) [
  | inl skip ↦ rw skip (and_true (c == b' ') a _ skip (Spaced-copy_spaced true t))
  | inr copy ↦ rw copy (copy, Spaced-copy_spaced (c == b' ') t)
]
  where
    and_true : (b a : Bool) (u : Thing) → (b && a) ≡ true → Spaced true u → Spaced a u
    and_true true true u h s = s
    and_true true false u h s = absurd (ground arith)
    and_true false a u h s = absurd (ground arith)

copy_spaced_self : (a : Bool) (t : Thing) → Spaced a t → copy_spaced a t ≡ t
unfolding copy_spaced
copy_spaced_self a [] s = refl
copy_spaced_self a (c ∷ t) s = rw (s.0) (ap (λ u. c ∷ u) (copy_spaced_self (c == b' ') t s.1))

Spaced-weaken : (a : Bool) (t : Thing) → Spaced true t → Spaced a t
Spaced-weaken a [] s = tt
Spaced-weaken a (c ∷ t) s = (ground arith, s.1)

Spaced-trim_end : (a : Bool) (t : Thing) → Spaced a t → Spaced a (trim_end t)
unfolding trim_end
Spaced-trim_end a [] s = tt
Spaced-trim_end a (c ∷ []) s = elim (Bool-cases (c == b' ')) [
  | inl e ↦ rw e tt
  | inr e ↦ rw e (s.0, tt)
]
Spaced-trim_end a (c ∷ d ∷ t) s = (s.0, Spaced-trim_end (c == b' ') (d ∷ t) s.1)

EndsWell-cons : (c : ℕ) (t : Thing) → (c == b' ') ≡ false → EndsWell t → EndsWell (c ∷ t)
EndsWell-cons c [] h e = h
EndsWell-cons c (d ∷ t) h e = e

trim_end-EndsWell : (a : Bool) (t : Thing) → Spaced a t → EndsWell (trim_end t)
unfolding trim_end
trim_end-EndsWell a [] s = tt
trim_end-EndsWell a (c ∷ []) s = elim (Bool-cases (c == b' ')) [ inl e ↦ rw e tt | inr e ↦ rw e e ]
trim_end-EndsWell a (c ∷ d ∷ []) s = elim (Bool-cases (d == b' ')) [
  | inl e ↦ rw e (before_space (d == b' ') (c == b' ') e s.1.0)
  | inr e ↦ rw e e
]
  where
    before_space : (d c : Bool) → d ≡ true → (d && c) ≡ false → c ≡ false
    before_space true c e h = h
    before_space false c e h = absurd (ground arith)
trim_end-EndsWell a (c ∷ d ∷ e ∷ t) s = trim_end-EndsWell (c == b' ') (d ∷ e ∷ t) s.1

trim_end_self : (t : Thing) → EndsWell t → trim_end t ≡ t
unfolding trim_end
trim_end_self [] e = refl
trim_end_self (c ∷ []) e = rw e refl
trim_end_self (c ∷ d ∷ t) e = ap (λ u. c ∷ u) (trim_end_self (d ∷ t) e)

trim_start-Spaced : (t : Thing) → Spaced false t → Spaced true (trim_start t)
unfolding trim_start
trim_start-Spaced [] s = tt
trim_start-Spaced (c ∷ t) s = elim (Bool-cases (c == b' ')) [
  | inl e ↦ rw e (subst (λ b. Spaced b t) e s.1)
  | inr e ↦ rw e (alone (c == b' ') e, s.1)
]
  where
    alone : (b : Bool) → b ≡ false → (b && true) ≡ false
    alone true e = e
    alone false e = e

EndsWell-tail : (c : ℕ) (t : Thing) → EndsWell (c ∷ t) → EndsWell t
EndsWell-tail c [] e = tt
EndsWell-tail c (d ∷ t) e = e

trim_start-EndsWell : (t : Thing) → EndsWell t → EndsWell (trim_start t)
unfolding trim_start
trim_start-EndsWell [] e = tt
trim_start-EndsWell (c ∷ t) e = elim (Bool-cases (c == b' ')) [
  | inl h ↦ rw h (EndsWell-tail c t e)
  | inr h ↦ rw h e
]

trim_start_self : (t : Thing) → Spaced true t → trim_start t ≡ t
unfolding trim_start
trim_start_self [] s = refl
trim_start_self (c ∷ t) s = rw (no_space (c == b' ') s.0) refl
  where
    no_space : (b : Bool) → (b && true) ≡ false → b ≡ false
    no_space true h = h
    no_space false h = h

pub thing_clean-IsClean : (t : Thing) → IsClean (thing_clean t)
unfolding thing_clean
thing_clean-IsClean t =
    let copied = Spaced-copy_spaced false t in
    (
      trim_start-Spaced _ (Spaced-trim_end false _ copied),
      trim_start-EndsWell _ (trim_end-EndsWell false _ copied),
    )

pub thing_clean_self : (t : Thing) → IsClean t → thing_clean t ≡ t
unfolding thing_clean
thing_clean_self t c =
    ap (λ u. trim_start (trim_end u)) (copy_spaced_self false t (Spaced-weaken false t c.0))
    ∙ ap trim_start (trim_end_self t c.1)
    ∙ trim_start_self t c.0

-- A cleaned text neither begins nor ends with a space and has no two spaces together, and cleaning
-- changes a text no more just when it is like this.
pub thing_clean_lem : (t : Thing) → IsClean (thing_clean t) × ((thing_clean t ≡ t) ↔ IsClean t)
thing_clean_lem t =
    (thing_clean-IsClean t, (λ e. subst IsClean e (thing_clean-IsClean t), thing_clean_self t))
