-- ===== src/Battle/Setup/Ready.antt =====
-- A game that game_set makes from two maps is consistent, and its ships are as the rules say.
use cprogramming.Prelude.{
  ℕ, zero, suc, ◌+◌, ◌-◌, ◌≤◌, ◌<◌, ◌≡◌, ◌≢◌, refl, ap, sym, subst, inl, inr, arith, true, false,
  Option, none, some, List, [], ◌∷◌, length, get_or, ℤ, pos, negsuc, ltb_ℤ, Bool-cases,
  Option-cases, ltb,
}
use cprogramming.Battle.Text.{Queue, queue_dequeue}
use cprogramming.Battle.Grid.{
  Grid, index, check_inside_this, element_at, grid_init, grid_clear, check_inside_max,
}
use cprogramming.Battle.Grid.Cells.{IsGrid, count_element, count-write_at}
use cprogramming.Battle.Game.Fleet.{IsFleet, afloat, hull, hull-digit}
use cprogramming.Battle.Setup.{scan_value, read_ships}
use cprogramming.Battle.Setup.Drawing.{
  Rows-replicate, length-replicate, count_rows-replicate, drawn, Drawn,
}

abbrev pub AllPositive : List ℤ → Type 0
AllPositive [] = Unit {0}
AllPositive (m ∷ ms) = (ltb_ℤ (pos 0) m ≡ true) × AllPositive ms

drawn_none :
    (c s : ℕ) (ms : List ℤ) → ((i : ℕ) → i < length ms → hull (s + i) ≢ c) → drawn c s ms ≡ 0
drawn_none c s [] h = refl
drawn_none c s (m ∷ ms) h = ground (
  arith,
  h 0 (omega arith),
  drawn_none c (suc s) ms (λ i lt. subst (λ k. hull k ≢ c) (omega arith) (h (suc i) (omega arith))),
)

hull_apart : (s i : ℕ) → hull (suc s + i) ≢ hull s
hull_apart s i = ground arith

-- The cells of each ship are as many as its magnitude says.
drawn-hull :
    (s i : ℕ) (ms : List ℤ)
    → AllPositive ms
    → i < length ms
    → get_or ms i (pos 0) ≡ pos (drawn (hull (s + i)) s ms)
drawn-hull s i [] p h = absurd (omega arith)
drawn-hull s zero (pos m ∷ ms) p h =
    ground (arith, drawn_none (hull s) (suc s) ms (λ i lt. hull_apart s i))
drawn-hull s (suc i) (pos m ∷ ms) p h = ground (arith, hull_apart s i, drawn-hull (suc s) i ms p.1)
drawn-hull s i (negsuc m ∷ ms) p h = absurd (ground arith)

afloat_all : (ms : List ℤ) → AllPositive ms → afloat ms ≡ length ms
afloat_all [] p = refl
afloat_all (m ∷ ms) p = ground (arith, afloat_all ms p.1)

far_hull : (i n e : ℕ) → i < n → ltb (e - b'1') n ≡ false → b'1' ≤ e → e ≤ b'9' → hull (0 + i) ≢ e
far_hull i n e lt h low high same = ground arith

-- An element that stands somewhere is counted.
counted_there :
    (g : Grid) (x y : ℤ) (e : ℕ)
    → IsGrid g
    → check_inside_this g x y ≡ true
    → element_at g x y ≡ e
    → e ≢ 0
    → 1 ≤ count_element e g
counted_there g x y e v inside h ne = ground (arith, count-write_at e g x y 0 v inside)

-- A board with all its ships drawn on it, where there was no ship before.
pub Drawn-IsFleet :
    (g g' : Grid) (ms : List ℤ)
    → ((i : ℕ) → count_element (hull i) g ≡ 0)
    → AllPositive ms
    → Drawn g g' 0 ms
    → IsFleet (pos (length ms)) g' ms
Drawn-IsFleet g g' ms fresh p d = record {
  valid = d.valid;
  hulls = λ i lt. ground (arith, drawn-hull 0 i ms p lt, d.counted (hull i), fresh i);
  numbers = λ x y inside low high. elim (Bool-cases (ltb (element_at g' x y - b'1') (length ms))) [
    | inl h ↦ ground arith
    | inr h ↦ absurd (
        ground (
          arith,
          counted_there g' x y (element_at g' x y) d.valid inside refl,
          d.counted (element_at g' x y),
          fresh (element_at g' x y - b'1'),
          hull-digit (element_at g' x y),
          drawn_none (element_at g' x y) 0 ms (λ i lt. far_hull i (length ms) _ lt h low high),
        ))
  ];
  total_afloat = ap pos (sym (afloat_all ms p));
}

-- A rectangle of free cells.
abbrev pub Fresh : Option Grid → Type 0
Fresh none = Unit {0}
Fresh (some g) = IsGrid g × ((i : ℕ) → count_element (hull i) g ≡ 0)

pub grid_init-Fresh : (x y : ℤ) → Fresh (grid_init x y)
unfolding grid_init grid_clear
grid_init-Fresh x y = elim (Bool-cases (check_inside_max x y)) [
  | inr e ↦ rw e tt
  | inl e ↦ rw e (
    record { rows = length-replicate (index y) _; columns = Rows-replicate (index x) (index y) },
    λ i. count_rows-replicate (hull i) (index x) (index y) (ground arith),
  )
]

-- What read_ships reads: as many as asked for, each positive.
abbrev pub AsAsked : ℕ → Option (List ℤ) → Type 0
AsAsked n none = Unit {0}
AsAsked n (some ms) = (length ms ≡ n) × AllPositive ms

pub read_ships-AsAsked : (n : ℕ) (q : Queue) → AsAsked n (read_ships n q)
unfolding read_ships
read_ships-AsAsked zero q = (refl, tt)
read_ships-AsAsked (suc n) q = elim (Option-cases (scan_value (queue_dequeue q).0)) [
  | inl e ↦ rw (e, read_ships) tt
  | inr (m, e) ↦ elim (Bool-cases (ltb_ℤ (pos 0) m)) [
    | inr low ↦ rw (e, read_ships, low) tt
    | inl high ↦ elim (Option-cases (read_ships n (queue_dequeue q).1)) [
      | inl r ↦ rw (e, read_ships, high, r) tt
      | inr (ms, r) ↦
          let rest = subst (AsAsked n) r (read_ships-AsAsked n (queue_dequeue q).1) in
          rw (e, read_ships, high, r) (ap suc rest.0, (high, rest.1))
    ]
  ]
]
