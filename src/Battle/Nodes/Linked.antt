-- ===== src/Battle/Nodes/Linked.antt =====
-- list.c: the nodes of a list, linked in both directions, and what the two ends are.
use cprogramming.Prelude.{
  ℕ, ◌≡◌, ◌≢◌, refl, sym, ◌∙◌, ap, arith, inl, inr, Bool, true, false, ◌||◌, none, some, List, [],
  ◌∷◌, ◌++◌, ◌==◌, length, Bool-cases, ==→≡,
}
use cprogramming.Battle.Text.{Thing}
use cprogramming.Battle.Nodes.{Ptr, Node, Heap, Ends}

-- What a list stands for: the address and the text of each node
abbrev pub Cells : Type 0
Cells = List (Ptr × Thing)

abbrev pub has_cell : Ptr → Cells → Bool
has_cell p [] = false
has_cell p ((a, t) ∷ xs) = p == a || has_cell p xs

abbrev pub first_of : Cells → Ptr
first_of [] = 0
first_of ((a, t) ∷ xs) = a

abbrev pub last_of : Ptr → Cells → Ptr
last_of b [] = b
last_of b ((a, t) ∷ xs) = last_of a xs

-- The nodes are distinct, each holds its text, and points to the one before, the first to `b`, and to
-- the one behind, the last to NULL.
abbrev pub Linked : Heap → Ptr → Cells → Type 0
Linked h b [] = Unit {0}
Linked h b ((a, t) ∷ xs) =
    (a ≢ 0)
    × (h a ≡ some (record { thing = t; prev = b; next = first_of xs }))
    × (has_cell a xs ≡ false)
    × Linked h a xs

pub record IsList (h : Heap) (l : Ends) (xs : Cells) : Type 0 where
  pub linked : Linked h 0 xs
  pub at_head : l.head ≡ first_of xs
  pub at_tail : l.tail ≡ last_of 0 xs
  pub counted : l.size ≡ length xs

-- A change elsewhere leaves the links.
pub Linked-frame :
    (h g : Heap) (b : Ptr) (xs : Cells)
    → Linked h b xs
    → ((p : Ptr) → has_cell p xs ≡ true → g p ≡ h p)
    → Linked g b xs
Linked-frame h g b [] s same = tt
Linked-frame h g b ((a, t) ∷ xs) s same = (
  s.0,
  same a (ground arith) ∙ s.1,
  s.2,
  Linked-frame h g a xs s.3 (λ p i. same p (ground arith)),
)

pub held_differs : (h : Heap) (a n : Ptr) (x : Node) → h a ≡ some x → h n ≡ none → a == n ≡ false
held_differs h a n x held fresh = elim (Bool-cases (a == n)) [
  | inl same ↦ clash (sym held ∙ ap h (==→≡ a n same) ∙ fresh)
  | inr other ↦ other
]
  where
    clash : {P : Type 0} → some x ≡ none → P
    clash e = cc

pub has_cell_differs :
    (a p : Ptr) (xs : Cells) → has_cell a xs ≡ false → has_cell p xs ≡ true → a == p ≡ false
has_cell_differs a p xs out into = elim (Bool-cases (a == p)) [
  | inl same ↦ clash (sym (ap (λ q. has_cell q xs) (==→≡ a p same) ∙ into) ∙ out)
  | inr other ↦ other
]
  where
    clash : {P : Type 0} → true ≡ false → P
    clash e = cc

pub ==-flip : (a b : ℕ) → a == b ≡ false → b == a ≡ false
==-flip a b e = ground arith

-- An address that holds nothing is none of the list.
pub Linked-fresh :
    (h : Heap) (b n : Ptr) (xs : Cells) → Linked h b xs → h n ≡ none → has_cell n xs ≡ false
Linked-fresh h b n [] s fresh = refl
Linked-fresh h b n ((a, t) ∷ xs) s fresh =
    ground (arith, ==-flip a n (held_differs h a n _ s.1 fresh), Linked-fresh h a n xs s.3 fresh)

last_of-in : (a : Ptr) (t : Thing) (xs : Cells) → has_cell (last_of a xs) ((a, t) ∷ xs) ≡ true
last_of-in a t [] = ground arith
last_of-in a t ((c, u) ∷ xs) = ground (arith, last_of-in c u xs)

has_cell-append :
    (p n : Ptr) (t : Thing) (xs : Cells)
    → has_cell p (xs ++ (n, t) ∷ []) ≡ (has_cell p xs || p == n)
has_cell-append p n t [] = ground arith
has_cell-append p n t ((a, u) ∷ xs) = ground (arith, has_cell-append p n t xs)

-- A heap `g` in which the last node points to a new one, `n`, and `n` back to it
pub Linked-append :
    (h g : Heap) (b a n : Ptr) (u t : Thing) (xs : Cells)
    → n ≢ 0
    → h n ≡ none
    → g n ≡ some (record { thing = t; prev = last_of a xs; next = 0 })
    → ((x : Node) → h (last_of a xs) ≡ some x → g (last_of a xs) ≡ some (record x { next = n }))
    → ((p : Ptr) → p == n ≡ false → p == last_of a xs ≡ false → g p ≡ h p)
    → Linked h b ((a, u) ∷ xs)
    → Linked g b ((a, u) ∷ xs ++ (n, t) ∷ [])
Linked-append h g b a n u t [] ne fresh new old rest s =
    (s.0, old _ s.1, ground (arith, held_differs h a n _ s.1 fresh), (ne, new, refl, tt))
Linked-append h g b a n u t ((c, v) ∷ xs) ne fresh new old rest s =
    let other = held_differs h a n _ s.1 fresh in
    let inner = has_cell_differs a (last_of c xs) ((c, v) ∷ xs) s.2 (last_of-in c v xs) in
    (
      s.0,
      rest a other inner ∙ s.1,
      has_cell-append a n t ((c, v) ∷ xs) ∙ ground (arith, s.2, other),
      Linked-append h g a c n v t xs ne fresh new old rest s.3,
    )

-- The last node is there.
pub last_held :
    (h : Heap) (b a : Ptr) (t : Thing) (xs : Cells)
    → Linked h b ((a, t) ∷ xs)
    → (last_of a xs ≢ 0) × ((x : Node) × (h (last_of a xs) ≡ some x))
last_held h b a t [] s = (s.0, (_, s.1))
last_held h b a t ((c, u) ∷ xs) s = last_held h a c u xs s.3
