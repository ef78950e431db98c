-- ===== src/Battle/Nodes/Step.antt =====
-- list.c: what list_append and list_top make of a list.
use cprogramming.Prelude.{
  ◌+◌, ◌≡◌, ◌≢◌, refl, sym, ◌∙◌, ap, arith, false, Option, none, some, [], ◌∷◌, ◌++◌, ◌==◌, length,
  ==_self, ≢→==,
}
use cprogramming.Battle.Text.{Thing, thing_clean}
use cprogramming.Battle.Nodes.{
  Ptr, Node, Heap, Ends, write, load, node_make, node_set_next, node_set_prev, link_last,
  list_append, unlink_first, list_top,
}
use cprogramming.Battle.Nodes.Linked.{
  Cells, has_cell, first_of, last_of, Linked, IsList, Linked-frame, Linked-append, last_held,
  held_differs, has_cell_differs, ==-flip,
}

write-same : (h : Heap) (p : Ptr) (c : Option Node) → write h p c p ≡ c
unfolding write
write-same h p c = rw (==_self p) refl

write-other : (h : Heap) (p a : Ptr) (c : Option Node) → a == p ≡ false → write h p c a ≡ h a
unfolding write
write-other h p a c e = rw e refl

module _ (h : Heap) (p m : Ptr) (x : Node) (ne : p ≢ 0) (held : h p ≡ some x) where
  load-held : load p h ≡ some x
  unfolding load
  load-held = rw (≢→== p 0 ne) held

  set_next-held : node_set_next p m h ≡ some (write h p (some (record x { next = m })))
  unfolding node_set_next
  set_next-held = rw (load-held, node_set_next) refl

  set_prev-held : node_set_prev p m h ≡ some (write h p (some (record x { prev = m })))
  unfolding node_set_prev
  set_prev-held = rw (load-held, node_set_prev) refl

abbrev pub Appended : Cells → Option (Ends × Heap) → Type 0
Appended xs none = ⊥
Appended xs (some (l, h)) = IsList h l xs

-- A node that is not yet linked, at `n`
abbrev fresh_node : Thing → Node
fresh_node t = record { thing = thing_clean t; prev = 0; next = 0 }

abbrev pointing : Ptr → Option Node → Option Node
pointing n none = none
pointing n (some x) = some (record x { next = n })

length-snoc : (xs : Cells) (c : Ptr × Thing) → length (xs ++ c ∷ []) ≡ length xs + 1
length-snoc [] c = refl
length-snoc (x ∷ xs) c = omega (arith, length-snoc xs c)

last_of-snoc : (b n : Ptr) (t : Thing) (xs : Cells) → last_of b (xs ++ (n, t) ∷ []) ≡ n
last_of-snoc b n t [] = refl
last_of-snoc b n t ((a, u) ∷ xs) = last_of-snoc a n t xs

module _ (h : Heap) (n a : Ptr) (u t : Thing) (xs : Cells) (l : Ends) (x : Node) (ne : n ≢ 0)
    (fresh : h n ≡ none) (is : IsList h l ((a, u) ∷ xs)) (tail_ne : l.tail ≢ 0)
    (held : h l.tail ≡ some x) where
  -- The heap as the new node is with_node, as the last node points to it, and as it points back
  abbrev with_node : Heap
  with_node = node_make n t h

  abbrev pointed : Heap
  pointed = write with_node l.tail (some (record x { next = n }))

  abbrev linked_back : Heap
  linked_back = write pointed n (some (record (fresh_node t) { prev = l.tail }))

  other : l.tail == n ≡ false
  other = held_differs h l.tail n x held fresh

  with_node_tail : with_node l.tail ≡ some x
  unfolding node_make
  with_node_tail = write-other h n l.tail _ other ∙ held

  pointed_new : pointed n ≡ some (fresh_node t)
  unfolding node_make
  pointed_new = write-other _ l.tail n _ (==-flip l.tail n other) ∙ write-same h n _

  tail_is_last : l.tail ≡ last_of a xs
  tail_is_last = is.at_tail

  new_node : linked_back n ≡ some (record { thing = thing_clean t; prev = last_of a xs; next = 0 })
  new_node =
      write-same pointed n _
      ∙ ap (λ q. some (record { thing = thing_clean t; prev = q; next = 0 })) is.at_tail

  old_node :
      (y : Node)
      → h (last_of a xs) ≡ some y
      → linked_back (last_of a xs) ≡ some (record y { next = n })
  old_node y e =
      ap linked_back (sym is.at_tail)
      ∙ write-other pointed n l.tail _ other
      ∙ write-same with_node l.tail _
      ∙ ap (pointing n) (sym held ∙ ap h is.at_tail ∙ e)

  rest_kept : (p : Ptr) → p == n ≡ false → p == last_of a xs ≡ false → linked_back p ≡ h p
  unfolding node_make
  rest_kept p new old =
      write-other pointed n p _ new
      ∙ write-other with_node l.tail p _ (ap (λ q. p == q) is.at_tail ∙ old)
      ∙ write-other h n p _ new

  link_last-Appended : Appended ((a, u) ∷ xs ++ (n, thing_clean t) ∷ []) (link_last n l with_node)
  unfolding link_last
  link_last-Appended =
      rw
        (
          set_next-held with_node l.tail n x tail_ne with_node_tail,
          set_prev-held pointed n l.tail (fresh_node t) ne pointed_new,
        )
        (record {
          linked =
              Linked-append h linked_back 0 a n u (thing_clean t) xs ne fresh new_node old_node
                rest_kept is.linked;
          at_head = is.at_head;
          at_tail = sym (last_of-snoc a n (thing_clean t) xs);
          counted = omega (arith, is.counted, length-snoc xs (n, thing_clean t));
        })

-- A node that `malloc` gives at an address not in use goes to the end.
pub list_append-Appended :
    (h : Heap) (n : Ptr) (t : Thing) (xs : Cells) (l : Ends)
    → n ≢ 0
    → h n ≡ none
    → IsList h l xs
    → Appended (xs ++ (n, thing_clean t) ∷ []) (list_append n t l h)
unfolding list_append
list_append-Appended h n t [] l ne fresh is = rw (ap (λ p. p == 0) is.at_head) (
    unfold node_make in
    record {
      linked = (ne, write-same h n _, refl, tt);
      at_head = refl;
      at_tail = refl;
      counted = omega (arith, is.counted);
    })
list_append-Appended h n t ((a, u) ∷ xs) l ne fresh is =
    let (last_ne, (x, held)) = last_held h 0 a u xs is.linked in
    let tail_ne : l.tail ≢ 0 = λ e. last_ne (sym is.at_tail ∙ e) in
    rw (≢→== l.head 0 (λ e. is.linked.0 (sym is.at_head ∙ e)))
      (link_last-Appended h n a u t xs l x ne fresh is tail_ne (ap h is.at_tail ∙ held))

-- The text that comes out, and the list behind it
abbrev pub Topped : Option Thing → Cells → Option (Option Thing × Ends × Heap) → Type 0
Topped o xs none = ⊥
Topped o xs (some (t, l, h)) = (t ≡ o) × IsList h l xs

pub list_top-nil : (h : Heap) (l : Ends) → IsList h l [] → Topped none [] (list_top l h)
unfolding list_top
list_top-nil h l is = rw (ap (λ n. n == 0) is.counted) (refl, is)

-- The second node is the first one after that, and the others are as they were.
unlinked :
    (h : Heap) (p a c : Ptr) (t u : Thing) (xs : Cells)
    → p ≡ a
    → Linked h 0 ((a, t) ∷ (c, u) ∷ xs)
    → Linked
        (write (write h c (some (record { thing = u; prev = 0; next = first_of xs }))) p none)
        0
        ((c, u) ∷ xs)
unlinked h p a c t u xs at s =
    let apart : a == c ≡ false = ground (arith, s.2) in
    let out : has_cell a xs ≡ false = ground (arith, s.2) in
    (
      s.3.0,
      write-other _ p c _ (ap (λ q. c == q) at ∙ ==-flip a c apart) ∙ write-same h c _,
      s.3.2,
      Linked-frame h _ c xs s.3.3 (λ q i.
          write-other _ p q _ (ap (λ r. q == r) at ∙ ==-flip a q (has_cell_differs a q xs out i))
          ∙ write-other h c q _ (==-flip c q (has_cell_differs c q xs s.3.2 i))),
    )

-- The first node is taken off and freed.
pub list_top-cons :
    (h : Heap) (l : Ends) (a : Ptr) (t : Thing) (xs : Cells)
    → IsList h l ((a, t) ∷ xs)
    → Topped (some (thing_clean t)) xs (list_top l h)
unfolding list_top unlink_first
list_top-cons h l a t [] is =
    rw (size_not_0, load-head)
      (
        refl,
        record { linked = tt; at_head = refl; at_tail = refl; counted = omega (arith, is.counted) },
      )
  where
    size_not_0 : l.size == 0 ≡ false
    size_not_0 = ground (arith, is.counted)

    load-head : load l.head h ≡ some (record { thing = t; prev = 0; next = 0 })
    load-head = ap (λ p. load p h) is.at_head ∙ load-held h a 0 _ is.linked.0 is.linked.1
list_top-cons h l a t ((c, u) ∷ xs) is =
    rw
      (
        size_not_0,
        load-head,
        ≢→== c 0 is.linked.3.0,
        set_prev-held h c 0 _ is.linked.3.0 is.linked.3.1,
      )
      (
        refl,
        record {
          linked = unlinked h l.head a c t u xs is.at_head is.linked;
          at_head = refl;
          at_tail = is.at_tail;
          counted = omega (arith, is.counted);
        },
      )
  where
    size_not_0 : l.size == 0 ≡ false
    size_not_0 = ground (arith, is.counted)

    load-head : load l.head h ≡ some (record { thing = t; prev = 0; next = c })
    load-head = ap (λ p. load p h) is.at_head ∙ load-held h a 0 _ is.linked.0 is.linked.1
