-- ===== src/Link/Map/Shortest.antt =====
-- RMap.h: which address the search of the map finds.
use cprogramming.Prelude.{
  ℕ, ◌≡◌, ◌≢◌, ◌≤◌, ◌<◌, refl, sym, subst, arith, ◌⊎◌, inl, inr, true, false, ◌||◌, List, [], ◌∷◌,
  ◌==◌, ltb, if◌then◌else◌, Bool-cases, ==→≡,
}
use cprogramming.Link.Map.{
  Dist, Elem, Found, longest_prefix_matching, look_at, look_at_all, look_through, shortest_to,
  not_found,
}

-- The entries for an address, the last one first: each address that it is reached from, with the
-- distance; `seen` are those of the elements before.
abbrev pub entries_in : ℕ → ℕ → List Dist → List (ℕ × ℕ) → List (ℕ × ℕ)
entries_in to_ip from_ip [] seen = seen
entries_in to_ip from_ip (d ∷ ds) seen =
    entries_in to_ip from_ip ds (if d.to_ip == to_ip then (from_ip, d.distance) ∷ seen else seen)

abbrev pub entries : ℕ → List Elem → List (ℕ × ℕ) → List (ℕ × ℕ)
entries to_ip [] seen = seen
entries to_ip (e ∷ map) seen = entries to_ip map (entries_in to_ip e.from_ip e.dists seen)

-- No element is for the address 0.
abbrev pub AllReal : List Elem → Type 0
AllReal [] = Unit {0}
AllReal (e ∷ map) = (e.from_ip ≢ 0) × AllReal map

abbrev pub Among : ℕ × ℕ → List (ℕ × ℕ) → Type 0
Among b [] = ⊥
Among (f, d) ((g, e) ∷ l) = ((f ≡ g) × (d ≡ e)) ⊎ Among (f, d) l

module _ (ntohl : ℕ → ℕ) (to_ip : ℕ) where
  abbrev pub prefix_of : ℕ → ℕ
  prefix_of from_ip = longest_prefix_matching ntohl to_ip from_ip

  -- One entry is no worse than another: nearer, or as near and with at least as long a prefix.
  abbrev pub NoWorse : ℕ × ℕ → ℕ × ℕ → Type 0
  NoWorse (f, d) (g, e) = (d < e) ⊎ ((d ≡ e) × (prefix_of g ≤ prefix_of f))

  abbrev pub NoWorseThanAll : ℕ × ℕ → List (ℕ × ℕ) → Type 0
  NoWorseThanAll b [] = Unit {0}
  NoWorseThanAll b (x ∷ l) = NoWorse b x × NoWorseThanAll b l

  -- What has been found among the entries seen so far
  abbrev Best : Found → List (ℕ × ℕ) → Type 0
  Best found [] = found.from_ip ≡ 0
  Best found (x ∷ l) =
      (found.from_ip ≢ 0)
      × Among (found.from_ip, found.distance) (x ∷ l)
      × NoWorseThanAll (found.from_ip, found.distance) (x ∷ l)

  NoWorse-trans : (x y z : ℕ × ℕ) → NoWorse x y → NoWorse y z → NoWorse x z
  NoWorse-trans (f, d) (g, e) (h, i) (inl a) (inl b) = inl (omega arith)
  NoWorse-trans (f, d) (g, e) (h, i) (inl a) (inr (b, q)) = inl (omega arith)
  NoWorse-trans (f, d) (g, e) (h, i) (inr (a, p)) (inl b) = inl (omega arith)
  NoWorse-trans (f, d) (g, e) (h, i) (inr (a, p)) (inr (b, q)) = inr (omega arith, omega arith)

  NoWorse-all :
      (x y : ℕ × ℕ) (l : List (ℕ × ℕ)) → NoWorse x y → NoWorseThanAll y l → NoWorseThanAll x l
  NoWorse-all x y [] w a = tt
  NoWorse-all x y (z ∷ l) w (b, a) = (NoWorse-trans x y z w b, NoWorse-all x y l w a)

  take_over :
      (found : Found) (f d p : ℕ) (seen : List (ℕ × ℕ))
      → f ≢ 0
      → (found.from_ip ≡ 0) ⊎ NoWorse (f, d) (found.from_ip, found.distance)
      → Best found seen
      → Best (record { from_ip = f; distance = d; prefix = p }) ((f, d) ∷ seen)
  take_over found f d p [] real w b = (real, inl (refl, refl), (inr (refl, omega arith), tt))
  take_over found f d p (x ∷ l) real (inl none) b = absurd (b.0 none)
  take_over found f d p (x ∷ l) real (inr w) b =
      (real, inl (refl, refl), (inr (refl, omega arith), NoWorse-all (f, d) _ (x ∷ l) w b.2))

  stay :
      (found : Found) (f d p : ℕ) (seen : List (ℕ × ℕ))
      → found.from_ip ≢ 0
      → NoWorse (found.from_ip, found.distance) (f, d)
      → Best found seen
      → Best (record found { prefix = p }) ((f, d) ∷ seen)
  stay found f d p [] real w b = absurd (real b)
  stay found f d p (x ∷ l) real w b = (b.0, inr b.1, (w, b.2))

  Best-same : (l : List (ℕ × ℕ)) {a b : Found} → a ≡ b → Best b l → Best a l
  Best-same l e best = subst (λ f. Best f l) (sym e) best

  -- One entry
  module _ (from_ip : ℕ) (d : Dist) (found : Found) where
    look_at_other : d.to_ip == to_ip ≡ false → look_at ntohl to_ip from_ip d found ≡ found
    unfolding look_at
    look_at_other other = rw other

    look_at_nearer :
        d.to_ip == to_ip ≡ true
        → found.from_ip == 0 || ltb d.distance found.distance ≡ true
        → look_at ntohl to_ip from_ip d found
          ≡ record found { from_ip = from_ip; distance = d.distance }
    unfolding look_at
    look_at_nearer same near = rw (same, near)

    look_at_longer :
        d.to_ip == to_ip ≡ true
        → found.from_ip == 0 || ltb d.distance found.distance ≡ false
        → d.distance == found.distance ≡ true
        → ltb (prefix_of found.from_ip) (prefix_of from_ip) ≡ true
        → look_at ntohl to_ip from_ip d found
          ≡ record { from_ip = from_ip; distance = d.distance; prefix = prefix_of from_ip }
    unfolding look_at
    look_at_longer same far equal more = rw (same, far, equal, more)

    look_at_shorter :
        d.to_ip == to_ip ≡ true
        → found.from_ip == 0 || ltb d.distance found.distance ≡ false
        → d.distance == found.distance ≡ true
        → ltb (prefix_of found.from_ip) (prefix_of from_ip) ≡ false
        → look_at ntohl to_ip from_ip d found ≡ record found { prefix = prefix_of found.from_ip }
    unfolding look_at
    look_at_shorter same far equal less = rw (same, far, equal, less)

    look_at_farther :
        d.to_ip == to_ip ≡ true
        → found.from_ip == 0 || ltb d.distance found.distance ≡ false
        → d.distance == found.distance ≡ false
        → look_at ntohl to_ip from_ip d found ≡ found
    unfolding look_at
    look_at_farther same far other = rw (same, far, other)

    module _ (seen : List (ℕ × ℕ)) (real : from_ip ≢ 0) (best : Best found seen) where
      look_at-far :
          d.to_ip == to_ip ≡ true
          → found.from_ip == 0 || ltb d.distance found.distance ≡ false
          → Best (look_at ntohl to_ip from_ip d found) ((from_ip, d.distance) ∷ seen)
      look_at-far same far = elim (Bool-cases (d.distance == found.distance)) [
        | inr other ↦ Best-same ((from_ip, d.distance) ∷ seen) (look_at_farther same far other) (
            stay found from_ip d.distance found.prefix seen (ground arith) (inl (ground arith))
              best)
        | inl equal ↦ elim (Bool-cases (ltb (prefix_of found.from_ip) (prefix_of from_ip))) [
          | inl more ↦
              Best-same ((from_ip, d.distance) ∷ seen) (look_at_longer same far equal more) (
                take_over found from_ip d.distance (prefix_of from_ip) seen real
                  (inr (inr (ground arith, ground arith))) best)
          | inr less ↦
              Best-same ((from_ip, d.distance) ∷ seen) (look_at_shorter same far equal less) (
                stay found from_ip d.distance (prefix_of found.from_ip) seen (ground arith)
                  (inr (ground arith, ground arith)) best)
        ]
      ]

      nearer_or_none :
          found.from_ip == 0 || ltb d.distance found.distance ≡ true
          → (found.from_ip ≡ 0) ⊎ NoWorse (from_ip, d.distance) (found.from_ip, found.distance)
      nearer_or_none near = elim (Bool-cases (found.from_ip == 0)) [
        | inl none ↦ inl (==→≡ found.from_ip 0 none)
        | inr one ↦ inr (inl (ground arith))
      ]

      look_at-Best :
          Best
            (look_at ntohl to_ip from_ip d found)
            (if d.to_ip == to_ip then (from_ip, d.distance) ∷ seen else seen)
      look_at-Best = elim (Bool-cases (d.to_ip == to_ip)) [
        | inr other ↦ rw (look_at_other other, other) best
        | inl same ↦ elim (Bool-cases (found.from_ip == 0 || ltb d.distance found.distance)) [
          | inl near ↦ rw same (
              Best-same ((from_ip, d.distance) ∷ seen) (look_at_nearer same near) (
                take_over found from_ip d.distance found.prefix seen real (nearer_or_none near)
                  best))
          | inr far ↦ rw same (look_at-far same far)
        ]
      ]

  look_at_all-Best :
      (from_ip : ℕ) (ds : List Dist) (found : Found) (seen : List (ℕ × ℕ))
      → from_ip ≢ 0
      → Best found seen
      → Best (look_at_all ntohl to_ip from_ip ds found) (entries_in to_ip from_ip ds seen)
  unfolding look_at_all
  look_at_all-Best from_ip [] found seen real best = best
  look_at_all-Best from_ip (d ∷ ds) found seen real best =
      look_at_all-Best from_ip ds _ _ real (look_at-Best from_ip d found seen real best)

  look_through-Best :
      (map : List Elem) (found : Found) (seen : List (ℕ × ℕ))
      → AllReal map
      → Best found seen
      → Best (look_through ntohl to_ip map found) (entries to_ip map seen)
  unfolding look_through
  look_through-Best [] found seen real best = best
  look_through-Best (e ∷ map) found seen real best =
      look_through-Best map _ _ real.1 (look_at_all-Best e.from_ip e.dists found seen real.0 best)

  -- An answer of the search: 0 where there is no entry, else the address of an entry that no other is
  -- better than.
  abbrev pub IsAnswer : ℕ → List (ℕ × ℕ) → Type 0
  IsAnswer from_ip [] = from_ip ≡ 0
  IsAnswer from_ip (x ∷ l) =
      (from_ip ≢ 0) × ((d : ℕ) × Among (from_ip, d) (x ∷ l) × NoWorseThanAll (from_ip, d) (x ∷ l))

  Best-IsAnswer :
      (found : Found) (seen : List (ℕ × ℕ)) → Best found seen → IsAnswer found.from_ip seen
  Best-IsAnswer found [] best = best
  Best-IsAnswer found (x ∷ l) best = (best.0, (found.distance, best.1, best.2))

-- In a map that has no element for the address 0, the search answers 0 just when no address has an
-- entry for `to_ip`; else it answers the address of an entry that is nearest, and among the nearest
-- one whose prefix in common with `to_ip` is longest.
pub shortest_to-IsAnswer :
    (ntohl : ℕ → ℕ) (map : List Elem) (to_ip : ℕ)
    → AllReal map
    → IsAnswer ntohl to_ip (shortest_to ntohl map to_ip) (entries to_ip map [])
unfolding shortest_to
shortest_to-IsAnswer ntohl map to_ip real =
    Best-IsAnswer ntohl to_ip (look_through ntohl to_ip map not_found) (entries to_ip map [])
      (look_through-Best ntohl to_ip map not_found [] real refl)
