-- ===== src/Link/Map/Least.antt =====
-- RMap.h: what the map says of a distance after an append.
use cprogramming.Prelude.{
  ℕ, ◌≡◌, refl, sym, ◌∙◌, ap, arith, inl, inr, Bool, true, false, ◌&&◌, Option, none, some, List,
  [], ◌∷◌, ◌++◌, ◌==◌, if◌then◌else◌, Bool-cases, min, ==→≡, ==_self,
}
use cprogramming.Link.Map.{
  Dist, Elem, find_to_ip, find_from_ip, set_distance, set_dists, hold, append_found, append_new,
  append_by, append, longer, is_some,
}

-- The distance that the map finds first
abbrev pub distance_of : Option Dist → Option ℕ
distance_of none = none
distance_of (some d) = some d.distance

abbrev pub distance_in : Option Elem → ℕ → Option ℕ
distance_in none to_ip = none
distance_in (some e) to_ip = distance_of (find_to_ip e.dists to_ip)

abbrev pub distance_from : List Elem → ℕ → ℕ → Option ℕ
distance_from map from_ip to_ip = distance_in (find_from_ip map from_ip) to_ip

abbrev pub lesser : Option ℕ → ℕ → Option ℕ
lesser none d = some d
lesser (some old) d = some (min old d)

-- An address put at the end is found if it was not there.
find_from_ip-append :
    (map : List Elem) (e : Elem) (a : ℕ)
    → find_from_ip (map ++ e ∷ []) a ≡ (
        if is_some (find_from_ip map a)
        then find_from_ip map a
        else if e.from_ip == a
        then some e
        else none)
unfolding find_from_ip
find_from_ip-append [] e a = refl
find_from_ip-append (x ∷ map) e a = ground (arith, find_from_ip-append map e a)

find_to_ip-append :
    (ds : List Dist) (d : Dist) (a : ℕ)
    → find_to_ip (ds ++ d ∷ []) a ≡ (
        if is_some (find_to_ip ds a)
        then find_to_ip ds a
        else if d.to_ip == a
        then some d
        else none)
unfolding find_to_ip
find_to_ip-append [] d a = refl
find_to_ip-append (x ∷ ds) d a = ground (arith, find_to_ip-append ds d a)

-- An element without distances changes none.
hold-distance :
    (map : List Elem) (to_ip a b : ℕ) → distance_from (hold map to_ip) a b ≡ distance_from map a b
unfolding hold find_to_ip
hold-distance map to_ip a b =
    ground (arith, find_from_ip-append map (record { from_ip = to_ip; dists = [] }) a)

set_dists-find :
    (map : List Elem) (e : Elem) (from_ip a : ℕ) (ds : List Dist)
    → find_from_ip map from_ip ≡ some e
    → find_from_ip (set_dists map from_ip ds) a
      ≡ (if from_ip == a then some (record e { dists = ds }) else find_from_ip map a)
unfolding find_from_ip set_dists
set_dists-find [] e from_ip a ds h = cc
set_dists-find (x ∷ map) e from_ip a ds h = ground (arith, set_dists-find map e from_ip a ds)

set_distance-find :
    (ds : List Dist) (to_ip a distance : ℕ)
    → is_some (find_to_ip ds to_ip) ≡ true
    → distance_of (find_to_ip (set_distance ds to_ip distance) a)
      ≡ (if to_ip == a then some distance else distance_of (find_to_ip ds a))
unfolding find_to_ip set_distance
set_distance-find [] to_ip a distance h = cc
set_distance-find (x ∷ ds) to_ip a distance h =
    ground (arith, set_distance-find ds to_ip a distance)

find_from_ip-same :
    (map : List Elem) (e : Elem) (a : ℕ) → find_from_ip map a ≡ some e → e.from_ip ≡ a
unfolding find_from_ip
find_from_ip-same [] e a h = cc
find_from_ip-same (x ∷ map) e a h = ground (arith, find_from_ip-same map e a)

set_dists-distance :
    (map : List Elem) (e : Elem) (from_ip : ℕ) (ds : List Dist) (a b : ℕ)
    → find_from_ip map from_ip ≡ some e
    → distance_from (set_dists map from_ip ds) a b
      ≡ (if from_ip == a then distance_of (find_to_ip ds b) else distance_from map a b)
set_dists-distance map e from_ip ds a b found =
    ap (λ o. distance_in o b) (set_dists-find map e from_ip a ds found) ∙ either_way (from_ip == a)
  where
    either_way :
        (c : Bool)
        → distance_in (if c then some (record e { dists = ds }) else find_from_ip map a) b
          ≡ (if c then distance_of (find_to_ip ds b) else distance_from map a b)
    either_way true = refl
    either_way false = refl

-- A smaller distance, or one more entry: for the address itself, the lesser counts.
shorter_entry :
    (ds : List Dist) (to_ip distance b : ℕ)
    → longer (find_to_ip ds to_ip) distance ≡ true
    → distance_of (find_to_ip (set_distance ds to_ip distance) b) ≡ (
        if to_ip == b
        then lesser (distance_of (find_to_ip ds to_ip)) distance
        else distance_of (find_to_ip ds b))
shorter_entry ds to_ip distance b h = ground (arith, set_distance-find ds to_ip b distance)

more_entries :
    (ds : List Dist) (to_ip distance b : ℕ)
    → longer (find_to_ip ds to_ip) distance ≡ false
    → distance_of (find_to_ip (ds ++ record { to_ip = to_ip; distance = distance } ∷ []) b) ≡ (
        if to_ip == b
        then lesser (distance_of (find_to_ip ds to_ip)) distance
        else distance_of (find_to_ip ds b))
more_entries ds to_ip distance b h =
    ground (arith, find_to_ip-append ds (record { to_ip = to_ip; distance = distance }) b)

-- The entry of an address is what its element says.
entry_of :
    (map : List Elem) (e : Elem) (from_ip a b : ℕ)
    → find_from_ip map from_ip ≡ some e
    → from_ip == a ≡ true
    → distance_from map a b ≡ distance_of (find_to_ip e.dists b)
entry_of map e from_ip a b found same =
    ap (λ n. distance_from map n b) (sym (==→≡ from_ip a same)) ∙ ap (λ o. distance_in o b) found

-- The distances of an element, `ds`, being the old ones but for `to_ip`
renewed :
    (map : List Elem) (e : Elem) (ds : List Dist) (from_ip to_ip distance a b : ℕ)
    → find_from_ip map from_ip ≡ some e
    → distance_of (find_to_ip ds b) ≡ (
        if to_ip == b
        then lesser (distance_of (find_to_ip e.dists to_ip)) distance
        else distance_of (find_to_ip e.dists b))
    → distance_from (set_dists map from_ip ds) a b ≡ (
        if from_ip == a && to_ip == b
        then lesser (distance_from map from_ip to_ip) distance
        else distance_from map a b)
renewed map e ds from_ip to_ip distance a b found entry = ground (
  arith,
  set_dists-distance map e from_ip ds a b found,
  entry_of map e from_ip a b found,
  entry_of map e from_ip from_ip to_ip found (==_self from_ip),
)

append_found-distance :
    (map : List Elem) (e : Elem) (from_ip to_ip distance a b : ℕ)
    → find_from_ip map from_ip ≡ some e
    → distance_from (append_found map e to_ip distance) a b ≡ (
        if from_ip == a && to_ip == b
        then lesser (distance_from map from_ip to_ip) distance
        else distance_from map a b)
unfolding append_found
append_found-distance map e from_ip to_ip distance a b found =
    let same = find_from_ip-same map e from_ip found in
    elim (Bool-cases (longer (find_to_ip e.dists to_ip) distance)) [
      | inl less ↦
          rw (same, less)
            (renewed map e _ from_ip to_ip distance a b found
              (shorter_entry e.dists to_ip distance b less))
      | inr more ↦
          rw (same, more)
            (hold-distance _ to_ip a b
              ∙ renewed map e _ from_ip to_ip distance a b found
                  (more_entries e.dists to_ip distance b more))
    ]

append_new-distance :
    (map : List Elem) (from_ip to_ip distance a b : ℕ)
    → find_from_ip map from_ip ≡ none
    → distance_from (append_new map from_ip to_ip distance) a b
      ≡ (if from_ip == a && to_ip == b then some distance else distance_from map a b)
unfolding append_new find_to_ip
append_new-distance map from_ip to_ip distance a b missing =
    let d : Dist = record { to_ip = to_ip; distance = distance } in
    let new : Elem = record { from_ip = from_ip; dists = d ∷ [] } in
    ground (arith, hold-distance (map ++ new ∷ []) to_ip a b, find_from_ip-append map new a)

append_by-distance :
    (map : List Elem) (o : Option Elem) (from_ip to_ip distance a b : ℕ)
    → find_from_ip map from_ip ≡ o
    → distance_from (append_by o map from_ip to_ip distance) a b ≡ (
        if from_ip == a && to_ip == b
        then lesser (distance_from map from_ip to_ip) distance
        else distance_from map a b)
unfolding append_by
append_by-distance map none from_ip to_ip distance a b found =
    append_new-distance map from_ip to_ip distance a b found
    ∙ ap
        (λ o.
          if from_ip == a && to_ip == b
          then lesser (distance_in o to_ip) distance
          else distance_from map a b)
        (sym found)
append_by-distance map (some e) from_ip to_ip distance a b found =
    append_found-distance map e from_ip to_ip distance a b found

append-distance :
    (map : List Elem) (from_ip to_ip distance a b : ℕ)
    → distance_from (append map from_ip to_ip distance) a b ≡ (
        if from_ip == a && to_ip == b
        then lesser (distance_from map from_ip to_ip) distance
        else distance_from map a b)
append-distance [] from_ip to_ip distance a b =
    unfold append find_from_ip find_to_ip in ground arith
append-distance (e ∷ map) from_ip to_ip distance a b =
    unfold append in
    append_by-distance (e ∷ map) (find_from_ip (e ∷ map) from_ip) from_ip to_ip distance a b refl

-- Calls of rMap_append, by their arguments, one after the other
abbrev pub Route : Type 0
Route = record { from_ip : ℕ; to_ip : ℕ; distance : ℕ }

abbrev pub append_all : List Elem → List Route → List Elem
append_all map [] = map
append_all map (r ∷ routes) = append_all (append map r.from_ip r.to_ip r.distance) routes

abbrev pub nearer : Option ℕ → Option ℕ → Option ℕ
nearer none o = o
nearer (some m) none = some m
nearer (some m) (some n) = some (min m n)

-- The least distance that any of the calls states from `a` to `b`, if there is one.
abbrev pub least : ℕ → ℕ → List Route → Option ℕ
least a b [] = none
least a b (r ∷ routes) =
    nearer (if r.from_ip == a && r.to_ip == b then some r.distance else none) (least a b routes)

nearer-lesser :
    (old rest : Option ℕ) (d : ℕ) → nearer (lesser old d) rest ≡ nearer old (nearer (some d) rest)
nearer-lesser none none d = refl
nearer-lesser none (some n) d = refl
nearer-lesser (some m) none d = refl
nearer-lesser (some m) (some n) d = ap some (omega arith)

nearer-none : (o : Option ℕ) → nearer o none ≡ o
nearer-none none = refl
nearer-none (some n) = refl

append_all-from :
    (routes : List Route) (map : List Elem) (a b : ℕ)
    → distance_from (append_all map routes) a b ≡ nearer (distance_from map a b) (least a b routes)
append_all-from [] map a b = sym (nearer-none _)
append_all-from (r ∷ routes) map a b =
    append_all-from routes (append map r.from_ip r.to_ip r.distance) a b
    ∙ ap (λ o. nearer o (least a b routes)) (append-distance map r.from_ip r.to_ip r.distance a b)
    ∙ joined
  where
    same :
        r.from_ip == a && r.to_ip == b ≡ true
        → distance_from map r.from_ip r.to_ip ≡ distance_from map a b
    same both =
        ap (λ n. distance_from map n r.to_ip) (==→≡ r.from_ip a (ground arith))
        ∙ ap (λ n. distance_from map a n) (==→≡ r.to_ip b (ground arith))

    joined :
        nearer
          (if r.from_ip == a && r.to_ip == b
            then lesser (distance_from map r.from_ip r.to_ip) r.distance
            else distance_from map a b)
          (least a b routes)
        ≡ nearer (distance_from map a b) (least a b (r ∷ routes))
    joined = elim (Bool-cases (r.from_ip == a && r.to_ip == b)) [
      | inr other ↦ rw other
      | inl both ↦
          rw (both, same both) (nearer-lesser (distance_from map a b) (least a b routes) r.distance)
    ]

-- From the empty map, whatever calls were made, the distance that rMap_find_from_ip and rMap_find_to_ip
-- find from one address to another is the least that a call has stated for them, and none if no call
-- has.
pub append_all-least :
    (routes : List Route) (a b : ℕ) → distance_from (append_all [] routes) a b ≡ least a b routes
unfolding find_from_ip
append_all-least routes a b = append_all-from routes [] a b
