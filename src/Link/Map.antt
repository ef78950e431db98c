-- ===== src/Link/Map.antt =====
-- RMap.h and RTabel.h: which addresses can be reached from which, how far it is, and through which
-- client a packet goes. The lists are lists; `holder`, which is written and nowhere read, is left out.
pub mod Least
pub mod Clients
pub mod Shortest
use cprogramming.Prelude.{
  ℕ, zero, suc, ◌+◌, ◌-◌, ◌^◌, Bool, true, false, not, ◌||◌, Option, none, some, List, [], ◌∷◌,
  ◌++◌, ◌==◌, ltb, if◌then◌else◌, bit_and,
}

-- `RMDist_t` and `RMElem_t`; the cursors and the tails of the lists are left out.
pub record Dist : Type 0 where
  pub to_ip : ℕ
  pub distance : ℕ

pub record Elem : Type 0 where
  pub from_ip : ℕ
  pub dists : List Dist

-- The loop of rmap_longest_prefix_mathing, with `i` bits to go
unfoldable pub prefix_loop : ℕ → ℕ → ℕ → ℕ → ℕ
prefix_loop zero a b matched = matched
prefix_loop (suc i) a b matched =
    let rest = prefix_loop i a b (matched + 1) in
    if bit_and a (2 ^ i) == bit_and b (2 ^ i) then rest else matched

-- `ntohl` is an argument.
unfoldable pub longest_prefix_matching : (ℕ → ℕ) → ℕ → ℕ → ℕ
longest_prefix_matching ntohl a b = prefix_loop 32 (ntohl a) (ntohl b) 0

-- The variables of the search, `found_from_ip` being 0 until one is found
pub record Found : Type 0 where
  pub from_ip : ℕ
  pub distance : ℕ
  pub prefix : ℕ

abbrev pub not_found : Found
not_found = record { from_ip = 0; distance = 0; prefix = 0 }

-- One entry of the list of `from_ip`, and that list
unfoldable pub look_at : (ℕ → ℕ) → ℕ → ℕ → Dist → Found → Found
look_at ntohl to_ip from_ip d found =
    let now = longest_prefix_matching ntohl to_ip found.from_ip in
    let tmp_prefix = longest_prefix_matching ntohl to_ip from_ip in
    if not (d.to_ip == to_ip)
    then found
    else if found.from_ip == 0 || ltb d.distance found.distance
    then record found { from_ip = from_ip; distance = d.distance }
    else if d.distance == found.distance
    then if ltb now tmp_prefix
      then record { from_ip = from_ip; distance = d.distance; prefix = tmp_prefix }
      else record found { prefix = now }
    else found

unfoldable pub look_at_all : (ℕ → ℕ) → ℕ → ℕ → List Dist → Found → Found
look_at_all ntohl to_ip from_ip [] found = found
look_at_all ntohl to_ip from_ip (d ∷ ds) found =
    look_at_all ntohl to_ip from_ip ds (look_at ntohl to_ip from_ip d found)

unfoldable pub look_through : (ℕ → ℕ) → ℕ → List Elem → Found → Found
look_through ntohl to_ip [] found = found
look_through ntohl to_ip (e ∷ map) found =
    look_through ntohl to_ip map (look_at_all ntohl to_ip e.from_ip e.dists found)

-- rMap_shortest_and_longest_matching_prefix_to
unfoldable pub shortest_to : (ℕ → ℕ) → List Elem → ℕ → ℕ
shortest_to ntohl map to_ip = (look_through ntohl to_ip map not_found).from_ip

-- rMap_find_to_ip and rMap_find_from_ip: what they leave in `foundD` and `found`
unfoldable pub find_to_ip : List Dist → ℕ → Option Dist
find_to_ip [] to_ip = none
find_to_ip (d ∷ ds) to_ip = if d.to_ip == to_ip then some d else find_to_ip ds to_ip

unfoldable pub find_from_ip : List Elem → ℕ → Option Elem
find_from_ip [] from_ip = none
find_from_ip (e ∷ map) from_ip = if e.from_ip == from_ip then some e else find_from_ip map from_ip

-- A write to what was found
unfoldable pub set_distance : List Dist → ℕ → ℕ → List Dist
set_distance [] to_ip distance = []
set_distance (d ∷ ds) to_ip distance =
    if d.to_ip == to_ip
    then record d { distance = distance } ∷ ds
    else d ∷ set_distance ds to_ip distance

unfoldable pub set_dists : List Elem → ℕ → List Dist → List Elem
set_dists [] from_ip ds = []
set_dists (e ∷ map) from_ip ds =
    if e.from_ip == from_ip then record e { dists = ds } ∷ map else e ∷ set_dists map from_ip ds

abbrev is_some {ℓ} : {A : Type ℓ} → Option A → Bool
is_some none = false
is_some (some a) = true

-- `to_ip` at the end of the list, if it is not there yet
unfoldable pub hold : List Elem → ℕ → List Elem
hold map to_ip =
    if is_some (find_from_ip map to_ip)
    then map
    else map ++ record { from_ip = to_ip; dists = [] } ∷ []

abbrev longer : Option Dist → ℕ → Bool
longer none distance = false
longer (some d) distance = ltb distance d.distance

-- The list of an address that was found
unfoldable pub append_found : List Elem → Elem → ℕ → ℕ → List Elem
append_found map e to_ip distance =
    if longer (find_to_ip e.dists to_ip) distance
    then set_dists map e.from_ip (set_distance e.dists to_ip distance)
    else hold
        (set_dists map e.from_ip (e.dists ++ record { to_ip = to_ip; distance = distance } ∷ []))
        to_ip

unfoldable pub append_new : List Elem → ℕ → ℕ → ℕ → List Elem
append_new map from_ip to_ip distance =
    let d : Dist = record { to_ip = to_ip; distance = distance } in
    hold (map ++ record { from_ip = from_ip; dists = d ∷ [] } ∷ []) to_ip

unfoldable pub append_by : Option Elem → List Elem → ℕ → ℕ → ℕ → List Elem
append_by none map from_ip to_ip distance = append_new map from_ip to_ip distance
append_by (some e) map from_ip to_ip distance = append_found map e to_ip distance

-- rMap_append, which returns true on every way. In an empty map both addresses get an element of
-- their own, also where they are the same.
unfoldable pub append : List Elem → ℕ → ℕ → ℕ → List Elem
append [] from_ip to_ip distance =
    record { from_ip = from_ip; dists = record { to_ip = to_ip; distance = distance } ∷ [] }
    ∷ record { from_ip = to_ip; dists = [] }
    ∷ []
append (e ∷ map) from_ip to_ip distance =
    append_by (find_from_ip (e ∷ map) from_ip) (e ∷ map) from_ip to_ip distance

-- RTabel.h: the clients, by the addresses behind them. A client is a number, NULL being 0.
unfoldable pub tabel_find : List (ℕ × ℕ) → ℕ → ℕ
tabel_find [] dst = 0
tabel_find ((d, client) ∷ tabel) dst = if d == dst then client else tabel_find tabel dst

unfoldable pub tabel_append : List (ℕ × ℕ) → ℕ → ℕ → List (ℕ × ℕ)
tabel_append tabel client dst =
    if client == 0
    then tabel
    else if not (tabel_find tabel dst == 0)
    then tabel
    else tabel ++ (dst, client) ∷ []
