-- ===== src/Link/Map/Clients.antt =====
-- RTabel.h: the client that is found behind an address.
use cprogramming.Prelude.{
  ℕ, ◌≡◌, refl, arith, inl, inr, false, not, ◌&&◌, List, [], ◌∷◌, ◌++◌, ◌==◌, if◌then◌else◌,
  Bool-cases,
}
use cprogramming.Link.Map.{tabel_find, tabel_append}

-- No entry has NULL for its client.
abbrev AllClients : List (ℕ × ℕ) → Type 0
AllClients [] = Unit {0}
AllClients ((d, client) ∷ tabel) = (client == 0 ≡ false) × AllClients tabel

-- Only an address that is not yet found is found by an entry at the end.
tabel_find-end :
    (tabel : List (ℕ × ℕ)) (client dst a : ℕ)
    → AllClients tabel
    → tabel_find (tabel ++ (dst, client) ∷ []) a
      ≡ (if tabel_find tabel a == 0 then if dst == a then client else 0 else tabel_find tabel a)
unfolding tabel_find
tabel_find-end [] client dst a good = refl
tabel_find-end ((d, c) ∷ tabel) client dst a good =
    ground (arith, tabel_find-end tabel client dst a good.1, good.0)

AllClients-end :
    (tabel : List (ℕ × ℕ)) (client dst : ℕ)
    → AllClients tabel
    → client == 0 ≡ false
    → AllClients (tabel ++ (dst, client) ∷ [])
AllClients-end [] client dst good new = (new, tt)
AllClients-end ((d, c) ∷ tabel) client dst good new =
    (good.0, AllClients-end tabel client dst good.1 new)

tabel_append-AllClients :
    (tabel : List (ℕ × ℕ)) (client dst : ℕ)
    → AllClients tabel
    → AllClients (tabel_append tabel client dst)
unfolding tabel_append
tabel_append-AllClients tabel client dst good = elim (Bool-cases (client == 0)) [
  | inl none ↦ rw none good
  | inr one ↦ elim (Bool-cases (tabel_find tabel dst == 0)) [
    | inl new ↦ rw (one, new) (AllClients-end tabel client dst good one)
    | inr old ↦ rw (one, old) good
  ]
]

tabel_append-find :
    (tabel : List (ℕ × ℕ)) (client dst a : ℕ)
    → AllClients tabel
    → tabel_find (tabel_append tabel client dst) a ≡ (
        if tabel_find tabel a == 0
        then if not (client == 0) && dst == a then client else 0
        else tabel_find tabel a)
unfolding tabel_append
tabel_append-find tabel client dst a good = ground (arith, tabel_find-end tabel client dst a good)

-- Calls of rTabel_append, by their client and their address
abbrev pub tabel_all : List (ℕ × ℕ) → List (ℕ × ℕ) → List (ℕ × ℕ)
tabel_all tabel [] = tabel
tabel_all tabel ((client, dst) ∷ calls) = tabel_all (tabel_append tabel client dst) calls

-- The first client that a call states for an address, or NULL
abbrev pub first_client : List (ℕ × ℕ) → ℕ → ℕ
first_client [] a = 0
first_client ((client, dst) ∷ calls) a =
    if not (client == 0) && dst == a then client else first_client calls a

tabel_all-from :
    (calls tabel : List (ℕ × ℕ)) (a : ℕ)
    → AllClients tabel
    → tabel_find (tabel_all tabel calls) a
      ≡ (if tabel_find tabel a == 0 then first_client calls a else tabel_find tabel a)
tabel_all-from [] tabel a good = ground arith
tabel_all-from ((client, dst) ∷ calls) tabel a good = ground (
  arith,
  tabel_all-from calls (tabel_append tabel client dst) a
      (tabel_append-AllClients tabel client dst good),
  tabel_append-find tabel client dst a good,
)

-- Whatever calls of rTabel_append were made on an empty table, rTabel_find finds for an address the
-- client of the first call that states one, and NULL if no call has.
tabel_all-first :
    (calls : List (ℕ × ℕ)) (a : ℕ) → tabel_find (tabel_all [] calls) a ≡ first_client calls a
unfolding tabel_find
tabel_all-first calls a = tabel_all-from calls [] a tt
