-- ===== src/Pfexec/Packet/Strings.antt =====
-- C strings in byte arrays: reading up to a NUL, comparing, and writing at a position.
use cprogramming.Prelude.{
  ℕ, zero, suc, ◌+◌, ◌-◌, ◌≤◌, ◌≡◌, ◌≢◌, refl, ap, arith, Bool, true, false, List, [], ◌∷◌, ◌++◌,
  ◌==◌, if◌then◌else◌, length,
}

-- The bytes before the first NUL, or all of them.
unfoldable pub c_string : List ℕ → List ℕ
c_string [] = []
c_string (c ∷ s) = if c == 0 then [] else c ∷ c_string s

abbrev pub drop : ℕ → List ℕ → List ℕ
drop zero s = s
drop (suc n) [] = []
drop (suc n) (c ∷ s) = drop n s

abbrev pub strlen : List ℕ → ℕ
strlen s = length (c_string s)

-- The string that begins at a place of an area.
abbrev pub string_at : List ℕ → ℕ → List ℕ
string_at area offset = c_string (drop offset area)

-- `strncmp` of two strings without their NULs: whether it is 0.
unfoldable pub strncmp_eq : List ℕ → List ℕ → ℕ → Bool
strncmp_eq a b zero = true
strncmp_eq [] [] (suc n) = true
strncmp_eq [] (c ∷ b) (suc n) = false
strncmp_eq (c ∷ a) [] (suc n) = false
strncmp_eq (c ∷ a) (d ∷ b) (suc n) = if c == d then strncmp_eq a b n else false

-- `strcmp`: whether it is 0.
unfoldable pub strcmp_eq : List ℕ → List ℕ → Bool
strcmp_eq [] [] = true
strcmp_eq [] (c ∷ b) = false
strcmp_eq (c ∷ a) [] = false
strcmp_eq (c ∷ a) (d ∷ b) = if c == d then strcmp_eq a b else false

-- The bytes go over those of the area from a place on. What would stand behind its end is dropped.
abbrev pub put_bytes : List ℕ → ℕ → List ℕ → List ℕ
put_bytes area place [] = area
put_bytes [] place (b ∷ bs) = []
put_bytes (a ∷ area) zero (b ∷ bs) = b ∷ put_bytes area zero bs
put_bytes (a ∷ area) (suc place) (b ∷ bs) = a ∷ put_bytes area place (b ∷ bs)

-- No NUL stands in it.
abbrev pub IsString : List ℕ → Type 0
IsString [] = Unit {0}
IsString (c ∷ s) = (c ≢ 0) × IsString s

pub c_string-append : (s rest : List ℕ) → IsString s → c_string (s ++ (0 ∷ rest)) ≡ s
unfolding c_string
c_string-append [] rest h = refl
c_string-append (c ∷ s) rest h = ground (arith, c_string-append s rest h.1)

pub drop-append : (s rest : List ℕ) (n : ℕ) → drop (length s + n) (s ++ rest) ≡ drop n rest
drop-append [] rest n = ap (λ k. drop k rest) (zero_add_left n)
  where
    zero_add_left : (n : ℕ) → 0 + n ≡ n
    zero_add_left n = omega arith
drop-append (c ∷ s) rest n = rw (suc_add_left (length s) n) (drop-append s rest n)
  where
    suc_add_left : (m n : ℕ) → suc m + n ≡ suc (m + n)
    suc_add_left m n = omega arith

pub put_bytes-append :
    (done area bs : List ℕ)
    → put_bytes (done ++ area) (length done) bs ≡ done ++ put_bytes area 0 bs
put_bytes-append [] area bs = refl
put_bytes-append (d ∷ done) area [] = refl
put_bytes-append (d ∷ done) area (b ∷ bs) = ap (λ s. d ∷ s) (put_bytes-append done area (b ∷ bs))

pub put_bytes-start :
    (area bs : List ℕ) → length bs ≤ length area → put_bytes area 0 bs ≡ bs ++ drop (length bs) area
put_bytes-start area [] h = refl
put_bytes-start [] (b ∷ bs) h = absurd (omega arith)
put_bytes-start (a ∷ area) (b ∷ bs) h = ap (λ s. b ∷ s) (put_bytes-start area bs (omega arith))

pub length-drop : (n : ℕ) (s : List ℕ) → length (drop n s) ≡ length s - n
length-drop zero s = omega arith
length-drop (suc n) [] = omega arith
length-drop (suc n) (c ∷ s) = omega (arith, length-drop n s)

pub length-put_bytes :
    (area : List ℕ) (place : ℕ) (bs : List ℕ) → length (put_bytes area place bs) ≡ length area
length-put_bytes area place [] = refl
length-put_bytes [] place (b ∷ bs) = refl
length-put_bytes (a ∷ area) zero (b ∷ bs) = ap suc (length-put_bytes area zero bs)
length-put_bytes (a ∷ area) (suc place) (b ∷ bs) = ap suc (length-put_bytes area place (b ∷ bs))
