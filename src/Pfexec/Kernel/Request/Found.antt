-- ===== src/Pfexec/Kernel/Request/Found.antt =====
-- fill_mbuf and the daemon's tests together: strings that take at most half of the area are found
-- where the request says, and pass the tests. Longer ones may be written past the end of the area.
use cprogramming.Prelude.{
  ℕ, zero, suc, ◌+◌, ◌-◌, ◌*◌, ◌^◌, ◌≤◌, ◌<◌, ◌≡◌, refl, ap, ◌∙◌, arith, true, false, some, List,
  [], ◌∷◌, ◌++◌, length, length-append, get_or, set, take,
}
use cprogramming.Pfexec.Packet.{Text, Arg, zero_arg, some_bad_ref}
use cprogramming.Pfexec.Packet.Refs.{some_bad_ref-none}
use cprogramming.Pfexec.Packet.Strings.{
  IsString, c_string-append, c_string, drop, drop-append, string_at, length-put_bytes,
}
use cprogramming.Pfexec.Kernel.Request.{
  Filling, fill_strings, fill_area, fill_one, size_sub, size_add,
}
use cprogramming.Pfexec.Kernel.Request.Copies.{flatten, offset, Stored, fill_strings-Stored}

abbrev pub AllStrings : List Text → Type 0
AllStrings [] = Unit {0}
AllStrings (s ∷ ss) = IsString s × AllStrings ss

append_assoc : (a b c : Text) → (a ++ b) ++ c ≡ a ++ (b ++ c)
append_assoc [] b c = refl
append_assoc (x ∷ a) b c = ap (λ t. x ∷ t) (append_assoc a b c)

string_at-flatten :
    (ss : List Text) (tail : Text) (k : ℕ)
    → AllStrings ss
    → k < length ss
    → string_at (flatten ss ++ tail) (offset k ss) ≡ get_or ss k []
string_at-flatten [] tail k h lt = absurd (omega arith)
string_at-flatten (s ∷ ss) tail zero h lt =
    ap c_string (append_assoc s (0 ∷ flatten ss) tail) ∙ c_string-append s (flatten ss ++ tail) h.0
string_at-flatten (s ∷ ss) tail (suc k) h lt =
    ap c_string (
      ap (drop (length s + 1 + offset k ss)) (append_assoc s (0 ∷ flatten ss) tail)
      ∙ ap (λ n. drop n (s ++ (0 ∷ (flatten ss ++ tail)))) (moved (length s) (offset k ss))
      ∙ drop-append s (0 ∷ (flatten ss ++ tail)) (suc (offset k ss)))
    ∙ string_at-flatten ss tail k h.1 (omega arith)
  where
    moved : (a b : ℕ) → a + 1 + b ≡ a + suc b
    moved a b = omega arith

offset-lt :
    (ss : List Text) (k : ℕ)
    → k < length ss
    → offset k ss + length (get_or ss k []) < length (flatten ss)
offset-lt [] k h = absurd (omega arith)
offset-lt (s ∷ ss) zero h = omega (arith, length-append s (0 ∷ flatten ss))
offset-lt (s ∷ ss) (suc k) h =
    omega (arith, length-append s (0 ∷ flatten ss), offset-lt ss k (omega arith))

set-append : (a t : Text) (p v : ℕ) → length a ≤ p → set (a ++ t) p v ≡ a ++ set t (p - length a) v
set-append [] t p v h = ap (λ n. set t n v) (omega arith)
set-append (x ∷ a) t zero v h = absurd (omega arith)
set-append (x ∷ a) t (suc p) v h =
    ap (λ s. x ∷ s)
      (set-append a t p v (omega arith) ∙ ap (λ n. a ++ set t n v) (less p (length a)))
  where
    less : (p n : ℕ) → p - n ≡ suc p - suc n
    less p n = omega arith

module _ (copyinstr : Text → ℕ → ℕ)
    (whole : (s : Text) (n : ℕ) → length s < n → copyinstr s n ≡ length s + 1) (arg_max : ℕ)
    (small : arg_max < 2 ^ 31) (refs : List Arg) (area : Text) (refs_size : length refs ≡ 1024)
    (area_size : length area ≡ arg_max) where
  abbrev start : Filling
  start = record { count = 0; max = arg_max; len = 0; refs = refs; area = area; within = true }

  stored :
      (ss : List Text)
      → 2 * length (flatten ss) ≤ arg_max
      → length ss ≤ 1024
      → Stored start (fill_strings copyinstr ss start) [] ss
  stored ss h c =
      fill_strings-Stored copyinstr whole arg_max small ss start [] area
        (record {
          area_is = refl;
          size_is = omega (arith, area_size);
          len_is = refl;
          max_is = omega arith;
          refs_are = refs_size;
        })
        (omega arith) (omega arith)

  module _ (ss : List Text) (strings : AllStrings ss) (h : 2 * length (flatten ss) ≤ arg_max)
      (f : Filling) (w : Stored start f [] ss) where
    found_offset : (k : ℕ) → k < length ss → (get_or f.refs k zero_arg).pfa_offset ≡ offset k ss
    found_offset k lt =
        ap (λ n. (get_or f.refs n zero_arg).pfa_offset) (zero_left k)
        ∙ ap (λ (a : Arg). a.pfa_offset) (w.refs_at k lt)
        ∙ omega arith
      where
        zero_left : (k : ℕ) → k ≡ 0 + k
        zero_left k = omega arith

    found_len :
        (k : ℕ) → k < length ss → (get_or f.refs k zero_arg).pfa_len ≡ length (get_or ss k [])
    found_len k lt =
        ap (λ n. (get_or f.refs n zero_arg).pfa_len) (zero_left k)
        ∙ ap (λ (a : Arg). a.pfa_len) (w.refs_at k lt)
      where
        zero_left : (k : ℕ) → k ≡ 0 + k
        zero_left k = omega arith

    found_string :
        (k : ℕ)
        → k < length ss
        → string_at (set f.area (arg_max - 1) 0) (get_or f.refs k zero_arg).pfa_offset
          ≡ get_or ss k []
    found_string k lt =
        ap (string_at (set f.area (arg_max - 1) 0)) (found_offset k lt)
        ∙ ap (λ a. string_at (set a (arg_max - 1) 0) (offset k ss)) w.area_is
        ∙ ap (λ a. string_at a (offset k ss))
            (set-append (flatten ss) w.tail (arg_max - 1) 0 (omega (arith, offset-lt ss k lt)))
        ∙ string_at-flatten ss (set w.tail (arg_max - 1 - length (flatten ss)) 0) k strings lt

    found_good : some_bad_ref arg_max f.refs 0 f.count ≡ false
    found_good = some_bad_ref-none arg_max f.refs f.count 0 λ j p q. ground (
      arith,
      found_offset j (omega (arith, w.count_is)),
      found_len j (omega (arith, w.count_is)),
      offset-lt ss j (omega (arith, w.count_is)),
    )

  -- Strings that with their NULs take at most half of the area, and fewer than 1024 of them, are all
  -- stored by fill_area, nothing is written outside of the area, the reference to each says how long
  -- it is and leads to the string itself, the references behind them are untouched, and no reference
  -- fails the daemon's tests.
  pub fill_area_lem :
      (ss : List Text)
      → AllStrings ss
      → 2 * length (flatten ss) ≤ arg_max
      → length ss < 1024
      → let f = fill_area copyinstr arg_max (some ss) refs area in
        (f.count ≡ length ss)
        × (f.within ≡ true)
        × ((k : ℕ)
            → k < length ss
            → (string_at f.area (get_or f.refs k zero_arg).pfa_offset ≡ get_or ss k [])
              × ((get_or f.refs k zero_arg).pfa_len ≡ length (get_or ss k [])))
        × ((k : ℕ) → length ss ≤ k → get_or f.refs k zero_arg ≡ get_or refs k zero_arg)
        × (some_bad_ref arg_max f.refs 0 f.count ≡ false)
  unfolding fill_area
  fill_area_lem ss strings h c =
      let w = stored ss h (omega arith) in
      (
        omega (arith, w.count_is),
        w.within_is,
        λ k lt. (found_string ss strings h _ w k lt, found_len ss strings h _ w k lt),
        λ k le. w.refs_after k (omega arith),
        found_good ss strings h _ w,
      )

  -- If a first string takes more than half of the area, and a second one does not fit behind it, then
  -- fill_area writes the second past the end of the area: the room that it states to copyinstr is
  -- below 0, and so of the order of 2^64.
  pub fill_area_overflow :
      (a b : Text)
      → length a + 1 < arg_max
      → arg_max < 2 * (length a + 1)
      → arg_max < length a + length b + 2
      → length b < 2 ^ 31
      → (fill_area copyinstr arg_max (some (a ∷ b ∷ [])) refs area).within ≡ false
  unfolding fill_area fill_strings fill_one
  fill_area_overflow a b p q r u =
      let first : copyinstr a (size_sub arg_max 0) ≡ length a + 1 = whole a _ (omega arith) in
      let room = size_sub (size_sub arg_max (length a + 1)) (size_add 0 (length a + 1)) in
      let second : copyinstr b room ≡ length b + 1 = whole b room (omega arith) in
      rw (first, second)
        (ground (arith, area_size, length-put_bytes area 0 (take (length a + 1) (a ++ (0 ∷ [])))))
