-- ===== src/Pfexec/Kernel/Request/Copies.antt =====
-- What the loops of fill_mbuf store: each string whole, with its place, if the strings and their NULs
-- take at most half of the area.
use cprogramming.Prelude.{
  ℕ, zero, suc, ◌+◌, ◌-◌, ◌*◌, ◌^◌, ◌≤◌, ◌<◌, ◌≡◌, refl, ap, sym, subst, ◌∙◌, arith, Bool, true,
  ◌&&◌, List, [], ◌∷◌, ◌++◌, ltb, length, length-append, length-set, get_or, take, get_or-set_self,
  get_or-set_ne,
}
use cprogramming.Pfexec.Packet.{Text, Arg, zero_arg}
use cprogramming.Pfexec.Packet.Strings.{
  put_bytes, put_bytes-append, put_bytes-start, drop, length-drop,
}
use cprogramming.Pfexec.Kernel.Request.{Filling, fill_one, fill_strings, size_sub}

-- The strings one after the other, each with its NUL, and where each begins.
abbrev pub flatten : List Text → Text
flatten [] = []
flatten (s ∷ ss) = s ++ (0 ∷ flatten ss)

abbrev pub offset : ℕ → List Text → ℕ
offset k [] = 0
offset zero (s ∷ ss) = 0
offset (suc k) (s ∷ ss) = length s + 1 + offset k ss

abbrev with_nul : Text → Text
with_nul s = s ++ (0 ∷ [])

length-with_nul : (s : Text) → length (with_nul s) ≡ length s + 1
length-with_nul s = omega (arith, length-append s (0 ∷ []))

take_all : (s : Text) → take (length s) s ≡ s
take_all [] = refl
take_all (c ∷ s) = ap (λ t. c ∷ t) (take_all s)

append_assoc : (a b c : Text) → (a ++ b) ++ c ≡ a ++ (b ++ c)
append_assoc [] b c = refl
append_assoc (x ∷ a) b c = ap (λ t. x ∷ t) (append_assoc a b c)

-- The variables after the strings `done`, in an area of `size` bytes of which `rest` is untouched.
pub record Regular (size : ℕ) (f : Filling) (done rest : Text) : Type 0 where
  pub area_is : f.area ≡ done ++ rest
  pub size_is : length done + length rest ≡ size
  pub len_is : f.len ≡ length done
  pub max_is : f.max ≡ size - length done
  pub refs_are : length f.refs ≡ 1024

with_nul-flatten :
    (done s : Text) (ss : List Text) → (done ++ with_nul s) ++ flatten ss ≡ done ++ flatten (s ∷ ss)
with_nul-flatten done s ss =
    append_assoc done (with_nul s) (flatten ss)
    ∙ ap (λ t. done ++ t) (append_assoc s (0 ∷ []) (flatten ss))

take-with_nul : (s : Text) → take (length s + 1) (with_nul s) ≡ with_nul s
take-with_nul s =
    subst (λ n. take n (with_nul s) ≡ with_nul s) (length-with_nul s) (take_all (with_nul s))

written :
    (s done rest : Text)
    → length s + 1 ≤ length rest
    → put_bytes (done ++ rest) (length done) (take (length s + 1) (with_nul s))
      ≡ (done ++ with_nul s) ++ drop (length s + 1) rest
written s done rest h =
    ap (put_bytes (done ++ rest) (length done)) (take-with_nul s)
    ∙ put_bytes-append done rest (with_nul s)
    ∙ ap (λ t. done ++ t) (put_bytes-start rest (with_nul s) (omega (arith, length-with_nul s)))
    ∙ ap (λ n. done ++ (with_nul s ++ drop n rest)) (length-with_nul s)
    ∙ sym (append_assoc done (with_nul s) (drop (length s + 1) rest))

append_nil : (a : Text) → a ++ [] ≡ a
append_nil [] = refl
append_nil (x ∷ a) = ap (λ t. x ∷ t) (append_nil a)

counted : (copied : ℕ) (f : Filling) (s : Text) → (fill_one copied f s).count ≡ f.count + 1
unfolding fill_one
counted copied f s = refl

same_arg :
    {o o' l l' : ℕ}
    → o ≡ o'
    → l ≡ l'
    → ◌≡◌ {A = Arg}
        (record { pfa_offset = o; pfa_len = l })
        (record { pfa_offset = o'; pfa_len = l' })
same_arg p q = cc

-- What the loop has done with the strings `ss`, from the variables `f` to `f'`.
pub record Stored (f f' : Filling) (done : Text) (ss : List Text) : Type 0 where
  pub tail : Text
  pub area_is : f'.area ≡ (done ++ flatten ss) ++ tail
  pub count_is : f'.count ≡ f.count + length ss
  pub refs_at :
      (k : ℕ)
      → k < length ss
      → get_or f'.refs (f.count + k) zero_arg
        ≡ record { pfa_offset = length done + offset k ss; pfa_len = length (get_or ss k []) }
  pub refs_kept : (j : ℕ) → j < f.count → get_or f'.refs j zero_arg ≡ get_or f.refs j zero_arg
  pub refs_after :
      (j : ℕ) → f.count + length ss ≤ j → get_or f'.refs j zero_arg ≡ get_or f.refs j zero_arg
  pub within_is : f'.within ≡ f.within

module _ (copyinstr : Text → ℕ → ℕ)
    (whole : (s : Text) (n : ℕ) → length s < n → copyinstr s n ≡ length s + 1) (size : ℕ)
    (small : size < 2 ^ 31) where
  -- A string of which twice the place and itself fit is copied whole.
  copied_whole :
      (f : Filling) (s done rest : Text)
      → Regular size f done rest
      → 2 * length done + length s + 1 ≤ size
      → copyinstr s (size_sub f.max f.len) ≡ length s + 1
  copied_whole f s done rest r h =
      whole s (size_sub f.max f.len) (omega (arith, r.len_is, r.max_is))

  module _ (f : Filling) (s done rest : Text) (r : Regular size f done rest)
      (h : 2 * length done + length s + 1 ≤ size) where
    fill_one-Regular :
        Regular size (fill_one (length s + 1) f s) (done ++ with_nul s) (drop (length s + 1) rest)
    unfolding fill_one
    fill_one-Regular = record {
      area_is = rw (r.area_is, r.len_is) (written s done rest (omega (arith, r.size_is)));
      size_is = omega (
        arith,
        length-append done (with_nul s),
        length-with_nul s,
        length-drop (length s + 1) rest,
        r.size_is,
      );
      len_is = omega (arith, r.len_is, length-append done (with_nul s), length-with_nul s);
      max_is = omega (arith, r.max_is, length-append done (with_nul s), length-with_nul s);
      refs_are = length-set f.refs f.count _ ∙ r.refs_are;
    }

    ref_stored :
        f.count < 1024
        → get_or (fill_one (length s + 1) f s).refs f.count zero_arg
          ≡ record { pfa_offset = length done; pfa_len = length s }
    unfolding fill_one
    ref_stored c =
        get_or-set_self f.refs f.count _ zero_arg (omega (arith, r.refs_are))
        ∙ same_arg (omega (arith, r.len_is)) (omega arith)

    still_within : (fill_one (length s + 1) f s).within ≡ f.within
    unfolding fill_one
    still_within =
        and_true f.within _
          (ground (arith, r.len_is, r.size_is, ap length r.area_is, length-append done rest))
      where
        and_true : (a b : Bool) → b ≡ true → (a && b) ≡ a
        and_true a b e = ground arith

    Stored-cons :
        (f' : Filling) (ss : List Text)
        → f.count < 1024
        → Stored (fill_one (length s + 1) f s) f' (done ++ with_nul s) ss
        → Stored f f' done (s ∷ ss)
    unfolding fill_one
    Stored-cons f' ss c w = record {
      tail = w.tail;
      area_is = w.area_is ∙ ap (λ t. t ++ w.tail) (with_nul-flatten done s ss);
      count_is = omega (arith, w.count_is);
      refs_at = found;
      refs_kept = λ j lt.
          w.refs_kept j (omega arith)
          ∙ get_or-set_ne f.refs f.count j _ zero_arg (λ e. absurd (omega (arith, e)));
      refs_after = λ j le.
          w.refs_after j (omega arith)
          ∙ get_or-set_ne f.refs f.count j _ zero_arg (λ e. absurd (omega (arith, e)));
      within_is = w.within_is ∙ still_within;
    }
      where
        found :
            (k : ℕ)
            → k < length (s ∷ ss)
            → get_or f'.refs (f.count + k) zero_arg ≡ record {
              pfa_offset = length done + offset k (s ∷ ss);
              pfa_len = length (get_or (s ∷ ss) k []);
            }
        found zero lt =
            ap (λ n. get_or f'.refs n zero_arg) (omega arith)
            ∙ w.refs_kept f.count (omega arith)
            ∙ ref_stored c
            ∙ same_arg (omega arith) refl
        found (suc k) lt =
            ap (λ n. get_or f'.refs n zero_arg) (omega arith)
            ∙ w.refs_at k (omega arith)
            ∙ same_arg (omega (arith, length-append done (with_nul s), length-with_nul s)) refl

  pub fill_strings-Stored :
      (ss : List Text) (f : Filling) (done rest : Text)
      → Regular size f done rest
      → 2 * (length done + length (flatten ss)) ≤ size
      → f.count + length ss ≤ 1024
      → Stored f (fill_strings copyinstr ss f) done ss
  unfolding fill_strings
  fill_strings-Stored [] f done rest r h c = record {
    tail = rest;
    area_is = r.area_is ∙ ap (λ t. t ++ rest) (sym (append_nil done));
    count_is = omega arith;
    refs_at = λ k lt. absurd (omega arith);
    refs_kept = λ j lt. refl;
    refs_after = λ j le. refl;
    within_is = refl;
  }
  fill_strings-Stored (s ∷ ss) f done rest r h c =
      let room : length (flatten (s ∷ ss)) ≡ length s + (length (flatten ss) + 1) =
        omega (arith, length-append s (0 ∷ flatten ss)) in
      let fits : 2 * length done + length s + 1 ≤ size = omega (arith, room) in
      let next = fill_one-Regular f s done rest r fits in
      rw
        (
          may_go_on f.count f.max (omega arith) (omega (arith, r.max_is)),
          copied_whole f s done rest r fits,
        )
        (Stored-cons f s done rest r fits _ ss (omega arith) (
          fill_strings-Stored ss (fill_one (length s + 1) f s) (done ++ with_nul s) _ next
            (omega (arith, room, length-append done (with_nul s), length-with_nul s))
            (omega (arith, counted (length s + 1) f s))))
    where
      may_go_on : (n m : ℕ) → n < 1024 → 0 < m → (ltb n 1024 && ltb 0 m) ≡ true
      may_go_on n m p q = ground arith
