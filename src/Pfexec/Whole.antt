-- ===== src/Pfexec/Whole.antt =====
-- The kernel's request and the daemon's comparison together: what the arguments of a rule must be for
-- a program that is called with given arguments.
use cprogramming.Prelude.{
  ℕ, zero, suc, ◌+◌, ◌*◌, ◌^◌, ◌≤◌, ◌<◌, ◌≡◌, ◌↔◌, refl, ◌∙◌, ap, arith, true, some, List, [], ◌∷◌,
  length, get_or,
}
use cprogramming.Pfexec.Packet.{Limits, Text, Arg, zero_arg, Req}
use cprogramming.Pfexec.Kernel.Request.{Opts, Proc, replicate, craft_mbuf, fill_mbuf}
use cprogramming.Pfexec.Kernel.Request.Copies.{flatten}
use cprogramming.Pfexec.Kernel.Request.Found.{AllStrings, fill_area_lem}
use cprogramming.Pfexec.Daemon.{match_cmdargs, arg_at}
use cprogramming.Pfexec.Packet.Strings.{string_at}
use cprogramming.Pfexec.Daemon.Arguments.{HasArgs, Agrees, match_cmdargs-Agrees}

pub length-replicate {ℓ} : {A : Type ℓ} (n : ℕ) (v : A) → length (replicate n v) ≡ n
length-replicate zero v = refl
length-replicate (suc n) v = ap suc (length-replicate n v)

get_or-replicate {ℓ} : {A : Type ℓ} (n : ℕ) (v : A) (k : ℕ) → get_or (replicate n v) k v ≡ v
get_or-replicate zero v k = refl
get_or-replicate (suc n) v zero = refl
get_or-replicate (suc n) v (suc k) = get_or-replicate n v k

-- What fill_area stores, as the daemon looks it up.
HasArgs-found :
    (req : Req) (name : Text) (args : List Text) (refs : List Arg)
    → req.pfr_argc ≡ suc (length args)
    → ((k : ℕ)
        → k < suc (length args)
        → (string_at req.pfr_argarea (arg_at req k).pfa_offset ≡ get_or (name ∷ args) k [])
          × ((arg_at req k).pfa_len ≡ length (get_or (name ∷ args) k [])))
    → ((k : ℕ) → suc (length args) ≤ k → arg_at req k ≡ get_or refs k zero_arg)
    → ((k : ℕ) → get_or refs k zero_arg ≡ zero_arg)
    → HasArgs req args
HasArgs-found req name args refs count found after blank = record {
  count = count ∙ omega arith;
  strings = λ i lt.
      ap (λ k. string_at req.pfr_argarea (arg_at req k).pfa_offset) (add_one i)
      ∙ (found (suc i) (omega arith)).0;
  lens = λ i lt. ap (λ k. (arg_at req k).pfa_len) (add_one i) ∙ (found (suc i) (omega arith)).1;
  end =
      ap (λ (a : Arg). a.pfa_len) (after (length args + 1) (omega arith) ∙ blank (length args + 1));
}
  where
    add_one : (i : ℕ) → i + 1 ≡ suc i
    add_one i = omega arith

module _ (copyinstr : Text → ℕ → ℕ)
    (whole : (s : Text) (n : ℕ) → length s < n → copyinstr s n ≡ length s + 1) (l : Limits)
    (small : l.arg_max < 2 ^ 31) (p : Proc) (o : Opts) (path name : Text) (args envp : List Text)
    (strings : AllStrings (name ∷ args)) (fits : 2 * length (flatten (name ∷ args)) ≤ l.arg_max)
    (few : length args + 1 < 1024) where
  filled_from :
      (req : Req)
      → length req.pfr_argp ≡ 1024
      → length req.pfr_argarea ≡ l.arg_max
      → ((k : ℕ) → get_or req.pfr_argp k zero_arg ≡ zero_arg)
      → HasArgs (fill_mbuf copyinstr l p o path (some (name ∷ args)) (some envp) req) args
  unfolding fill_mbuf
  filled_from req refs_size area_size blank =
      let f =
        fill_area_lem copyinstr whole l.arg_max small req.pfr_argp req.pfr_argarea refs_size
          area_size (name ∷ args) strings fits (omega arith) in
      HasArgs-found _ name args req.pfr_argp f.0 f.2 f.3 blank

  craft_mbuf-refs : length (craft_mbuf l).pfr_argp ≡ 1024
  unfolding craft_mbuf
  craft_mbuf-refs = length-replicate 1024 zero_arg

  craft_mbuf-area : length (craft_mbuf l).pfr_argarea ≡ l.arg_max
  unfolding craft_mbuf
  craft_mbuf-area = length-replicate l.arg_max 0

  craft_mbuf-blank : (k : ℕ) → get_or (craft_mbuf l).pfr_argp k zero_arg ≡ zero_arg
  unfolding craft_mbuf
  craft_mbuf-blank = get_or-replicate 1024 zero_arg

  -- Where the arguments with their NULs take at most half of the area, and there are fewer than 1024
  -- of them, the arguments of a rule match a program called with `args` behind its name just when
  -- there are as many of them as of `args`, or one more, and each of `args` is a prefix of the rule's
  -- in its place. An argument need not be the whole of the rule's, and the last of the rule's may have
  -- none.
  pub filled-Agrees :
      (cs : List Text)
      → (match_cmdargs
            (fill_mbuf copyinstr l p o path (some (name ∷ args)) (some envp) (craft_mbuf l))
            (some cs)
          ≡ true)
        ↔ Agrees args 0 cs
  filled-Agrees cs =
      match_cmdargs-Agrees _ args
        (filled_from (craft_mbuf l) craft_mbuf-refs craft_mbuf-area craft_mbuf-blank) cs
