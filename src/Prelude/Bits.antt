-- ===== src/Prelude/Bits.antt =====
-- Laws of the bitwise operations at variables, from the digit recursion that they stand for.
use Prim.Native.Nat.{
  ℕ, zero, suc, ◌+◌, ◌-◌, ◌*◌, ◌/◌, ◌%◌, ◌≤◌, min, max, bit_and, bit_or, digits, bit_and-bitwise,
  bit_or-bitwise,
}
use mathlib.Core.Path.{◌≡◌, refl, ap, subst, ◌∙◌}
use native.Mathlib.Omega.{arith}

-- An operation on the digits of two numbers: `only` is the result where the first has none left, and
-- `digit` joins two digits.
module _ (only : ℕ → ℕ) (digit : ℕ → ℕ → ℕ) where
  one_round_more : (n a b : ℕ) → a ≤ n → digits only digit (suc n) a b ≡ digits only digit n a b
  one_round_more zero zero b le = refl
  one_round_more zero (suc a) b le = absurd (omega arith)
  one_round_more (suc n) zero b le = refl
  one_round_more (suc n) (suc a) b le =
      omega (arith, one_round_more n (suc a / 2) (b / 2) (omega arith))

  more_rounds : (k n a b : ℕ) → a ≤ n → digits only digit (n + k) a b ≡ digits only digit n a b
  more_rounds zero n a b le = rw (right_zero n) refl
    where
      right_zero : (n : ℕ) → n + 0 ≡ n
      right_zero n = omega arith
  more_rounds (suc k) n a b le =
      rw (right_suc n k) (one_round_more (n + k) a b (omega arith) ∙ more_rounds k n a b le)
    where
      right_suc : (n k : ℕ) → n + suc k ≡ suc (n + k)
      right_suc n k = omega arith

  -- The rounds for a number are enough for its half.
  half_rounds :
      (a b : ℕ) → digits only digit a (suc a / 2) b ≡ digits only digit (suc a / 2) (suc a / 2) b
  half_rounds a b =
      let k = a - suc a / 2 in
      let total : suc a / 2 + k ≡ a = omega arith in
      subst (λ m. digits only digit m (suc a / 2) b ≡ digits only digit (suc a / 2) (suc a / 2) b)
        total (more_rounds k (suc a / 2) (suc a / 2) b (omega arith))

  -- Such an operation, by the lowest digits and the halves.
  lowest_digit :
      (op : ℕ → ℕ → ℕ)
      → ((a b : ℕ) → op a b ≡ digits only digit a a b)
      → (a b : ℕ) → op (suc a) b ≡ op (suc a / 2) (b / 2) * 2 + digit (suc a % 2) (b % 2)
  lowest_digit op law a b =
      omega (arith, law (suc a) b, law (suc a / 2) (b / 2), half_rounds a (b / 2))

pub bit_and_zero : (b : ℕ) → bit_and 0 b ≡ 0
bit_and_zero = bit_and-bitwise 0

pub bit_or_zero : (b : ℕ) → bit_or 0 b ≡ b
bit_or_zero = bit_or-bitwise 0

pub bit_and_step : (a b : ℕ) → bit_and a b ≡ bit_and (a / 2) (b / 2) * 2 + min (a % 2) (b % 2)
bit_and_step zero b = ground (arith, bit_and_zero b, bit_and_zero (b / 2))
bit_and_step (suc a) b = lowest_digit (λ _. zero) min bit_and bit_and-bitwise a b

pub bit_or_step : (a b : ℕ) → bit_or a b ≡ bit_or (a / 2) (b / 2) * 2 + max (a % 2) (b % 2)
bit_or_step zero b = ground (arith, bit_or_zero b, bit_or_zero (b / 2))
bit_or_step (suc a) b = lowest_digit (λ c. c) max bit_or bit_or-bitwise a b

and_zero_fuel : (n a : ℕ) → a ≤ n → bit_and a 0 ≡ 0
and_zero_fuel n zero h = refl
and_zero_fuel zero (suc a) h = absurd (omega arith)
and_zero_fuel (suc n) (suc a) h =
    omega (arith, bit_and_step (suc a) 0, and_zero_fuel n (suc a / 2) (omega arith))

-- No bit is left under an empty mask.
pub bit_and-zero : (a : ℕ) → bit_and a 0 ≡ 0
bit_and-zero a = and_zero_fuel a a (omega arith)

-- The lowest bit alone.
pub bit_and-one : (a : ℕ) → bit_and a 1 ≡ a % 2
bit_and-one a = omega (arith, bit_and_step a 1, bit_and-zero (a / 2))

le-bit_or_fuel : (n a b : ℕ) → b ≤ n → b ≤ bit_or a b
le-bit_or_fuel n a zero h = omega arith
le-bit_or_fuel zero a (suc b) h = absurd (omega arith)
le-bit_or_fuel (suc n) a (suc b) h =
    omega (arith, bit_or_step a (suc b), le-bit_or_fuel n (a / 2) (suc b / 2) (omega arith))

pub le-bit_or : (a b : ℕ) → b ≤ bit_or a b
le-bit_or a b = le-bit_or_fuel b a b (omega arith)

absorb_fuel : (n a b : ℕ) → b ≤ n → bit_and (bit_or a b) b ≡ b
absorb_fuel n a zero h = bit_and-zero (bit_or a 0)
absorb_fuel zero a (suc b) h = absurd (omega arith)
absorb_fuel (suc n) a (suc b) h =
    let halves : bit_or a (suc b) / 2 ≡ bit_or (a / 2) (suc b / 2) =
      omega (arith, bit_or_step a (suc b)) in
    omega (
      arith,
      bit_and_step (bit_or a (suc b)) (suc b),
      ap (λ h. bit_and h (suc b / 2)) halves,
      bit_or_step a (suc b),
      absorb_fuel n (a / 2) (suc b / 2) (omega arith),
    )

-- What was joined in is all there.
pub bit_and-bit_or : (a b : ℕ) → bit_and (bit_or a b) b ≡ b
bit_and-bit_or a b = absorb_fuel b a b (omega arith)
