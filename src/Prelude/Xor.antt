-- ===== src/Prelude/Xor.antt =====
-- The exclusive or of the native numbers at variables: a recursion on binary digits, hence an
-- involution at every width. `bit_and` with fifteen is the low half of a byte.
use Prim.Native.Nat.{
  ℕ, zero, suc, ◌+◌, ◌*◌, ◌/◌, ◌%◌, ◌≤◌, ◌<◌, min, bit_and, bit_xor, digits, differ,
  bit_xor-bitwise, bit_and-bitwise,
}
use mathlib.Core.Path.{◌≡◌, refl, sym, ap, ◌∙◌}
use native.Mathlib.Omega.{arith}

-- Any fuel that is enough for the first number gives the same digits.
module _ (rest : ℕ → ℕ) (digit : ℕ → ℕ → ℕ) where
  no_digits : (fuel b : ℕ) → digits rest digit fuel 0 b ≡ rest b
  no_digits zero b = refl
  no_digits (suc fuel) b = refl

  same_digits :
      (a b fuel more : ℕ)
      → a ≤ fuel
      → a ≤ more
      → digits rest digit fuel a b ≡ digits rest digit more a b
  same_digits zero b fuel more enough also = no_digits fuel b ∙ sym (no_digits more b)
  same_digits (suc a) b zero more enough also = absurd (omega arith)
  same_digits (suc a) b (suc fuel) zero enough also = absurd (omega arith)
  same_digits (suc a) b (suc fuel) (suc more) enough also =
      ap (λ (d : ℕ). d * 2 + digit (suc a % 2) (b % 2))
        (same_digits (suc a / 2) (b / 2) fuel more (omega arith) (omega arith))

  -- The lowest digit, and the digits of the halves.
  lowest_digit :
      (a b : ℕ)
      → digits rest digit (suc a) (suc a) b
        ≡ digits rest digit (suc a / 2) (suc a / 2) (b / 2) * 2 + digit (suc a % 2) (b % 2)
  lowest_digit a b =
      ap (λ (d : ℕ). d * 2 + digit (suc a % 2) (b % 2))
        (same_digits (suc a / 2) (b / 2) a (suc a / 2) (omega arith) (omega arith))

zero-xor : (b : ℕ) → bit_xor 0 b ≡ b
zero-xor b = bit_xor-bitwise 0 b

bit_xor_step :
    (a b : ℕ) → bit_xor (suc a) b ≡ bit_xor (suc a / 2) (b / 2) * 2 + differ (suc a % 2) (b % 2)
bit_xor_step a b =
    bit_xor-bitwise (suc a) b
    ∙ lowest_digit (λ d. d) differ a b
    ∙ ap (λ (d : ℕ). d * 2 + differ (suc a % 2) (b % 2)) (sym (bit_xor-bitwise (suc a / 2) (b / 2)))

both_step : (a b : ℕ) → bit_and a b ≡ bit_and (a / 2) (b / 2) * 2 + min (a % 2) (b % 2)
both_step zero b = omega (arith, bit_and-bitwise 0 (b / 2), bit_and-bitwise 0 b)
both_step (suc a) b =
    bit_and-bitwise (suc a) b
    ∙ lowest_digit (λ d. 0) min a b
    ∙ ap (λ (d : ℕ). d * 2 + min (suc a % 2) (b % 2)) (sym (bit_and-bitwise (suc a / 2) (b / 2)))

nothing_shared : (bound a : ℕ) → a < bound → bit_and a 0 ≡ 0
nothing_shared zero a below = absurd (omega arith)
nothing_shared (suc bound) zero below = refl
nothing_shared (suc bound) (suc a) below =
    omega (arith, nothing_shared bound (suc a / 2) (omega arith), both_step (suc a) 0)

-- The mask of four ones keeps the remainder by sixteen.
pub bit_and-fifteen : (a : ℕ) → bit_and a 15 ≡ a % 16
bit_and-fifteen a = omega (
  arith,
  both_step a 15,
  both_step (a / 2) 7,
  both_step (a / 2 / 2) 3,
  both_step (a / 2 / 2 / 2) 1,
  nothing_shared (suc (a / 2 / 2 / 2 / 2)) (a / 2 / 2 / 2 / 2) (omega arith),
)

differ_bit : (a b : ℕ) → a < 2 → b < 2 → differ a b ≡ (a + b) % 2
differ_bit zero zero p q = refl
differ_bit zero (suc zero) p q = refl
differ_bit zero (suc (suc b)) p q = absurd (omega arith)
differ_bit (suc zero) zero p q = refl
differ_bit (suc zero) (suc zero) p q = refl
differ_bit (suc zero) (suc (suc b)) p q = absurd (omega arith)
differ_bit (suc (suc a)) b p q = absurd (omega arith)

-- One equation for the lowest digit, whether or not the first number has run out.
bit_xor_digit : (a b : ℕ) → bit_xor a b ≡ bit_xor (a / 2) (b / 2) * 2 + (a % 2 + b % 2) % 2
bit_xor_digit zero b = omega (arith, zero-xor b, zero-xor (b / 2))
bit_xor_digit (suc a) b =
    omega (arith, bit_xor_step a b, differ_bit (suc a % 2) (b % 2) (omega arith) (omega arith))

xor_twice_fuel : (n a k : ℕ) → a ≤ n → k ≤ n → bit_xor (bit_xor a k) k ≡ a
xor_twice_fuel zero zero zero p q = refl
xor_twice_fuel zero (suc a) k p q = absurd (omega arith)
xor_twice_fuel zero zero (suc k) p q = absurd (omega arith)
xor_twice_fuel (suc n) a k p q = omega (
  arith,
  bit_xor_digit (bit_xor a k) k,
  bit_xor_digit a k,
  halved,
  xor_twice_fuel n (a / 2) (k / 2) (omega arith) (omega arith),
)
  where
    half : bit_xor a k / 2 ≡ bit_xor (a / 2) (k / 2)
    half = omega (arith, bit_xor_digit a k)

    halved : bit_xor (bit_xor a k / 2) (k / 2) ≡ bit_xor (bit_xor (a / 2) (k / 2)) (k / 2)
    halved = rw half refl

-- Masking twice with the same key byte gives the byte back.
pub xor_twice : (a k : ℕ) → bit_xor (bit_xor a k) k ≡ a
xor_twice a k = xor_twice_fuel (a + k) a k (omega arith) (omega arith)
