-- ===== src/Base/Words.antt =====
-- Bytes put together to words: `p[0] | (p[1] << 8)` is the sum of its parts, at bytes.
use Prim.Native.Nat.{
  ℕ, zero, suc, ◌+◌, ◌*◌, ◌/◌, ◌%◌, ◌^◌, ◌≤◌, ◌<◌, max, bit_or, digits, bit_or-bitwise,
}
use mathlib.Core.Path.{◌≡◌, refl, ap}
use native.Mathlib.Nat.{pow-suc}
use native.Mathlib.Omega.{arith}

abbrev or_digits : ℕ → ℕ → ℕ → ℕ
or_digits n a b = digits (λ b. b) max n a b

or_digits_fuel : (n m a b : ℕ) → a ≤ n → a ≤ m → or_digits n a b ≡ or_digits m a b
or_digits_fuel zero zero a b p q = refl
or_digits_fuel zero (suc m) zero b p q = refl
or_digits_fuel zero (suc m) (suc a) b p q = absurd (omega arith)
or_digits_fuel (suc n) zero zero b p q = refl
or_digits_fuel (suc n) zero (suc a) b p q = absurd (omega arith)
or_digits_fuel (suc n) (suc m) zero b p q = refl
or_digits_fuel (suc n) (suc m) (suc a) b p q =
    omega (arith, or_digits_fuel n m (suc a / 2) (b / 2) (omega arith) (omega arith))

pub bit_or_zero : (b : ℕ) → bit_or 0 b ≡ b
bit_or_zero b = bit_or-bitwise 0 b

pub bit_or_step : (a b : ℕ) → bit_or a b ≡ bit_or (a / 2) (b / 2) * 2 + max (a % 2) (b % 2)
bit_or_step zero b = omega (arith, bit_or_zero b, bit_or_zero (b / 2))
bit_or_step (suc a) b = omega (
  arith,
  bit_or-bitwise (suc a) b,
  bit_or-bitwise (suc a / 2) (b / 2),
  or_digits_fuel a (suc a / 2) (suc a / 2) (b / 2) (omega arith) (omega arith),
)

shifted_suc : (k b : ℕ) → b * 2 ^ suc k ≡ b * 2 ^ k * 2
shifted_suc k b = rw (pow-suc 2 k) (omega arith)

bit_or-double : (a m n : ℕ) → m ≡ n * 2 → bit_or (a / 2) n ≡ a / 2 + n → bit_or a m ≡ a + m
bit_or-double a m n e h =
    let half : m / 2 ≡ n = omega arith in omega (arith, bit_or_step a m, ap (bit_or (a / 2)) half)

-- Parts that share no binary digit add up.
pub bit_or-add : (k a b : ℕ) → a < 2 ^ k → bit_or a (b * 2 ^ k) ≡ a + b * 2 ^ k
bit_or-add zero zero b h = omega (arith, bit_or_zero (b * 2 ^ 0))
bit_or-add zero (suc a) b h = absurd (omega arith)
bit_or-add (suc k) a b h =
    bit_or-double a (b * 2 ^ suc k) (b * 2 ^ k) (shifted_suc k b)
      (bit_or-add k (a / 2) b (omega (arith, pow-suc 2 k)))

pub bit_or-eight : (a b : ℕ) → a < 256 → bit_or a (b * 256) ≡ a + b * 256
bit_or-eight a b h = bit_or-add 8 a b h

pub bit_or_sixteen : (a b : ℕ) → a < 65536 → bit_or a (b * 65536) ≡ a + b * 65536
bit_or_sixteen a b h = bit_or-add 16 a b h

pub bit_or_twenty_four : (a b : ℕ) → a < 16777216 → bit_or a (b * 16777216) ≡ a + b * 16777216
bit_or_twenty_four a b h = bit_or-add 24 a b h
