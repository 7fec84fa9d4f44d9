-- ===== src/Base/Bits.antt =====
-- The bit operations of the sources, by the lowest bit: the masks are constants, so a few steps
-- reach each of them.
use Prim.Native.Nat.{
  ℕ, zero, suc, ◌+◌, ◌*◌, ◌/◌, ◌%◌, ◌≤◌, min, max, bit_and, bit_or, digits, bit_and-bitwise,
  bit_or-bitwise,
}
use mathlib.Core.Path.{◌≡◌, refl, ap, ◌∙◌}
use native.Mathlib.Omega.{arith}

-- Digits beyond those of the first number do not count.
digits_fuel :
    (end : ℕ → ℕ) (one : ℕ → ℕ → ℕ) (n m a b : ℕ)
    → a ≤ n
    → a ≤ m
    → digits end one n a b ≡ digits end one m a b
digits_fuel end one zero zero a b p q = refl
digits_fuel end one zero (suc m) zero b p q = refl
digits_fuel end one zero (suc m) (suc a) b p q = absurd (omega arith)
digits_fuel end one (suc n) zero zero b p q = refl
digits_fuel end one (suc n) zero (suc a) b p q = absurd (omega arith)
digits_fuel end one (suc n) (suc m) zero b p q = refl
digits_fuel end one (suc n) (suc m) (suc a) b p q =
    ap (λ d. d * 2 + one (suc a % 2) (b % 2))
      (digits_fuel end one n m (suc a / 2) (b / 2) (omega arith) (omega arith))

and_step : (a b : ℕ) → bit_and a b ≡ bit_and (a / 2) (b / 2) * 2 + min (a % 2) (b % 2)
and_step zero b = omega (arith, bit_and-bitwise 0 b, bit_and-bitwise 0 (b / 2))
and_step (suc a) b = omega (
  arith,
  bit_and-bitwise (suc a) b,
  bit_and-bitwise (suc a / 2) (b / 2),
  digits_fuel (λ b. zero) min a (suc a / 2) (suc a / 2) (b / 2) (omega arith) (omega arith),
)

or_step : (a b : ℕ) → bit_or a b ≡ bit_or (a / 2) (b / 2) * 2 + max (a % 2) (b % 2)
or_step zero b = omega (arith, bit_or-bitwise 0 b, bit_or-bitwise 0 (b / 2))
or_step (suc a) b = omega (
  arith,
  bit_or-bitwise (suc a) b,
  bit_or-bitwise (suc a / 2) (b / 2),
  digits_fuel (λ b. b) max a (suc a / 2) (suc a / 2) (b / 2) (omega arith) (omega arith),
)

-- A mask whose lowest bit is 0, and one whose lowest bit is 1.
pub bit_and-even : (a m : ℕ) → bit_and a (2 * m) ≡ 2 * bit_and (a / 2) m
bit_and-even a m =
    let half : 2 * m / 2 ≡ m = omega arith in
    omega (arith, and_step a (2 * m), ap (bit_and (a / 2)) half)

pub bit_and-odd : (a m : ℕ) → bit_and a (2 * m + 1) ≡ 2 * bit_and (a / 2) m + a % 2
bit_and-odd a m =
    let half : (2 * m + 1) / 2 ≡ m = omega arith in
    omega (arith, and_step a (2 * m + 1), ap (bit_and (a / 2)) half)

pub bit_or-even : (a m : ℕ) → bit_or a (2 * m) ≡ 2 * bit_or (a / 2) m + a % 2
bit_or-even a m =
    let half : 2 * m / 2 ≡ m = omega arith in
    omega (arith, or_step a (2 * m), ap (bit_or (a / 2)) half)

pub bit_or-odd : (a m : ℕ) → bit_or a (2 * m + 1) ≡ 2 * bit_or (a / 2) m + 1
bit_or-odd a m =
    let half : (2 * m + 1) / 2 ≡ m = omega arith in
    omega (arith, or_step a (2 * m + 1), ap (bit_or (a / 2)) half)

-- Nothing is left of a number under the mask 0, and nothing changes in the union with it.
bit_and-zero_within : (n a : ℕ) → a ≤ n → bit_and a 0 ≡ 0
bit_and-zero_within n zero h = refl
bit_and-zero_within zero (suc a) h = absurd (omega arith)
bit_and-zero_within (suc n) (suc a) h =
    omega (arith, bit_and-even (suc a) 0, bit_and-zero_within n (suc a / 2) (omega arith))

pub bit_and-zero : (a : ℕ) → bit_and a 0 ≡ 0
bit_and-zero a = bit_and-zero_within a a (omega arith)

bit_or-zero_within : (n a : ℕ) → a ≤ n → bit_or a 0 ≡ a
bit_or-zero_within n zero h = refl
bit_or-zero_within zero (suc a) h = absurd (omega arith)
bit_or-zero_within (suc n) (suc a) h =
    omega (arith, bit_or-even (suc a) 0, bit_or-zero_within n (suc a / 2) (omega arith))

pub bit_or-zero : (a : ℕ) → bit_or a 0 ≡ a
bit_or-zero a = bit_or-zero_within a a (omega arith)

-- The masks of one bit and of the lowest byte.
pub bit_and_one : (a : ℕ) → bit_and a 1 ≡ a % 2
bit_and_one a = omega (arith, bit_and-odd a 0, bit_and-zero (a / 2))

pub bit_and_two : (a : ℕ) → bit_and a 2 ≡ 2 * (a / 2 % 2)
bit_and_two a = omega (arith, bit_and-even a 1, bit_and_one (a / 2))

bit_and_15 : (a : ℕ) → bit_and a 15 ≡ a % 16
bit_and_15 a = omega (
  arith,
  bit_and-odd a 7,
  bit_and-odd (a / 2) 3,
  bit_and-odd (a / 2 / 2) 1,
  bit_and_one (a / 2 / 2 / 2),
)

pub bit_and_255 : (a : ℕ) → bit_and a 255 ≡ a % 256
bit_and_255 a = omega (
  arith,
  bit_and-odd a 127,
  bit_and-odd (a / 2) 63,
  bit_and-odd (a / 2 / 2) 31,
  bit_and-odd (a / 2 / 2 / 2) 15,
  bit_and_15 (a / 2 / 2 / 2 / 2),
)

-- A mask moved up by four bits and by a byte.
and_double : (a m m' : ℕ) → m' ≡ 2 * m → bit_and a m' ≡ 2 * bit_and (a / 2) m
and_double a m m' e = ap (bit_and a) e ∙ bit_and-even a m

bit_and-nibble : (a m : ℕ) → bit_and a (16 * m) ≡ 16 * bit_and (a / 16) m
bit_and-nibble a m =
    let q : a / 2 / 2 / 2 / 2 ≡ a / 16 = omega arith in
    omega (
      arith,
      and_double a (8 * m) (16 * m) (omega arith),
      and_double (a / 2) (4 * m) (8 * m) (omega arith),
      and_double (a / 2 / 2) (2 * m) (4 * m) (omega arith),
      and_double (a / 2 / 2 / 2) m (2 * m) (omega arith),
      ap (λ d. bit_and d m) q,
    )

pub bit_and-byte : (a m : ℕ) → bit_and a (256 * m) ≡ 256 * bit_and (a / 256) m
bit_and-byte a m =
    let q : a / 16 / 16 ≡ a / 256 = omega arith in
    let e : 256 * m ≡ 16 * (16 * m) = omega arith in
    omega (
      arith,
      ap (bit_and a) e,
      bit_and-nibble a (16 * m),
      bit_and-nibble (a / 16) m,
      ap (λ d. bit_and d m) q,
    )

-- The mask of the top byte of a 32-bit number.
pub bit_and_top : (a : ℕ) → bit_and a 0xff000000 ≡ 0x1000000 * (a / 0x1000000 % 256)
bit_and_top a =
    let q : a / 256 / 256 / 256 ≡ a / 0x1000000 = omega arith in
    omega (
      arith,
      bit_and-byte a 0xff0000,
      bit_and-byte (a / 256) 0xff00,
      bit_and-byte (a / 256 / 256) 0xff,
      bit_and_255 (a / 256 / 256 / 256),
      ap (λ d. bit_and d 255) q,
    )

-- The bit 0x100: the mask of it, and its value behind setting it.
pub bit_and_0x100 : (a : ℕ) → bit_and a 0x100 ≡ 256 * (a / 256 % 2)
bit_and_0x100 a = omega (arith, bit_and-byte a 1, bit_and_one (a / 256))

pub bit_or_0x100 : (a : ℕ) → bit_or a 0x100 ≡ a / 512 * 512 + 256 + a % 256
bit_or_0x100 a = omega (
  arith,
  bit_or-even a 128,
  bit_or-even (a / 2) 64,
  bit_or-even (a / 2 / 2) 32,
  bit_or-even (a / 2 / 2 / 2) 16,
  bit_or-even (a / 2 / 2 / 2 / 2) 8,
  bit_or-even (a / 2 / 2 / 2 / 2 / 2) 4,
  bit_or-even (a / 2 / 2 / 2 / 2 / 2 / 2) 2,
  bit_or-even (a / 2 / 2 / 2 / 2 / 2 / 2 / 2) 1,
  bit_or-odd (a / 2 / 2 / 2 / 2 / 2 / 2 / 2 / 2) 0,
  bit_or-zero (a / 2 / 2 / 2 / 2 / 2 / 2 / 2 / 2 / 2),
)
