-- ===== src/Base/Masks.antt =====
-- `&` and `^` with a mask of ones, and the width of a result.
use Prim.Native.Nat.{
  ℕ, zero, suc, ◌+◌, ◌-◌, ◌*◌, ◌/◌, ◌%◌, ◌^◌, ◌≤◌, ◌<◌, min, max, bit_and, bit_or, bit_xor,
  bit_xor-bitwise, differ,
}
use mathlib.Core.Path.{◌≡◌, refl, ap, ◌∙◌}
use native.Mathlib.Omega.{arith}
use native.Mathlib.Nat.{pow-suc, mod-add-div, div-div-eq-div-mul}
use cibyl.Base.Bits.{bitwise_lowest, bit_and-lowest, bit_or-lowest, bit_and-zero_upto, zero-bit_or}

mask_half : (k : ℕ) → ((2 ^ suc k - 1) / 2 ≡ 2 ^ k - 1) × ((2 ^ suc k - 1) % 2 ≡ 1) × (1 ≤ 2 ^ k)
mask_half zero = (refl, refl, omega arith)
mask_half (suc k) =
    let (_, _, p) = mask_half k in
    (
      omega (arith, pow-suc 2 (suc k), pow-suc 2 k, p),
      omega (arith, pow-suc 2 (suc k), pow-suc 2 k, p),
      omega (arith, pow-suc 2 k, p),
    )

mod_step : (x q : ℕ) → x % (q * 2) ≡ x / 2 % q * 2 + x % 2
mod_step x q =
    let same : x / 2 / q ≡ x / (q * 2) =
      div-div-eq-div-mul x 2 q ∙ ap (λ (t : ℕ). x / t) (omega arith) in
    let whole = mod-add-div x (q * 2) in
    let half = mod-add-div (x / 2) q in grind (arith, whole, half, ap (λ (t : ℕ). q * t) same)

-- The low `k` digits.
pub bit_and_mask : (k x : ℕ) → bit_and x (2 ^ k - 1) ≡ x % 2 ^ k
bit_and_mask zero x = bit_and-zero_upto x x (omega arith) ∙ omega arith
bit_and_mask (suc k) x =
    let (half, low, _) = mask_half k in
    omega (
      arith,
      bit_and-lowest x (2 ^ suc k - 1),
      ap (λ (t : ℕ). bit_and (x / 2) t) half,
      bit_and_mask k (x / 2),
      low,
      ap (λ (t : ℕ). x % t) (pow-suc 2 k),
      mod_step x (2 ^ k),
    )

zero-bit_xor : (b : ℕ) → bit_xor 0 b ≡ b
zero-bit_xor b = bit_xor-bitwise 0 b

pub bit_xor-lowest : (a b : ℕ) → bit_xor a b ≡ bit_xor (a / 2) (b / 2) * 2 + differ (a % 2) (b % 2)
bit_xor-lowest zero b = omega (arith, zero-bit_xor b, zero-bit_xor (b / 2))
bit_xor-lowest (suc a) b = simp bit_xor-bitwise (bitwise_lowest (λ y. y) differ a b)

differ-bit : (a b : ℕ) → a < 2 → b < 2 → differ a b < 2
differ-bit zero b h k = k
differ-bit (suc zero) zero h k = omega arith
differ-bit (suc zero) (suc b) h k = omega arith
differ-bit (suc (suc a)) b h k = absurd (omega arith)

differ-one : (a : ℕ) → a < 2 → differ a 1 ≡ 1 - a
differ-one zero h = refl
differ-one (suc zero) h = refl
differ-one (suc (suc a)) h = absurd (omega arith)

-- An operation whose digits are digits keeps to the width of its arguments.
fits :
    (op f : ℕ → ℕ → ℕ)
    → ((a b : ℕ) → op a b ≡ op (a / 2) (b / 2) * 2 + f (a % 2) (b % 2))
    → ((a b : ℕ) → a < 2 → b < 2 → f a b < 2)
    → op 0 0 ≡ 0
    → (k a b : ℕ) → a < 2 ^ k
    → b < 2 ^ k
    → op a b < 2 ^ k
fits op f low digit none zero a b h g =
    let first : a ≡ 0 = omega arith in
    let second : b ≡ 0 = omega arith in rw (first, second, none) (omega arith)
fits op f low digit none (suc k) a b h g = omega (
  arith,
  low a b,
  digit (a % 2) (b % 2) (omega arith) (omega arith),
  pow-suc 2 k,
  fits op f low digit none k (a / 2) (b / 2) (omega (arith, pow-suc 2 k))
      (omega (arith, pow-suc 2 k)),
)

pub bit_and-fits : (k a b : ℕ) → a < 2 ^ k → b < 2 ^ k → bit_and a b < 2 ^ k
bit_and-fits =
    fits bit_and min bit_and-lowest (λ a b h g. omega arith) (bit_and-zero_upto 0 0 (omega arith))

pub bit_or-fits : (k a b : ℕ) → a < 2 ^ k → b < 2 ^ k → bit_or a b < 2 ^ k
bit_or-fits = fits bit_or max bit_or-lowest (λ a b h g. omega arith) (zero-bit_or 0)

pub bit_xor-fits : (k a b : ℕ) → a < 2 ^ k → b < 2 ^ k → bit_xor a b < 2 ^ k
bit_xor-fits = fits bit_xor differ bit_xor-lowest differ-bit (zero-bit_xor 0)

-- The complement.
pub bit_xor_mask : (k x : ℕ) → x < 2 ^ k → bit_xor x (2 ^ k - 1) ≡ 2 ^ k - 1 - x
bit_xor_mask zero x h = let none : x ≡ 0 = omega arith in rw none (zero-bit_xor 0)
bit_xor_mask (suc k) x h =
    let (half, low, _) = mask_half k in
    omega (
      arith,
      bit_xor-lowest x (2 ^ suc k - 1),
      ap (λ (t : ℕ). bit_xor (x / 2) t) half,
      ap (λ (t : ℕ). differ (x % 2) t) low,
      differ-one (x % 2) (omega arith),
      pow-suc 2 k,
      bit_xor_mask k (x / 2) (omega (arith, pow-suc 2 k)),
    )

pub bit_or-zero : (a : ℕ) → bit_or a 0 ≡ a
bit_or-zero a = bit_or-zero_upto a a (omega arith)
  where
    bit_or-zero_upto : (n a : ℕ) → a ≤ n → bit_or a 0 ≡ a
    bit_or-zero_upto n zero h = zero-bit_or 0
    bit_or-zero_upto zero (suc a) h = absurd (omega arith)
    bit_or-zero_upto (suc n) (suc a) h =
        omega (arith, bit_or-lowest (suc a) 0, bit_or-zero_upto n (suc a / 2) (omega arith))

-- The second digit.
pub bit_and_two : (x : ℕ) → bit_and x 2 ≡ x % 4 / 2 * 2
bit_and_two x = omega (
  arith,
  bit_and-lowest x 2,
  bit_and-lowest (x / 2) 1,
  bit_and-zero_upto (x / 2 / 2) (x / 2 / 2) (omega arith),
)
