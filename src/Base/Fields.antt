-- ===== src/Base/Fields.antt =====
-- Bit operations on numbers that are put together from fields, and a field that is replaced.
use Prim.Native.Nat.{
  ℕ, zero, suc, ◌+◌, ◌-◌, ◌*◌, ◌/◌, ◌%◌, ◌^◌, ◌≤◌, ◌<◌, min, max, bit_and, bit_or,
}
use mathlib.Core.Path.{◌≡◌, ap, ap₂, ◌∙◌}
use native.Mathlib.Omega.{arith}
use native.Mathlib.Nat.{pow-suc, mod-add-div, mod-lt, mod-eq_of_lt, mod-mod}
use cibyl.Base.Bits.{bit_and-lowest, bit_or-lowest, bit_and-zero_upto, zero-bit_or, zero-bit_and}
use cibyl.Base.Masks.{bit_and_mask, bit_or-zero}

split :
    (op f : ℕ → ℕ → ℕ)
    → ((a b : ℕ) → op a b ≡ op (a / 2) (b / 2) * 2 + f (a % 2) (b % 2))
    → op 0 0 ≡ 0
    → (k x x' y y' : ℕ) → x < 2 ^ k
    → x' < 2 ^ k
    → op (x + y * 2 ^ k) (x' + y' * 2 ^ k) ≡ op x x' + op y y' * 2 ^ k
split op f low none zero x x' y y' h h' =
    let first : x ≡ 0 = omega arith in
    let second : x' ≡ 0 = omega arith in
    let left : 0 + y * 2 ^ 0 ≡ y = omega arith in
    let right : 0 + y' * 2 ^ 0 ≡ y' = omega arith in
    rw (first, second) (ap₂ op left right ∙ omega (arith, none))
split op f low none (suc k) x x' y y' h h' =
    let (q, r) = half_of k x y in
    let (q', r') = half_of k x' y' in
    omega (
      arith,
      low (x + y * 2 ^ suc k) (x' + y' * 2 ^ suc k),
      ap₂ op q q',
      ap₂ f r r',
      low x x',
      split op f low none k (x / 2) (x' / 2) y y' (omega (arith, pow-suc 2 k))
          (omega (arith, pow-suc 2 k)),
      ap (λ (t : ℕ). op y y' * t) (pow-suc 2 k),
    )
  where
    half_of :
        (k x y : ℕ)
        → ((x + y * 2 ^ suc k) / 2 ≡ x / 2 + y * 2 ^ k) × ((x + y * 2 ^ suc k) % 2 ≡ x % 2)
    half_of k x y =
        let twice = ap (λ (t : ℕ). y * t) (pow-suc 2 k) in
        (omega (arith, twice), omega (arith, twice))

pub bit_and-split :
    (k x x' y y' : ℕ)
    → x < 2 ^ k
    → x' < 2 ^ k
    → bit_and (x + y * 2 ^ k) (x' + y' * 2 ^ k) ≡ bit_and x x' + bit_and y y' * 2 ^ k
bit_and-split = split bit_and min bit_and-lowest (zero-bit_and 0)

pub bit_or-split :
    (k x x' y y' : ℕ)
    → x < 2 ^ k
    → x' < 2 ^ k
    → bit_or (x + y * 2 ^ k) (x' + y' * 2 ^ k) ≡ bit_or x x' + bit_or y y' * 2 ^ k
bit_or-split = split bit_or max bit_or-lowest (zero-bit_or 0)

-- The `n` digits above the lowest `b` of `w`, replaced.
abbrev pub with_part : ℕ → ℕ → ℕ → ℕ → ℕ
with_part b n w v = w % 2 ^ b + (v + w / 2 ^ b / 2 ^ n * 2 ^ n) * 2 ^ b

positive : (k : ℕ) → 1 ≤ 2 ^ k
positive zero = omega arith
positive (suc k) = omega (arith, pow-suc 2 k, positive k)

-- A number is its low digits and the others.
parts : (k x : ℕ) → x ≡ x % 2 ^ k + x / 2 ^ k * 2 ^ k
parts k x = grind (arith, mod-add-div x (2 ^ k))

-- The field is cleared by a mask.
pub cleared :
    (b n c w : ℕ)
    → w / 2 ^ b / 2 ^ n < 2 ^ c
    → bit_and w (2 ^ b - 1 + (0 + (2 ^ c - 1) * 2 ^ n) * 2 ^ b) ≡ with_part b n w 0
cleared b n c w h =
    let y = w / 2 ^ b in
    let high : bit_and y (0 + (2 ^ c - 1) * 2 ^ n) ≡ 0 + y / 2 ^ n * 2 ^ n =
      ap (λ (t : ℕ). bit_and t (0 + (2 ^ c - 1) * 2 ^ n)) (parts n y)
      ∙ bit_and-split n (y % 2 ^ n) 0 (y / 2 ^ n) (2 ^ c - 1) (mod-lt y (positive n)) (positive n)
      ∙ ap₂ (λ (s t : ℕ). s + t * 2 ^ n) (bit_and-zero_upto (y % 2 ^ n) (y % 2 ^ n) (omega arith))
          (bit_and_mask c (y / 2 ^ n) ∙ mod-eq_of_lt h) in
    ap (λ (t : ℕ). bit_and t (2 ^ b - 1 + (0 + (2 ^ c - 1) * 2 ^ n) * 2 ^ b)) (parts b w)
    ∙ bit_and-split b (w % 2 ^ b) (2 ^ b - 1) y (0 + (2 ^ c - 1) * 2 ^ n) (mod-lt w (positive b))
        (omega (arith, positive b))
    ∙ ap₂ (λ (s t : ℕ). s + t * 2 ^ b) (bit_and_mask b (w % 2 ^ b) ∙ mod-mod w (2 ^ b)) high

-- A value is put into a field that is clear.
pub filled : (b n w v : ℕ) → v < 2 ^ n → bit_or (with_part b n w 0) (v * 2 ^ b) ≡ with_part b n w v
filled b n w v h =
    let x = w % 2 ^ b in
    let y = w / 2 ^ b / 2 ^ n in
    let high : bit_or (0 + y * 2 ^ n) (v + 0 * 2 ^ n) ≡ v + y * 2 ^ n =
      bit_or-split n 0 v y 0 (positive n) h
      ∙ ap₂ (λ (s t : ℕ). s + t * 2 ^ n) (zero-bit_or v) (bit_or-zero y) in
    let plain : v ≡ v + 0 * 2 ^ n = omega arith in
    let value : v * 2 ^ b ≡ 0 + (v + 0 * 2 ^ n) * 2 ^ b =
      ap (λ (t : ℕ). t * 2 ^ b) plain ∙ omega arith in
    ap (λ (t : ℕ). bit_or (with_part b n w 0) t) value
    ∙ bit_or-split b x 0 (0 + y * 2 ^ n) (v + 0 * 2 ^ n) (mod-lt w (positive b)) (positive b)
    ∙ ap₂ (λ (s t : ℕ). s + t * 2 ^ b) (bit_or-zero x) high
