-- ===== src/Base/Bits.antt =====
-- The bit operations that the C code applies to words, as arithmetic: `|` of two fields that do not
-- overlap is a sum, and a low mask is a remainder.
use Prim.Native.Nat.{
  ℕ, zero, suc, ◌+◌, ◌-◌, ◌*◌, ◌/◌, ◌%◌, ◌^◌, ◌≤◌, ◌<◌, min, max, bit_and, bit_or, bitwise, digits,
  bit_and-bitwise, bit_or-bitwise,
}
use mathlib.Core.Path.{◌≡◌, refl, ap, subst, ◌∙◌}
use mathlib.Core.Bool.{Bool, true, false}
use native.Mathlib.Omega.{arith}
use mathlib.Core.Logic.{inl, inr}
use native.Mathlib.Nat.{pow-suc, eq-or-lt_of_le, le_of_suc-le-suc}
use cibyl.Base.Tests.{if◌then◌else◌}

-- The recursion behind the native operations is given as many rounds as the number itself; a round
-- more changes nothing once the digits have run out.
abbrev rounds_more : ℕ → ℕ → ℕ
rounds_more zero m = m
rounds_more (suc d) m = suc (rounds_more d m)

rounds_more-eq : (d m : ℕ) → rounds_more d m ≡ d + m
rounds_more-eq zero m = omega arith
rounds_more-eq (suc d) m = omega (arith, rounds_more-eq d m)

module _ (z : ℕ → ℕ) (f : ℕ → ℕ → ℕ) where
  one_more : (n a b : ℕ) → a ≤ n → digits z f (suc n) a b ≡ digits z f n a b
  one_more zero zero b h = refl
  one_more zero (suc a) b h = elim h [ ]
  one_more (suc n) zero b h = refl
  one_more (suc n) (suc a) b h =
      ap (λ (t : ℕ). t * 2 + f (suc a % 2) (b % 2)) (one_more n (suc a / 2) (b / 2) (omega arith))

  many_more : (d m a b : ℕ) → a ≤ m → digits z f (rounds_more d m) a b ≡ digits z f m a b
  many_more zero m a b h = refl
  many_more (suc d) m a b h =
      one_more (rounds_more d m) a b (omega (arith, rounds_more-eq d m)) ∙ many_more d m a b h

  -- The lowest digit of the result, and the others.
  pub bitwise_lowest :
      (a b : ℕ)
      → bitwise z f (suc a) b ≡ bitwise z f (suc a / 2) (b / 2) * 2 + f (suc a % 2) (b % 2)
  bitwise_lowest a b =
      let half = suc a / 2 in
      let rounds : rounds_more (a - half) half ≡ a =
        omega (arith, rounds_more-eq (a - half) half) in
      let halved =
        subst (λ (n : ℕ). digits z f n half (b / 2) ≡ digits z f half half (b / 2)) rounds
          (many_more (a - half) half half (b / 2) (omega arith)) in
      ap (λ (t : ℕ). t * 2 + f (suc a % 2) (b % 2)) halved

pub bit_or-lowest : (a b : ℕ) → bit_or a b ≡ bit_or (a / 2) (b / 2) * 2 + max (a % 2) (b % 2)
bit_or-lowest zero b = simp bit_or-bitwise (omega arith)
bit_or-lowest (suc a) b = simp bit_or-bitwise (bitwise_lowest (λ y. y) max a b)

pub bit_and-lowest : (a b : ℕ) → bit_and a b ≡ bit_and (a / 2) (b / 2) * 2 + min (a % 2) (b % 2)
bit_and-lowest zero b = simp bit_and-bitwise (omega arith)
bit_and-lowest (suc a) b = simp bit_and-bitwise (bitwise_lowest (λ y. 0) min a b)

pub zero-bit_and : (b : ℕ) → bit_and 0 b ≡ 0
zero-bit_and b = bit_and-bitwise 0 b

pub zero-bit_or : (b : ℕ) → bit_or 0 b ≡ b
zero-bit_or b = bit_or-bitwise 0 b

pub bit_and-zero_upto : (n a : ℕ) → a ≤ n → bit_and a 0 ≡ 0
bit_and-zero_upto n zero h = zero-bit_and 0
bit_and-zero_upto zero (suc a) h = absurd (omega arith)
bit_and-zero_upto (suc n) (suc a) h =
    omega (arith, bit_and-lowest (suc a) 0, bit_and-zero_upto n (suc a / 2) (omega arith))

-- `x & 3` is the remainder by the size of a word.
pub bit_and_three : (x : ℕ) → bit_and x 3 ≡ x % 4
bit_and_three x = omega (
  arith,
  bit_and-lowest x 3,
  bit_and-lowest (x / 2) 1,
  bit_and-zero_upto (x / 2 / 2) (x / 2 / 2) (omega arith),
)

-- The two lowest digits of an `|` are clear only if those of both sides are.
pub bit_or-mod_four : (a b : ℕ) → bit_or a b % 4 ≡ 0 → (a % 4 ≡ 0) × (b % 4 ≡ 0)
bit_or-mod_four a b h = omega (arith, bit_or-lowest a b, bit_or-lowest (a / 2) (b / 2))

-- A field put above the digits that are in use is added.
pub bit_or_above : (k r q : ℕ) → r < 2 ^ k → bit_or r (q * 2 ^ k) ≡ r + q * 2 ^ k
bit_or_above zero zero q h = omega (arith, zero-bit_or (q * 1))
bit_or_above zero (suc r) q h = absurd (omega arith)
bit_or_above (suc k) r q h = omega (
  arith,
  pow-suc 2 k,
  ap (λ (t : ℕ). q * t) (pow-suc 2 k),
  bit_or-lowest r (q * 2 ^ suc k),
  ap (λ (t : ℕ). bit_or (r / 2) t) (half_shifted k q),
  bit_or_above k (r / 2) q (omega (arith, pow-suc 2 k)),
)
  where
    half_shifted : (k q : ℕ) → q * 2 ^ suc k / 2 ≡ q * 2 ^ k
    half_shifted k q = omega (arith, ap (λ (t : ℕ). q * t) (pow-suc 2 k))

-- A test of every number below a bound, run by evaluation.
unfoldable pub passes_below : (ℕ → Bool) → ℕ → Bool
passes_below test zero = true
passes_below test (suc n) = if test n then passes_below test n else false

pub passes_below_sound :
    (test : ℕ → Bool) (n : ℕ) → passes_below test n ≡ true → (x : ℕ) → x < n → test x ≡ true
unfolding passes_below
passes_below_sound test zero all x h = elim h [ ]
passes_below_sound test (suc n) all x h = elim (eq-or-lt_of_le (le_of_suc-le-suc h)) [
  | inl e ↦ rw e (ground arith)
  | inr lt ↦ passes_below_sound test n (ground arith) x lt
]
