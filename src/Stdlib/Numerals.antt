-- ===== src/Stdlib/Numerals.antt =====
-- The loop of `strtoll` in libs/src/libc/stdlib.c, on the digits of a number.
use cibyl.Base.{
  ℕ, ◌+◌, ◌-◌, ◌*◌, ◌%◌, ◌≤◌, ◌<◌, ◌≡◌, refl, Bool, true, false, not, ◌&&◌, List, [], ◌∷◌, ◌++◌,
  All, ltb, ◌==◌, if◌then◌else◌, map, arith, ◌⊎◌, inl, inr,
}
use cibyl.Ctype.{isdigit, isxdigit}
use cibyl.Stdlib.{word64, digit_value, digits_loop}

-- The character of a digit, in lower case.
abbrev pub digit_char : ℕ → ℕ
digit_char d = if ltb d 10 then b'0' + d else b'a' + d - 10

-- The number that digits stand for, highest first.
abbrev pub numeral : ℕ → ℕ → List ℕ → ℕ
numeral base num [] = num
numeral base num (d ∷ ds) = numeral base (num * base + d) ds

abbrev pub Digits : ℕ → List ℕ → Type 0
Digits base = All (λ d. d < base)

abbrev pub Supported : ℕ → Type 0
Supported base = (base ≡ 10) ⊎ (base ≡ 16)

-- No digit of the base stands at the front.
abbrev pub Stops : ℕ → List ℕ → Type 0
Stops base [] = Unit
Stops base (c ∷ cs) = (isxdigit c && not ((base == 10) && not (isdigit c))) ≡ false

digit_value-char : (base d : ℕ) → Supported base → d < base → digit_value base (digit_char d) ≡ d
unfolding digit_value
digit_value-char base d (inl e) h = ground arith
digit_value-char base d (inr e) h = ground arith

digit-goes :
    (base d : ℕ)
    → Supported base
    → d < base
    → (isxdigit (digit_char d) && not ((base == 10) && not (isdigit (digit_char d)))) ≡ true
unfolding isxdigit isdigit
digit-goes base d (inl e) h = ground arith
digit-goes base d (inr e) h = ground arith

step_grows : (base num d : ℕ) → Supported base → num ≤ num * base + d
step_grows base num d (inl e) = rw e (omega arith)
step_grows base num d (inr e) = rw e (omega arith)

numeral_grows : (base num : ℕ) (ds : List ℕ) → Supported base → num ≤ numeral base num ds
numeral_grows base num [] b = omega arith
numeral_grows base num (d ∷ ds) b =
    omega (arith, numeral_grows base (num * base + d) ds b, step_grows base num d b)

pub digits_loop-stop :
    (base : ℕ) (tail : List ℕ) (num : ℕ) (is_converted : Bool)
    → Stops base tail
    → digits_loop base tail num is_converted ≡ (num, tail, is_converted)
unfolding digits_loop
digits_loop-stop base [] num is_converted h = refl
digits_loop-stop base (c ∷ cs) num is_converted h = rw h refl

-- The loop reads the digits up to the first character that is none, if their number fits.
digits_loop-numeral :
    (base : ℕ) (ds tail : List ℕ) (num : ℕ)
    → Supported base
    → Digits base ds
    → Stops base tail
    → numeral base num ds < word64
    → digits_loop base (map digit_char ds ++ tail) num true ≡ (numeral base num ds, tail, true)
unfolding digits_loop
digits_loop-numeral base [] tail num b o stop fits = digits_loop-stop base tail num true stop
digits_loop-numeral base (d ∷ ds) tail num b (small, o) stop fits =
    let grows = numeral_grows base (num * base + d) ds b in
    let kept : (num * base + d) % word64 ≡ num * base + d = omega (arith, grows, fits) in
    rw (digit-goes base d b small, digit_value-char base d b small, kept)
      (digits_loop-numeral base ds tail (num * base + d) b o stop fits)

-- The same from the start, when there is a digit.
pub digits_loop_first :
    (base d : ℕ) (ds tail : List ℕ)
    → Supported base
    → Digits base (d ∷ ds)
    → Stops base tail
    → numeral base 0 (d ∷ ds) < word64
    → digits_loop base (map digit_char (d ∷ ds) ++ tail) 0 false
      ≡ (numeral base 0 (d ∷ ds), tail, true)
unfolding digits_loop
digits_loop_first base d ds tail b (small, o) stop fits =
    let grows = numeral_grows base (0 * base + d) ds b in
    let kept : (0 * base + d) % word64 ≡ 0 * base + d = omega (arith, grows, fits) in
    rw (digit-goes base d b small, digit_value-char base d b small, kept)
      (digits_loop-numeral base ds tail (0 * base + d) b o stop fits)

-- The last of the digits.
abbrev pub last : ℕ → List ℕ → ℕ
last d [] = d
last d (e ∷ es) = last e es

-- With the base 0 the number so far is lost in each round.
pub digits_loop-zero :
    (ds tail : List ℕ) (num : ℕ)
    → num < 10
    → Digits 10 ds
    → Stops 0 tail
    → digits_loop 0 (map digit_char ds ++ tail) num true ≡ (last num ds, tail, true)
unfolding digits_loop digit_value isxdigit isdigit
digits_loop-zero [] tail num n o stop = digits_loop-stop 0 tail num true stop
digits_loop-zero (d ∷ ds) tail num n (small, o) stop =
    let low : ltb d 10 ≡ true = ground arith in
    let goes : (isxdigit (digit_char d) && not ((0 == 10) && not (isdigit (digit_char d)))) ≡ true =
      ground arith in
    let kept : (num * 0 + digit_value 0 (digit_char d)) % word64 ≡ d = ground arith in
    rw (goes, kept) (digits_loop-zero ds tail d small o stop)

pub digits_loop-zero_first :
    (d : ℕ) (ds tail : List ℕ)
    → Digits 10 (d ∷ ds)
    → Stops 0 tail
    → digits_loop 0 (map digit_char (d ∷ ds) ++ tail) 0 false ≡ (last d ds, tail, true)
unfolding digits_loop digit_value isxdigit isdigit
digits_loop-zero_first d ds tail (small, o) stop =
    let goes : (isxdigit (digit_char d) && not ((0 == 10) && not (isdigit (digit_char d)))) ≡ true =
      ground arith in
    let kept : (0 * 0 + digit_value 0 (digit_char d)) % word64 ≡ d = ground arith in
    rw (goes, kept) (digits_loop-zero ds tail d small o stop)
