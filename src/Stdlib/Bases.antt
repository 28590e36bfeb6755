-- ===== src/Stdlib/Bases.antt =====
-- `strtoll` of libs/src/libc/stdlib.c with a prefix, without a digit, and with the base 0.
use cibyl.Base.{
  ℕ, ◌+◌, ◌<◌, ◌≡◌, refl, ap, ◌∙◌, Bool, true, false, List, [], ◌∷◌, ◌++◌, ◌==◌, length, map, arith,
  ◌⊎◌, inl, inr, Option, none, some, length-append,
}
use cibyl.Stdlib.{word64, take_prefix, finish, strtoll}
use cibyl.Stdlib.Numerals.{
  digit_char, numeral, Digits, Stops, digits_loop_first, digits_loop-stop, last,
  digits_loop-zero_first,
}
use cibyl.Stdlib.Convert.{
  sign_chars, signed, NoX, Spaces, Plain, Accepted, strtoll_run, finish-converted, digits-Plain,
  length-digits,
}

-- With the base 16 or 0 and the prefix 0x, `strtoll` returns the number of the hexadecimal digits
-- that follow, with its sign, modulo 2^64, and their end, if the number is below 2^64.
pub strtoll_prefix :
    (spaces : List ℕ) (sg : Option Bool) (base d : ℕ) (ds tail : List ℕ)
    → Spaces spaces
    → (base ≡ 0) ⊎ (base ≡ 16)
    → Digits 16 (d ∷ ds)
    → Stops 16 tail
    → numeral 16 0 (d ∷ ds) < word64
    → strtoll (spaces ++ (sign_chars sg ++ (b'0' ∷ b'x' ∷ (map digit_char (d ∷ ds) ++ tail)))) base
      ≡ some (record {
        num = signed sg (numeral 16 0 (d ∷ ds));
        end = length spaces + length (sign_chars sg) + 2 + length (d ∷ ds);
      })
unfolding take_prefix
strtoll_prefix spaces sg base d ds tail hs b o stop fits =
    let digits = map digit_char (d ∷ ds) ++ tail in
    let rest = b'0' ∷ b'x' ∷ digits in
    strtoll_run spaces rest digits tail sg base 16 (numeral 16 0 (d ∷ ds)) true hs
      (digits-Plain 10 0 (b'x' ∷ digits) (inl refl) (omega arith)) (accepted b) (prefix digits b)
      (digits_loop_first 16 d ds tail (inr refl) o stop fits)
    ∙ ap some (
        finish-converted (spaces ++ (sign_chars sg ++ rest)) tail sg (numeral 16 0 (d ∷ ds))
          (length spaces + length (sign_chars sg) + 2 + length (d ∷ ds))
          (omega (
            arith,
            length-append spaces (sign_chars sg ++ rest),
            length-append (sign_chars sg) rest,
            length-digits (d ∷ ds) tail,
          )))
  where
    accepted : (base ≡ 0) ⊎ (base ≡ 16) → Accepted base
    accepted (inl e) = ground arith
    accepted (inr e) = ground arith

    prefix :
        (digits : List ℕ)
        → (base ≡ 0) ⊎ (base ≡ 16)
        → take_prefix base (b'0' ∷ b'x' ∷ digits) ≡ (16, digits)
    prefix digits (inl e) = rw (take_prefix, e) refl
    prefix digits (inr e) = rw (take_prefix, e) refl

-- White space and a sign, but no decimal digit behind them: in base 10 `strtoll` returns 0 and the
-- start of the string.
pub strtoll_nothing :
    (spaces : List ℕ) (sg : Option Bool) (tail : List ℕ)
    → Spaces spaces
    → Plain tail
    → Stops 10 tail
    → strtoll (spaces ++ (sign_chars sg ++ tail)) 10 ≡ some (record { num = 0; end = 0 })
unfolding finish take_prefix
strtoll_nothing spaces sg tail hs p stop =
    strtoll_run spaces tail tail tail sg 10 10 0 false hs p refl (decimal tail)
      (digits_loop-stop 10 tail 0 false stop)
    ∙ ap (λ (n : ℕ). some (record { num = n; end = 0 })) (signed-zero sg)
  where
    decimal : (t : List ℕ) → take_prefix 10 t ≡ (10, t)
    decimal [] = refl
    decimal (c ∷ []) = refl
    decimal (c ∷ d ∷ cs) = refl

    signed-zero : (sg : Option Bool) → signed sg 0 ≡ 0
    signed-zero none = refl
    signed-zero (some true) = refl
    signed-zero (some false) = refl

-- With the base 0 and no prefix the base stays 0: `strtoll` returns only the last of the decimal
-- digits, with the sign.
pub strtoll_base_zero :
    (spaces : List ℕ) (sg : Option Bool) (d : ℕ) (ds tail : List ℕ)
    → Spaces spaces
    → Digits 10 (d ∷ ds)
    → Stops 0 tail
    → NoX tail
    → strtoll (spaces ++ (sign_chars sg ++ (map digit_char (d ∷ ds) ++ tail))) 0
      ≡ some (record {
        num = signed sg (last d ds);
        end = length spaces + length (sign_chars sg) + length (d ∷ ds);
      })
unfolding take_prefix
strtoll_base_zero spaces sg d ds tail hs o stop x =
    let rest = map digit_char (d ∷ ds) ++ tail in
    strtoll_run spaces rest rest tail sg 0 0 (last d ds) true hs
      (digits-Plain 10 d (map digit_char ds ++ tail) (inl refl) o.0) refl
      (no_prefix_zero d ds tail o x) (digits_loop-zero_first d ds tail o stop)
    ∙ ap some (
        finish-converted (spaces ++ (sign_chars sg ++ rest)) tail sg (last d ds)
          (length spaces + length (sign_chars sg) + length (d ∷ ds))
          (omega (
            arith,
            length-append spaces (sign_chars sg ++ rest),
            length-append (sign_chars sg) rest,
            length-digits (d ∷ ds) tail,
          )))
  where
    no_prefix_zero :
        (d : ℕ) (ds tail : List ℕ)
        → Digits 10 (d ∷ ds)
        → NoX tail
        → take_prefix 0 (map digit_char (d ∷ ds) ++ tail) ≡ (0, map digit_char (d ∷ ds) ++ tail)
    no_prefix_zero d [] [] o x = refl
    no_prefix_zero d [] (c ∷ cs) o x = ground arith
    no_prefix_zero d (e ∷ ds) tail o x =
        let other : (digit_char e == b'x') ≡ false = ground arith in rw other (ground arith)
