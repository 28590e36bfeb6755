-- ===== src/Stdlib/Convert.antt =====
-- `strtoll` of libs/src/libc/stdlib.c on a string with white space, a sign, a prefix and digits.
use cibyl.Base.{
  ℕ, ◌+◌, ◌-◌, ◌%◌, ◌<◌, ◌≡◌, ◌≢◌, refl, ap, Bool, true, false, ◌||◌, List, [], ◌∷◌, ◌++◌, All,
  ◌==◌, if◌then◌else◌, length, map, arith, inl, inr, Option, none, some,
}
use cibyl.Ctype.{isspace}
use cibyl.Stdlib.{word64, skip_space, take_sign, take_prefix, digits_loop, finish, strtoll}
use cibyl.Stdlib.Numerals.{digit_char, Supported}

-- No sign, or one, a minus being `true`.
abbrev pub sign_chars : Option Bool → List ℕ
sign_chars none = []
sign_chars (some true) = b'-' ∷ []
sign_chars (some false) = b'+' ∷ []

abbrev pub is_minus : Option Bool → Bool
is_minus none = false
is_minus (some m) = m

-- The bit pattern of the number with its sign.
abbrev pub signed : Option Bool → ℕ → ℕ
signed sg n = if is_minus sg then (word64 - n) % word64 else n

abbrev pub NoX : List ℕ → Type 0
NoX [] = Unit
NoX (c ∷ cs) = c ≢ b'x'

abbrev pub Spaces : List ℕ → Type 0
Spaces = All (λ c. isspace c ≡ true)

-- A digit begins what follows the sign.
abbrev pub Plain : List ℕ → Type 0
Plain [] = Unit
Plain (c ∷ cs) = (isspace c ≡ false) × (c ≢ b'-') × (c ≢ b'+')

skip_space-Spaces :
    (spaces rest : List ℕ) → Spaces spaces → skip_space (spaces ++ rest) ≡ skip_space rest
unfolding skip_space
skip_space-Spaces [] rest h = refl
skip_space-Spaces (c ∷ spaces) rest (h, hs) = rw h (skip_space-Spaces spaces rest hs)

skip_space-sign :
    (sg : Option Bool) (rest : List ℕ)
    → Plain rest
    → skip_space (sign_chars sg ++ rest) ≡ sign_chars sg ++ rest
unfolding skip_space isspace
skip_space-sign none [] p = refl
skip_space-sign none (c ∷ rest) p = rw p.0 refl
skip_space-sign (some true) rest p = refl
skip_space-sign (some false) rest p = refl

take_sign-sign :
    (sg : Option Bool) (rest : List ℕ)
    → Plain rest
    → take_sign (sign_chars sg ++ rest) ≡ (is_minus sg, rest)
unfolding take_sign
take_sign-sign none [] p = refl
take_sign-sign none (c ∷ rest) (_, m, q) = ground arith
take_sign-sign (some true) rest p = refl
take_sign-sign (some false) rest p = refl

pub digits-Plain :
    (base d : ℕ) (rest : List ℕ) → Supported base → d < base → Plain (digit_char d ∷ rest)
unfolding isspace
digits-Plain base d rest (inl e) h = (ground arith, ground arith, ground arith)
digits-Plain base d rest (inr e) h = (ground arith, ground arith, ground arith)

pub length-digits :
    (ds tail : List ℕ) → length (map digit_char ds ++ tail) ≡ length ds + length tail
length-digits [] tail = omega arith
length-digits (d ∷ ds) tail = omega (arith, length-digits ds tail)

-- The bases that pass the assertion.
abbrev pub Accepted : ℕ → Type 0
Accepted base = ((base == 10) || ((base == 16) || (base == 0))) ≡ true

pub strtoll_run :
    (spaces rest digits tail : List ℕ) (sg : Option Bool) (base b n : ℕ) (is_converted : Bool)
    → Spaces spaces
    → Plain rest
    → Accepted base
    → take_prefix base rest ≡ (b, digits)
    → digits_loop b digits 0 false ≡ (n, tail, is_converted)
    → strtoll (spaces ++ (sign_chars sg ++ rest)) base
      ≡ some (finish (spaces ++ (sign_chars sg ++ rest)) (is_minus sg) (n, tail, is_converted))
unfolding strtoll finish
strtoll_run spaces rest digits tail sg base b n is_converted hs p ok pre loop =
    rw
      (
        strtoll,
        ok,
        skip_space-Spaces spaces (sign_chars sg ++ rest) hs,
        skip_space-sign sg rest p,
        take_sign-sign sg rest p,
        pre,
        loop,
      )
      refl

pub finish-converted :
    (start tail : List ℕ) (sg : Option Bool) (n end : ℕ)
    → length start ≡ end + length tail
    → finish start (is_minus sg) (n, tail, true) ≡ record { num = signed sg n; end = end }
unfolding finish
finish-converted start tail sg n end h =
    ap (λ (e : ℕ). record { num = signed sg n; end = e }) (omega (arith, h))
