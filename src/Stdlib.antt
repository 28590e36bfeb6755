-- ===== src/Stdlib.antt =====
-- libs/src/libc/stdlib.c: numbers in strings.
--
-- A string is the list of its characters up to its NUL, and a pointer into it is what is left of
-- the list; `*endptr` is given as an offset. A `long long` is its bit pattern, so that the sums
-- wrap at 2^64. A base that fails the assertion is `none`.
pub mod Numerals
pub mod Convert
pub mod Bases
mod Tests
use mathlib.Core.Option
use cibyl.Base.{
  ℕ, zero, suc, ◌+◌, ◌-◌, ◌*◌, ◌%◌, ◌^◌, Bool, true, false, not, ◌&&◌, ◌||◌, Option, none, some,
  List, [], ◌∷◌, ltb, leb, ◌==◌, if◌then◌else◌, length,
}
use cibyl.Ctype.{isspace, isdigit, isxdigit}

abbrev pub word64 : ℕ
word64 = 2 ^ 64

pub skip_space : List ℕ → List ℕ
skip_space [] = []
skip_space (c ∷ cs) = if isspace c then skip_space cs else c ∷ cs

-- The switch: whether there is a minus, and what follows the sign.
pub take_sign : List ℕ → Bool × List ℕ
take_sign [] = (false, [])
take_sign (c ∷ cs) =
    if c == b'-' then (true, cs) else if c == b'+' then (false, cs) else (false, c ∷ cs)

pub take_prefix : ℕ → List ℕ → ℕ × List ℕ
take_prefix base (c ∷ d ∷ cs) =
    if ((base == 0) || (base == 16)) && ((c == b'0') && (d == b'x'))
    then (16, cs)
    else (base, c ∷ d ∷ cs)
take_prefix base cs = (base, cs)

-- What a round adds to `num`; `c < 'a' + (base - 10)` is written without a negative number.
pub digit_value : ℕ → ℕ → ℕ
digit_value base c =
    if leb b'a' c && ltb (c + 10) (b'a' + base)
    then c - b'a' + 10
    else if leb b'A' c && ltb (c + 10) (b'A' + base)
    then c - b'A' + 10
    else c - b'0'

-- The loop, with `num`, what is left of the string, and `is_converted`.
pub digits_loop : ℕ → List ℕ → ℕ → Bool → ℕ × List ℕ × Bool
unfolding digit_value
digits_loop base [] num is_converted = (num, [], is_converted)
digits_loop base (c ∷ cs) num is_converted =
    let rest = digits_loop base cs ((num * base + digit_value base c) % word64) true in
    if isxdigit c && not ((base == 10) && not (isdigit c))
    then rest
    else (num, c ∷ cs, is_converted)

pub record Converted : Type 0 where
  pub num : ℕ
  pub end : ℕ

-- From the loop on; `start` is the whole string.
pub finish : List ℕ → Bool → ℕ × List ℕ × Bool → Converted
finish start negative (num, rest, is_converted) = record {
  num = if negative then (word64 - num) % word64 else num;
  end = if is_converted then length start - length rest else 0;
}

pub strtoll : List ℕ → ℕ → Option Converted
unfolding skip_space take_sign take_prefix digits_loop finish
strtoll nptr base =
    if (base == 10) || ((base == 16) || (base == 0))
    then (let (negative, signless) = take_sign (skip_space nptr) in
        let (b, digits) = take_prefix base signless in
        some (finish nptr negative (digits_loop b digits 0 false)))
    else none

-- The cast to a `long int`, which has 32 bits.
pub to_long : Converted → Converted
to_long r = record r { num = r.num % 2 ^ 32 }

pub strtol : List ℕ → ℕ → Option Converted
unfolding strtoll to_long
strtol nptr base = Option.map to_long (strtoll nptr base)

pub strtoull : List ℕ → ℕ → Option Converted
unfolding strtoll
strtoull nptr base = strtoll nptr base

pub strtoul : List ℕ → ℕ → Option Converted
unfolding strtoll to_long
strtoul nptr base = Option.map to_long (strtoll nptr base)

-- The bit pattern of the `int`.
pub atoi : List ℕ → Option ℕ
unfolding strtol
atoi nptr = Option.map (λ r. r.num) (strtol nptr 10)
