-- ===== src/Ctype.antt =====
-- The character functions of syscalls/ansi/include/ctype.h and libs/src/libc/ansi.c, on characters
-- that are not negative.
pub mod Case
pub mod Caseless
mod Tests
use cibyl.Base.{
  ℕ, ◌+◌, ◌-◌, ◌%◌, Bool, true, false, not, ◌&&◌, ◌||◌, leb, ltb, ◌==◌, if◌then◌else◌, List, [],
  ◌∷◌, suc, zero, Option, some, none,
}
use cibyl.Base.Int.{ℤ, pos, sub_ℕ}

unfoldable pub isascii : ℕ → Bool
isascii c = ltb c 0x80

unfoldable pub isupper : ℕ → Bool
isupper c = leb b'A' c && leb c b'Z'

unfoldable pub islower : ℕ → Bool
islower c = leb b'a' c && leb c b'z'

unfoldable pub isalpha : ℕ → Bool
unfolding isupper islower
isalpha c = isupper c || islower c

-- Space, and the characters from tab to carriage return.
unfoldable pub isspace : ℕ → Bool
isspace c = (c == 32) || ((c == 12) || ((c == 10) || ((c == 13) || ((c == 9) || (c == 11)))))

unfoldable pub isdigit : ℕ → Bool
isdigit c = leb b'0' c && leb c b'9'

unfoldable pub isalnum : ℕ → Bool
unfolding isalpha isdigit
isalnum c = isalpha c || isdigit c

unfoldable pub isprint : ℕ → Bool
isprint c = leb 32 (c % 128) && ltb (c % 128) 127

unfoldable pub isgraph : ℕ → Bool
unfolding isprint
isgraph c = isprint c && not (c == 32)

unfoldable pub iscntrl : ℕ → Bool
iscntrl c = leb c 0x1f || (c == 0x7f)

unfoldable pub isxdigit : ℕ → Bool
unfolding isdigit
isxdigit c = isdigit c || ((leb b'A' c && leb c b'F') || (leb b'a' c && leb c b'f'))

unfoldable pub ispunct : ℕ → Bool
unfolding isprint isspace isalnum
ispunct c = isprint c && (not (isspace c) && not (isalnum c))

unfoldable pub tolower : ℕ → ℕ
tolower c = if leb b'A' c && leb c b'Z' then c + b'a' - b'A' else c

-- `c - 'a' - 'A'`, which is negative.
unfoldable pub toupper : ℕ → ℤ
toupper c = if leb b'a' c && leb c b'z' then sub_ℕ c (b'a' + b'A') else pos c

-- `strncasecmp` on two strings with their NULs, for at most `n` characters: the loop, with the last
-- two characters read.
pub casecmp_loop : ℕ → List ℕ → List ℕ → ℕ → ℕ → ℕ × ℕ
unfolding tolower
casecmp_loop zero ss ds a b = (a, b)
casecmp_loop (suc n) (s ∷ ss) (d ∷ ds) a b =
    let rest = casecmp_loop n ss ds (tolower s) (tolower d) in
    if (tolower s == tolower d) && (not (tolower d == 0) && not (tolower s == 0))
    then rest
    else (tolower s, tolower d)
casecmp_loop (suc n) _ _ a b = (a, b)

-- The sign that `strncasecmp` returns.
pub data Compared : Type 0 where
  less same more : Compared

pub compared : ℕ × ℕ → Compared
compared (a, b) = if ltb a b then less else if ltb b a then more else same

pub strncasecmp : List ℕ → List ℕ → ℕ → Compared
unfolding casecmp_loop compared
strncasecmp ss ds n = compared (casecmp_loop n ss ds 0 0)
