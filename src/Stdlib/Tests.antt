-- ===== src/Stdlib/Tests.antt =====
-- Examples for `strtoll` of libs/src/libc/stdlib.c.
use cibyl.Base.{ℕ, ◌≡◌, refl, some, List, [], ◌∷◌}
use cibyl.Ctype.{isspace, isdigit, isxdigit}
use cibyl.Stdlib.{atoi}

abbrev blank : List ℕ
blank = b' ' ∷ []

atoi_42 : atoi (b'-' ∷ b'4' ∷ b'2' ∷ []) ≡ some 4294967254
unfolding atoi isspace isxdigit isdigit
atoi_42 = refl
