-- ===== src/Strings/Tests.antt =====
-- Runs of libs/src/libc/string.c on the string "ab,cd" at 100 and the set "," at 200, and the
-- theorems at them.
use cibyl.Base.{
  ℕ, ◌-◌, ◌≡◌, ◌≢◌, refl, ◌⊎◌, inr, some, List, [], ◌∷◌, ltb, if◌then◌else◌, get_or, arith,
}
use cibyl.Memory.{Memory, StrAt}
use cibyl.Strings.{
  Token, memset, memcpy, memmove, strlen, strchr, strrchr, strspn, strcspn, strpbrk, strtok_r,
}
use cibyl.Strings.Fill.{memset_lem}
use cibyl.Strings.Copy.{Copied, memcpy_lem, memmove_lem}
use cibyl.Strings.Tokens.{skipped, Avoids, IsCut, strtok_r_lem}

abbrev page : Memory
page a =
    if ltb a 200
    then get_or (97 ∷ 98 ∷ 44 ∷ 99 ∷ 100 ∷ []) (a - 100) 0
    else get_or (44 ∷ []) (a - 200) 0

abbrev text : List ℕ
text = 97 ∷ 98 ∷ 44 ∷ 99 ∷ 100 ∷ []

abbrev comma : List ℕ
comma = 44 ∷ []

text_at : StrAt page 100 text
text_at = omega arith

comma_at : StrAt page 200 comma
comma_at = omega arith

runs :
    (strlen 9 page 100 ≡ some 5)
    × (strchr 9 page 100 44 ≡ some 102)
    × (strrchr 9 page 100 7 ≡ some 0)
    × (strspn 9 page 200 200 ≡ some 1)
    × (strcspn 9 page 100 200 ≡ some 2)
    × (strpbrk 9 page 100 200 ≡ some 102)
    × (memset page 101 65 9 109 ≡ 65)
    × (memset page 101 65 9 110 ≡ 0)
    × (memmove page 101 100 4 104 ≡ 99)
unfolding strlen strchr strrchr strspn strcspn strpbrk memset memmove
runs = (refl, refl, refl, refl, refl, refl, refl, refl, refl)

memset_lem_example : memset page 101 65 9 103 ≡ 65
memset_lem_example = memset_lem page 101 65 9 (omega arith) 103

memcpy_lem_example : (out : Memory) × (memcpy page 300 100 6 ≡ some out) × Copied page 300 100 6 out
memcpy_lem_example = memcpy_lem page 300 100 6 (inr (omega arith))

memmove_lem_example : Copied page 101 100 4 (memmove page 101 100 4)
memmove_lem_example = memmove_lem page 101 100 4

strtok_r_lem_example :
    (t : Token) × (strtok_r 12 page 100 200 0 ≡ some t)
    × Avoids comma (97 ∷ 98 ∷ [])
    × (((skipped comma text ≡ []) × (t ≡ record { result = 0; memory = page; next_start = 0 }))
        ⊎ ((skipped comma text ≢ []) × IsCut page 100 comma text t))
strtok_r_lem_example =
    strtok_r_lem page 100 200 0 12 comma text comma_at (omega arith) text_at (omega arith)
      (omega arith)
