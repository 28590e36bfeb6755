-- ===== src/Ctype/Tests.antt =====
-- Examples for the functions on characters.
use cibyl.Base.{◌≡◌, arith, [], ◌∷◌, map, take}
use cibyl.Ctype.{tolower, strncasecmp}
use cibyl.Ctype.Caseless.{strncasecmp_lem, c_string, in_order}

strncasecmp_lem_example :
    strncasecmp (c_string (b'A' ∷ b'b' ∷ [])) (c_string (b'a' ∷ b'C' ∷ [])) 5
    ≡ in_order (map tolower (take 5 (b'A' ∷ b'b' ∷ []))) (map tolower (take 5 (b'a' ∷ b'C' ∷ [])))
strncasecmp_lem_example =
    strncasecmp_lem (b'A' ∷ b'b' ∷ []) (b'a' ∷ b'C' ∷ []) 5 (omega arith, (omega arith, tt))
      (omega arith, (omega arith, tt))
