-- ===== src/Ctype/Caseless.antt =====
-- `strncasecmp` of libs/src/libc/ansi.c, on the characters of two C strings before their NULs.
use cibyl.Base.{
  ℕ, zero, suc, ◌<◌, ◌≡◌, ◌≢◌, refl, inl, inr, Bool-cases, true, false, arith, not, ltb, ◌==◌,
  if◌then◌else◌, List, [], ◌∷◌, ◌++◌, All, map, take,
}
use cibyl.Ctype.{tolower, casecmp_loop, Compared, less, same, more, compared, strncasecmp}

-- The order of the dictionary: a word is less than one that it begins.
abbrev pub in_order : List ℕ → List ℕ → Compared
in_order [] [] = same
in_order [] (y ∷ ys) = less
in_order (x ∷ xs) [] = more
in_order (x ∷ xs) (y ∷ ys) = if ltb x y then less else if ltb y x then more else in_order xs ys

abbrev pub Nonzero : List ℕ → Type 0
Nonzero = All (λ c. 0 < c)

abbrev pub c_string : List ℕ → List ℕ
c_string xs = xs ++ (0 ∷ [])

tolower_positive : (c : ℕ) → 0 < c → 0 < tolower c
unfolding tolower
tolower_positive c h = ground arith

compared_same : (a : ℕ) → compared (a, a) ≡ same
unfolding compared
compared_same a = ground arith

compared-casecmp_loop :
    (n : ℕ) (xs ys : List ℕ) (a : ℕ)
    → Nonzero xs
    → Nonzero ys
    → compared (casecmp_loop n (c_string xs) (c_string ys) a a)
      ≡ in_order (map tolower (take n xs)) (map tolower (take n ys))
unfolding casecmp_loop compared
compared-casecmp_loop zero xs ys a p q = compared_same a
compared-casecmp_loop (suc n) [] [] a p q = refl
compared-casecmp_loop (suc n) [] (y ∷ ys) a p q = ground (arith, tolower_positive y q.0)
compared-casecmp_loop (suc n) (x ∷ xs) [] a p q = ground (arith, tolower_positive x p.0)
compared-casecmp_loop (suc n) (x ∷ xs) (y ∷ ys) a p q = elim (Bool-cases (tolower x == tolower y)) [
  | inl e ↦
      let eq : tolower x ≡ tolower y = ground arith in
      let ih = compared-casecmp_loop n xs ys (tolower y) p.1 q.1 in
      let pos = tolower_positive y q.0 in
      let going : not (tolower y == 0) ≡ true = ground arith in
      let self : (tolower y == tolower y) ≡ true = ground arith in
      let level : ltb (tolower y) (tolower y) ≡ false = ground arith in
      rw (eq, self, going, level) ih
  | inr e ↦ let apart : tolower x ≢ tolower y = ground arith in rw e (ground arith)
]

-- `strncasecmp` of two C strings is the order of the dictionary on their first `n` characters,
-- upper case letters counting as lower case ones.
pub strncasecmp_lem :
    (xs ys : List ℕ) (n : ℕ)
    → Nonzero xs
    → Nonzero ys
    → strncasecmp (c_string xs) (c_string ys) n
      ≡ in_order (map tolower (take n xs)) (map tolower (take n ys))
unfolding strncasecmp
strncasecmp_lem xs ys n p q = compared-casecmp_loop n xs ys 0 p q
