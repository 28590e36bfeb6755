-- ===== src/Strings/Span.antt =====
-- `strspn`, `strcspn` and `strpbrk` of libs/src/libc/string.c, for any two NUL-terminated strings.
use cibyl.Base.{
  ℕ, zero, suc, ◌+◌, ◌*◌, ◌≤◌, ◌<◌, ◌≡◌, refl, ap, inl, inr, Bool, false, ◌==◌, if◌then◌else◌,
  Bool-cases, arith, some, List, [], ◌∷◌, length, ◌||◌,
}
use cibyl.Memory.{Memory, StrAt}
use cibyl.Strings.{strspn, strspn_loop, occurs, break_loop, strpbrk, strcspn}

abbrev pub member : ℕ → List ℕ → Bool
member c [] = false
member c (d ∷ ds) = (d == c) || member c ds

-- The number of characters at the front that are in the set, or that are not.
abbrev pub span : List ℕ → List ℕ → ℕ
span ds [] = 0
span ds (c ∷ cs) = if member c ds then suc (span ds cs) else 0

abbrev pub cspan : List ℕ → List ℕ → ℕ
cspan ds [] = 0
cspan ds (c ∷ cs) = if member c ds then 0 else suc (cspan ds cs)

abbrev pub meets : List ℕ → List ℕ → Bool
meets ds [] = false
meets ds (c ∷ cs) = member c ds || meets ds cs

-- What is left of the span when the inner string has been read up to its suffix `es`.
abbrev span_from : List ℕ → List ℕ → List ℕ → ℕ
span_from ds es [] = 0
span_from ds es (c ∷ cs) = if member c es then suc (span ds cs) else 0

module _ (m : Memory) (s2 : ℕ) (ds : List ℕ) (set : StrAt m s2 ds) where
  span_from_all : (cs : List ℕ) → span_from ds ds cs ≡ span ds cs
  span_from_all [] = refl
  span_from_all (c ∷ cs) = refl

  strspn_loop-end :
      (k s p : ℕ) (cs es : List ℕ)
      → StrAt m s cs
      → StrAt m p es
      → length es + length cs * suc (length ds) < k
      → strspn_loop k m s2 s p ≡ some (s + span_from ds es cs)
  unfolding strspn_loop
  strspn_loop-end zero s p cs es str inner h = absurd (omega arith)
  strspn_loop-end (suc k) s p [] [] str inner h = ground arith
  strspn_loop-end (suc k) s p (c ∷ cs) [] str inner h = ground arith
  strspn_loop-end (suc k) s p [] (e ∷ es) str (at, ne, inner) h =
      ground (arith, strspn_loop-end k s (p + 1) [] es str inner (omega arith))
  strspn_loop-end (suc k) s p (c ∷ cs) (e ∷ es) (here, cne, str) (at, ne, inner) h =
      elim (Bool-cases (e == c)) [
        | inl hit ↦
            ground
              (arith, strspn_loop-end k (s + 1) s2 cs ds str set (omega arith), span_from_all cs)
        | inr miss ↦
            ground
              (arith, strspn_loop-end k s (p + 1) (c ∷ cs) es (here, cne, str) inner (omega arith))
      ]

  -- `strspn` ends, and returns how many characters at the front of the string are in the set.
  pub strspn_lem :
      (k s : ℕ) (cs : List ℕ)
      → StrAt m s cs
      → suc (length cs) * suc (length ds) ≤ k
      → strspn k m s s2 ≡ some (span ds cs)
  unfolding strspn
  strspn_lem k s cs str h =
      rw (strspn_loop-end k s s2 cs ds str set (omega arith), span_from_all cs)
        (ap some (omega arith))

  occurs-member :
      (k p c : ℕ) (es : List ℕ) → StrAt m p es → length es < k → occurs k m p c ≡ some (member c es)
  unfolding occurs
  occurs-member zero p c es str h = absurd (omega arith)
  occurs-member (suc k) p c [] str h = ground arith
  occurs-member (suc k) p c (e ∷ es) (at, ne, str) h =
      ground (arith, occurs-member k (p + 1) c es str (omega arith))

  break_loop-end :
      (k s : ℕ) (cs : List ℕ)
      → StrAt m s cs
      → length cs + length ds < k
      → break_loop k m s2 s ≡ some (s + cspan ds cs, meets ds cs)
  unfolding break_loop
  break_loop-end zero s cs str h = absurd (omega arith)
  break_loop-end (suc k) s [] str h = ground arith
  break_loop-end (suc k) s (c ∷ cs) (at, ne, str) h =
      let go : (m s == 0) ≡ false = ground arith in
      rw (go, at, occurs-member (suc k) s2 c ds set (omega arith))
        (ground (arith, break_loop-end k (s + 1) cs str (omega arith)))

  -- `strcspn` ends, and returns how many characters at the front of the string are not in the set.
  pub strcspn_lem :
      (k s : ℕ) (cs : List ℕ)
      → StrAt m s cs
      → length cs + length ds < k
      → strcspn k m s s2 ≡ some (cspan ds cs)
  unfolding strcspn
  strcspn_lem k s cs str h = rw (break_loop-end k s cs str h) (ap some (omega arith))

  -- `strpbrk` ends, and returns a pointer to the first character that is in the set, or NULL.
  pub strpbrk_lem :
      (k s : ℕ) (cs : List ℕ)
      → StrAt m s cs
      → length cs + length ds < k
      → strpbrk k m s s2 ≡ some (if meets ds cs then s + cspan ds cs else 0)
  unfolding strpbrk
  strpbrk_lem k s cs str h = rw (break_loop-end k s cs str h)
