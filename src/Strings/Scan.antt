-- ===== src/Strings/Scan.antt =====
-- `strlen`, `strcpy`, `strchr` and `strrchr` of libs/src/libc/string.c on NUL-terminated strings.
use cibyl.Base.{
  ℕ, zero, suc, ◌+◌, ◌%◌, ◌≤◌, ◌<◌, ◌≡◌, ◌≢◌, refl, ap, ◌∙◌, ◌⊎◌, inl, inr, true, false, ◌==◌,
  if◌then◌else◌, Bool-cases, arith, some, List, [], ◌∷◌, ◌++◌, length, All,
}
use cibyl.Memory.{Memory, store, in_range, StrAt}
use cibyl.Strings.{strlen, strlen_loop, strcpy, strchr, strrchr, strrchr_loop}

pub StrAt-unchanged :
    (m m' : Memory) (p : ℕ) (cs : List ℕ)
    → ((a : ℕ) → p ≤ a → a ≤ p + length cs → m' a ≡ m a)
    → StrAt m p cs
    → StrAt m' p cs
StrAt-unchanged m m' p [] same s = ground (arith, same p)
StrAt-unchanged m m' p (c ∷ cs) same (e, ne, s) = (
  ground (arith, same p),
  ne,
  StrAt-unchanged m m' (p + 1) cs (λ a lo hi. same a (omega arith) (omega arith)) s,
)

strlen_loop-end :
    (k : ℕ) (m : Memory) (p : ℕ) (cs : List ℕ)
    → StrAt m p cs
    → length cs < k
    → strlen_loop k m p ≡ some (p + length cs)
unfolding strlen_loop
strlen_loop-end zero m p cs s h = absurd (omega arith)
strlen_loop-end (suc k) m p [] s h = ground arith
strlen_loop-end (suc k) m p (c ∷ cs) (e, ne, s) h =
    ground (arith, strlen_loop-end k m (p + 1) cs s (omega arith))

-- `strlen` ends at the NUL, within as many rounds as the string has characters and one, and returns
-- the number of characters before it.
pub strlen_lem :
    (k : ℕ) (m : Memory) (p : ℕ) (cs : List ℕ)
    → StrAt m p cs
    → length cs < k
    → strlen k m p ≡ some (length cs)
unfolding strlen
strlen_lem k m p cs s h = rw (strlen_loop-end k m p cs s h) (ground arith)

-- The string at `d` is `cs`, and no byte but its own has changed.
pub record Duplicated (m : Memory) (d : ℕ) (cs : List ℕ) (out : Memory) : Type 0 where
  pub string : StrAt out d cs
  pub outside : (a : ℕ) → in_range d (suc (length cs)) a ≡ false → out a ≡ m a

-- `strcpy` ends, and puts the string and its NUL at `d` and nothing else anywhere, if the two
-- regions do not overlap.
pub strcpy_lem :
    (k : ℕ) (m : Memory) (d s : ℕ) (cs : List ℕ)
    → StrAt m s cs
    → length cs < k
    → (d + length cs < s) ⊎ (s + length cs < d)
    → (out : Memory) × (strcpy k m d s ≡ some out) × Duplicated m d cs out
unfolding strcpy
strcpy_lem zero m d s cs str h apart = absurd (omega arith)
strcpy_lem (suc k) m d s [] str h apart =
    (store m d (m s), ground arith, record { string = ground arith; outside = λ a o. ground arith })
strcpy_lem (suc k) m d s (c ∷ cs) (e, ne, str) h apart =
    let (out, run, dup) =
      strcpy_lem k (store m d (m s)) (d + 1) (s + 1) cs
        (StrAt-unchanged m (store m d (m s)) (s + 1) cs (λ a lo hi. ground arith) str) (omega arith)
        (omega arith) in
    (
      out,
      ground arith,
      record {
        string = (ground (arith, dup.outside d), ne, dup.string);
        outside = λ a o. ground (arith, dup.outside a);
      },
    )

-- The first position of `c`.
abbrev pub FirstAt : ℕ → List ℕ → ℕ → Type 0
FirstAt c [] i = ⊥
FirstAt c (x ∷ xs) zero = x ≡ c
FirstAt c (x ∷ xs) (suc i) = (x ≢ c) × FirstAt c xs i

abbrev pub Lacks : ℕ → List ℕ → Type 0
Lacks c = All (λ x. x ≢ c)

-- `strchr` returns a pointer to the first character of the string that is `(char)c`, its NUL
-- included, and NULL if there is none.
pub strchr_lem :
    (k : ℕ) (m : Memory) (s c : ℕ) (cs : List ℕ)
    → StrAt m s cs
    → length cs < k
    → ((i : ℕ) × (strchr k m s c ≡ some (s + i)) × FirstAt (c % 256) (cs ++ (0 ∷ [])) i)
      ⊎ ((strchr k m s c ≡ some 0) × Lacks (c % 256) (cs ++ (0 ∷ [])))
unfolding strchr
strchr_lem zero m s c cs str h = absurd (omega arith)
strchr_lem (suc k) m s c [] str h = elim (Bool-cases (m s == c % 256)) [
  | inl hit ↦ inl (0, rw hit (ap some (omega arith)), ground arith)
  | inr miss ↦ inr (ground arith, (ground arith, tt))
]
strchr_lem (suc k) m s c (x ∷ cs) (e, ne, str) h = elim (Bool-cases (m s == c % 256)) [
  | inl hit ↦ inl (0, rw hit (ap some (omega arith)), ground arith)
  | inr miss ↦
      let go : (m s == 0) ≡ false = ground arith in
      let differs : x ≢ c % 256 = ground arith in
      elim (strchr_lem k m (s + 1) c cs str (omega arith)) [
        | inl (i, run, first) ↦
            inl (suc i, rw (miss, go) (run ∙ ap some (omega arith)), (differs, first))
        | inr (run, lacks) ↦ inr (rw (miss, go) run, (differs, lacks))
      ]
]

-- The last position of `c`.
abbrev pub LastAt : ℕ → List ℕ → ℕ → Type 0
LastAt c [] i = ⊥
LastAt c (x ∷ xs) zero = (x ≡ c) × Lacks c xs
LastAt c (x ∷ xs) (suc i) = LastAt c xs i

-- The loop goes on from a last match `p` so far.
strrchr_loop-result :
    (k : ℕ) (m : Memory) (s c p : ℕ) (cs : List ℕ)
    → StrAt m s cs
    → length cs < k
    → ((i : ℕ) × (strrchr_loop k m s c p ≡ some (s + i)) × LastAt (c % 256) (cs ++ (0 ∷ [])) i)
      ⊎ ((strrchr_loop k m s c p ≡ some p) × Lacks (c % 256) (cs ++ (0 ∷ [])))
unfolding strrchr_loop
strrchr_loop-result zero m s c p cs str h = absurd (omega arith)
strrchr_loop-result (suc k) m s c p [] str h =
    let end : (m s == 0) ≡ true = ground arith in
    elim (Bool-cases (m s == c % 256)) [
      | inl hit ↦ inl (0, rw (end, hit) (ap some (omega arith)), (ground arith, tt))
      | inr miss ↦ inr (rw (end, miss), (ground arith, tt))
    ]
strrchr_loop-result (suc k) m s c p (x ∷ cs) (e, ne, str) h =
    let go : (m s == 0) ≡ false = ground arith in
    let p' = if m s == c % 256 then s else p in
    elim (strrchr_loop-result k m (s + 1) c p' cs str (omega arith)) [
      | inl (i, run, last) ↦ inl (suc i, rw go (run ∙ ap some (omega arith)), last)
      | inr (run, lacks) ↦ elim (Bool-cases (m s == c % 256)) [
        | inl hit ↦ inl (0, rw go (run ∙ rw hit (ap some (omega arith))), (ground arith, lacks))
        | inr miss ↦ inr (rw go (run ∙ rw miss refl), (ground arith, lacks))
      ]
    ]

-- `strrchr` returns a pointer to the last character of the string that is `(char)c`, its NUL
-- included, and NULL if there is none.
pub strrchr_lem :
    (k : ℕ) (m : Memory) (s c : ℕ) (cs : List ℕ)
    → StrAt m s cs
    → length cs < k
    → ((i : ℕ) × (strrchr k m s c ≡ some (s + i)) × LastAt (c % 256) (cs ++ (0 ∷ [])) i)
      ⊎ ((strrchr k m s c ≡ some 0) × Lacks (c % 256) (cs ++ (0 ∷ [])))
unfolding strrchr
strrchr_lem k m s c cs str h = strrchr_loop-result k m s c 0 cs str h
