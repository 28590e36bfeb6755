-- ===== src/Strings/Tokens.antt =====
-- `strtok_r` of libs/src/libc/string.c.
use cibyl.Base.{
  ℕ, zero, suc, ◌+◌, ◌-◌, ◌*◌, ◌≤◌, ◌<◌, ◌≡◌, ◌≢◌, refl, sym, subst, ap, ◌⊎◌, inl, inr, true, false,
  ◌==◌, if◌then◌else◌, Bool-cases, arith, some, List, [], ◌∷◌, length, take, drop, ne→==, All,
}
use cibyl.Memory.{Memory, store, StrAt}
use cibyl.Strings.{Token, cut_token, next_token, strtok_r}
use cibyl.Strings.Scan.{StrAt-unchanged}
use cibyl.Strings.Span.{member, span, cspan, meets, strspn_lem, strpbrk_lem}

span-le-length : (ds cs : List ℕ) → span ds cs ≤ length cs
span-le-length ds [] = omega arith
span-le-length ds (c ∷ cs) = ground (arith, span-le-length ds cs)

cspan-lt-length : (ds cs : List ℕ) → meets ds cs ≡ true → cspan ds cs < length cs
cspan-lt-length ds [] h = cc
cspan-lt-length ds (c ∷ cs) h = ground (arith, cspan-lt-length ds cs)

cspan-eq-length : (ds cs : List ℕ) → meets ds cs ≡ false → cspan ds cs ≡ length cs
cspan-eq-length ds [] h = refl
cspan-eq-length ds (c ∷ cs) h = ground (arith, cspan-eq-length ds cs)

length-drop : (n : ℕ) (cs : List ℕ) → length (drop n cs) ≡ length cs - n
length-drop zero cs = omega arith
length-drop (suc n) [] = omega arith
length-drop (suc n) (c ∷ cs) = omega (arith, length-drop n cs)

StrAt-drop :
    (m : Memory) (p n : ℕ) (cs : List ℕ)
    → StrAt m p cs
    → n ≤ length cs
    → StrAt m (p + n) (drop n cs)
StrAt-drop m p zero cs s h = let e : p + 0 ≡ p = omega arith in rw e s
StrAt-drop m p (suc n) [] s h = absurd (omega arith)
StrAt-drop m p (suc n) (c ∷ cs) (at, ne, s) h =
    let e : p + suc n ≡ p + 1 + n = omega arith in rw e (StrAt-drop m (p + 1) n cs s (omega arith))

-- A NUL written into a string ends it there.
StrAt-take :
    (m : Memory) (p n : ℕ) (cs : List ℕ)
    → StrAt m p cs
    → n ≤ length cs
    → StrAt (store m (p + n) 0) p (take n cs)
StrAt-take m p zero cs s h = ground arith
StrAt-take m p (suc n) [] s h = absurd (omega arith)
StrAt-take m p (suc n) (c ∷ cs) (at, ne, s) h =
    let e : p + suc n ≡ p + 1 + n = omega arith in
    (
      ground arith,
      ne,
      subst (λ a. StrAt (store m a 0) (p + 1) (take n cs)) (sym e)
          (StrAt-take m (p + 1) n cs s (omega arith)),
    )

-- The part of a string that a call of `strtok_r` works on, once the delimiters are skipped.
abbrev pub skipped : List ℕ → List ℕ → List ℕ
skipped ds cs = drop (span ds cs) cs

-- The characters of the token are not in the set.
abbrev pub Avoids : List ℕ → List ℕ → Type 0
Avoids ds = All (λ c. member c ds ≡ false)

pub take-cspan-Avoids : (ds cs : List ℕ) → Avoids ds (take (cspan ds cs) cs)
take-cspan-Avoids ds [] = tt
take-cspan-Avoids ds (c ∷ cs) = elim (Bool-cases (member c ds)) [
  | inl hit ↦ rw hit tt
  | inr miss ↦ rw miss (miss, take-cspan-Avoids ds cs)
]

-- The outcome of a call that has something left after the delimiters: the token `out` is a string
-- of characters that are not in the set, and `*next_start` is the string after the delimiter that
-- was overwritten, or NULL at the end.
pub record IsCut (m : Memory) (s : ℕ) (ds cs : List ℕ) (t : Token) : Type 0 where
  pub result : t.result ≡ s
  pub token : StrAt t.memory s (take (cspan ds cs) cs)
  pub more :
      meets ds cs ≡ true
      → (t.next_start ≡ s + suc (cspan ds cs))
        × StrAt t.memory t.next_start (drop (suc (cspan ds cs)) cs)
  pub last : meets ds cs ≡ false → (t.next_start ≡ 0) × (t.memory ≡ m)
  pub same : (a : ℕ) → a ≢ s + cspan ds cs → t.memory a ≡ m a

take-length : (cs : List ℕ) → take (length cs) cs ≡ cs
take-length [] = refl
take-length (c ∷ cs) = ap (λ t. c ∷ t) (take-length cs)

module _ (m : Memory) (s2 : ℕ) (ds : List ℕ) (set : StrAt m s2 ds) (k : ℕ) where
  cut_token-IsCut :
      (s : ℕ) (cs : List ℕ)
      → s ≢ 0
      → (m s == 0) ≡ false
      → StrAt m s cs
      → length cs + length ds < k
      → (t : Token) × (cut_token k m s s2 ≡ some t) × IsCut m s ds cs t
  unfolding cut_token
  cut_token-IsCut s cs nz go str h = elim (Bool-cases (meets ds cs)) [
    | inl hit ↦
        let n = cspan ds cs in
        let at : (s + n == 0) ≡ false = ground arith in
        let lt = cspan-lt-length ds cs hit in
        (
          record { result = s; memory = store m (s + n) 0; next_start = s + n + 1 },
          rw (go, strpbrk_lem m s2 ds set k s cs str h, hit, at),
          record {
            result = refl;
            token = StrAt-take m s n cs str (omega arith);
            more = λ _. (omega arith, rest s n cs str lt);
            last = λ e. cc;
            same = λ a ne. ground arith;
          },
        )
    | inr miss ↦ (
      record { result = s; memory = m; next_start = 0 },
      rw (go, strpbrk_lem m s2 ds set k s cs str h, miss),
      record {
        result = refl;
        token = rw (cspan-eq-length ds cs miss, take-length cs) str;
        more = λ e. cc;
        last = λ _. (refl, refl);
        same = λ a ne. refl;
      },
    )
  ]
    where
      rest :
          (s n : ℕ) (cs : List ℕ)
          → StrAt m s cs
          → n < length cs
          → StrAt (store m (s + n) 0) (s + n + 1) (drop (suc n) cs)
      rest s n cs str lt =
          let e : s + n + 1 ≡ s + suc n = omega arith in
          StrAt-unchanged m (store m (s + n) 0) (s + n + 1) (drop (suc n) cs)
            (λ a lo hi. ground arith) (rw e (StrAt-drop m s (suc n) cs str lt))

  -- What a call does with what is left of the string at `s` after the delimiters.
  abbrev Outcome : ℕ → List ℕ → Token → Type 0
  Outcome s rest t =
      ((rest ≡ []) × (t ≡ record { result = 0; memory = m; next_start = 0 }))
      ⊎ ((rest ≢ []) × IsCut m s ds rest t)

  cut_token-Outcome :
      (s : ℕ) (rest : List ℕ)
      → s ≢ 0
      → StrAt m s rest
      → length rest + length ds < k
      → (t : Token) × (cut_token k m s s2 ≡ some t) × Outcome s rest t
  cut_token-Outcome s [] nz str h = (
    record { result = 0; memory = m; next_start = 0 },
    unfold cut_token in ground arith,
    inl (refl, refl),
  )
  cut_token-Outcome s (c ∷ rest) nz str h =
      let go : (m s == 0) ≡ false = ground arith in
      let (t, run, cut) = cut_token-IsCut s (c ∷ rest) nz go str h in (t, run, inr ((λ e. cc), cut))

  next_token-Outcome :
      (s next : ℕ) (cs : List ℕ)
      → s ≢ 0
      → StrAt m s cs
      → suc (length cs) * suc (length ds) ≤ k
      → length cs + length ds < k
      → (t : Token) × (next_token k m s s2 next ≡ some t)
        × Outcome (s + span ds cs) (skipped ds cs) t
  unfolding next_token
  next_token-Outcome s next cs nz str fuel fuel' =
      let there : (s == 0) ≡ false = ne→== s 0 nz in
      let left = StrAt-drop m s (span ds cs) cs str (span-le-length ds cs) in
      let (t, run, out) =
        cut_token-Outcome (s + span ds cs) (skipped ds cs) (omega arith) left
          (omega (arith, length-drop (span ds cs) cs)) in
      (t, rw (there, strspn_lem m s2 ds set k s cs str fuel) run, out)

-- `strtok_r` on a string `cs` (at its argument, or where the last call left off) skips the
-- delimiters at its front. If nothing is left it returns NULL, leaves NULL to go on from, and
-- changes no byte. Otherwise it returns the string at the first other character, ended by a NUL in
-- place of the next delimiter: its characters are not delimiters. What follows that delimiter is
-- left to go on from, or NULL if the string ended. It changes no byte but that delimiter. The fuel
-- is enough.
pub strtok_r_lem :
    (m : Memory) (s1 s2 next k : ℕ) (ds cs : List ℕ)
    → StrAt m s2 ds
    → (if s1 == 0 then next else s1) ≢ 0
    → StrAt m (if s1 == 0 then next else s1) cs
    → suc (length cs) * suc (length ds) ≤ k
    → length cs + length ds < k
    → (t : Token) × (strtok_r k m s1 s2 next ≡ some t)
      × Avoids ds (take (cspan ds (skipped ds cs)) (skipped ds cs))
      × (((skipped ds cs ≡ []) × (t ≡ record { result = 0; memory = m; next_start = 0 }))
          ⊎ ((skipped ds cs ≢ [])
              × IsCut m ((if s1 == 0 then next else s1) + span ds cs) ds (skipped ds cs) t))
unfolding strtok_r
strtok_r_lem m s1 s2 next k ds cs set nz str fuel fuel' =
    let (t, run, out) =
      next_token-Outcome m s2 ds set k (if s1 == 0 then next else s1) next cs nz str fuel fuel' in
    (t, run, take-cspan-Avoids ds (skipped ds cs), out)
