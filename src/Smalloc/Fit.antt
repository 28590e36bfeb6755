-- ===== src/Smalloc/Fit.antt =====
-- The search of `bestfit` in libs/src/libc/smalloc.c.
use cibyl.Base.{
  ℕ, ◌-◌, ◌≤◌, ◌<◌, ◌≡◌, refl, ◌≢◌, ◌⊎◌, inl, inr, true, false, Option, none, some, List, [], ◌∷◌,
  Bool-cases, All, arith,
}
use cibyl.Smalloc.{Node, max_int, is_better, best_loop, best}
use cibyl.Smalloc.Nodes.{Desc, Holds, Vacant, Desc-Vacant}
use cibyl.Smalloc.Insert.{Fits}

-- No block of the list that is large enough is smaller than `k`.
abbrev pub Least : ℕ → ℕ → List Node → Type 0
Least size k = All (λ c. size ≤ c.rsize → k ≤ c.rsize)

-- The answer of the search: a smallest block that is large enough, or none where there is none.
abbrev pub IsBest : ℕ → List Node → Option Node → Type 0
IsBest size cs none = All (λ c. c.rsize < size) cs
IsBest size cs (some b) = Holds b cs × (size ≤ b.rsize) × Least size b.rsize cs

-- Where a loop that has a candidate `x` ends.
record Improves (size : ℕ) (x : Node) (cs : List Node) (out : Option Node) : Type 0 where
  y : Node
  result : out ≡ some y
  fits : size ≤ y.rsize
  smaller : y.rsize ≤ x.rsize
  least : Least size y.rsize cs
  found : (x ≡ y) ⊎ Holds y cs

module _ (size first : ℕ) where
  better-lt :
      (x c : Node)
      → c.addr ≢ first
      → is_better size first (x.rsize - size) c ≡ true
      → (size ≤ c.rsize) × (c.rsize ≤ x.rsize)
  unfolding is_better
  better-lt x c ne h = ground arith

  not_better-le :
      (x c : Node)
      → size ≤ x.rsize
      → is_better size first (x.rsize - size) c ≡ false
      → size ≤ c.rsize
      → x.rsize ≤ c.rsize
  unfolding is_better
  not_better-le x c fit h le = ground arith

  best_loop-Improves :
      (x : Node) (cs : List Node)
      → size ≤ x.rsize
      → Vacant first cs
      → Improves size x cs (best_loop size first cs (x.rsize - size) (some x))
  unfolding best_loop
  best_loop-Improves x [] fit free = record {
    y = x;
    result = refl;
    fits = fit;
    smaller = omega arith;
    least = tt;
    found = inl refl;
  }
  best_loop-Improves x (c ∷ cs) fit free =
      elim (Bool-cases (is_better size first (x.rsize - size) c)) [
        | inl yes_better ↦
            let (le, lt) = better-lt x c free.0 yes_better in
            let ih = best_loop-Improves c cs le free.1 in
            rw yes_better (record {
              y = ih.y;
              result = ih.result;
              fits = ih.fits;
              smaller = omega (arith, ih.smaller);
              least = (λ _. ih.smaller, ih.least);
              found = inr ih.found;
            })
        | inr worse ↦
            let ih = best_loop-Improves x cs fit free.1 in
            rw worse (record {
              y = ih.y;
              result = ih.result;
              fits = ih.fits;
              smaller = ih.smaller;
              least = (λ le. omega (arith, ih.smaller, not_better-le x c fit worse le), ih.least);
              found = elim ih.found [ inl e ↦ inl e | inr h ↦ inr (inr h) ];
            })
      ]

  -- The step of a loop that has no candidate yet.
  IsBest-cons :
      (c : Node) (cs : List Node)
      → Fits c
      → Vacant first cs
      → IsBest size cs (best_loop size first cs max_int none)
      → IsBest size (c ∷ cs) (best_loop size first (c ∷ cs) max_int none)
  unfolding best_loop
  IsBest-cons c cs fits free ih = elim (Bool-cases (is_better size first max_int c)) [
    | inl hit ↦
        let r = best_loop-Improves c cs (some_fit hit) free in
        rw (hit, r.result) (r.found, r.fits, ((λ _. r.smaller), r.least))
    | inr miss ↦ rw miss (skip (no_fit miss) _ ih)
  ]
    where
      some_fit : is_better size first max_int c ≡ true → size ≤ c.rsize
      some_fit h = unfold is_better in ground arith

      no_fit : is_better size first max_int c ≡ false → c.rsize < size
      no_fit h = unfold is_better in ground arith

      skip : c.rsize < size → (out : Option Node) → IsBest size cs out → IsBest size (c ∷ cs) out
      skip lt none all = (lt, all)
      skip lt (some b) (h, fit, least) = (inr h, fit, ((λ le. absurd (omega arith)), least))

  best_loop-IsBest :
      (cs : List Node)
      → All Fits cs
      → Vacant first cs
      → IsBest size cs (best_loop size first cs max_int none)
  unfolding best_loop
  best_loop-IsBest [] fits free = tt
  best_loop-IsBest (c ∷ cs) fits free =
      IsBest-cons c cs fits.0 free.1 (best_loop-IsBest cs fits.1 free.1)

-- In a list in descending order of addresses, whose sizes fit in an `int`, the search of `bestfit`
-- chooses a smallest of the blocks that are large enough, and none only if there is none.
pub best-IsBest :
    (size b : ℕ) (cs : List Node) → Desc b cs → All Fits cs → IsBest size cs (best size cs)
unfolding best
best-IsBest size b [] d fits = tt
best-IsBest size b (c ∷ cs) d fits =
    let free = Desc-Vacant c.addr c.addr cs (omega arith) d.1 in
    IsBest-cons size c.addr c cs fits.0 free (best_loop-IsBest size c.addr cs fits.1 free)
