-- ===== src/Smalloc/Tiling.antt =====
-- The invariant of libs/src/libc/smalloc.c: the blocks of the two lists tile the memory pool.
use cibyl.Base.{
  ℕ, ◌+◌, ◌%◌, ◌≤◌, ◌≡◌, ap, inl, inr, ◌&&◌, List, [], ◌∷◌, ltb, leb, if◌then◌else◌, All, sum_of,
  arith,
}
use cibyl.Smalloc.{Node, Heap, overhead, word, remainder}
use cibyl.Smalloc.Nodes.{Holds, Vacant}
use cibyl.Smalloc.Insert.{IsChain, Additive}

-- 1 if the byte at `a` belongs to the block, its header included, else 0.
abbrev pub covers : ℕ → Node → ℕ
covers a n = if leb n.addr a && ltb a (n.addr + overhead + n.rsize) then 1 else 0

abbrev pub within : ℕ → ℕ → ℕ → ℕ
within start end a = if leb start a && ltb a end then 1 else 0

pub record IsValid (start end : ℕ) (h : Heap) : Type 0 where
  pub avail : IsChain h.available
  pub alloc : IsChain h.allocated
  -- Each byte of the pool belongs to exactly one block, and no other byte to any.
  pub tiles :
      (a : ℕ)
      → sum_of (covers a) h.available.nodes + sum_of (covers a) h.allocated.nodes
        ≡ within start end a
  -- An allocated block has room for what was asked for.
  pub room : All (λ c. c.usize ≤ c.rsize) h.allocated.nodes
  pub account : h.total ≡ sum_of Node.usize h.allocated.nodes % word

pub covers-Additive : (a : ℕ) → Additive (covers a)
covers-Additive a x y e fit = ground arith

-- Cutting a block in two leaves every byte with one of the parts.
pub covers_cut :
    (a aligned : ℕ) (b : Node)
    → aligned + overhead ≤ b.rsize
    → covers a b ≡ covers a (record b { rsize = aligned }) + covers a (remainder aligned b)
unfolding remainder
covers_cut a aligned b h = ground arith

pub Vacant-of_uncovered : (a : ℕ) (cs : List Node) → sum_of (covers a) cs ≡ 0 → Vacant a cs
Vacant-of_uncovered a [] e = tt
Vacant-of_uncovered a (c ∷ cs) e = (ground arith, Vacant-of_uncovered a cs (omega arith))

pub covers-le-sum :
    (a : ℕ) (n : Node) (cs : List Node) → Holds n cs → covers a n ≤ sum_of (covers a) cs
covers-le-sum a n [] h = absurd h
covers-le-sum a n (c ∷ cs) (inl e) = omega (arith, ap (covers a) e)
covers-le-sum a n (c ∷ cs) (inr h) = omega (arith, covers-le-sum a n cs h)
