-- ===== src/Memory.antt =====
-- The byte-addressed memory that the C functions share. A pointer is its address and NULL is 0; an
-- object lies inside the 32-bit address space, so that adding to a pointer into it does not wrap.
use cibyl.Base.{
  ℕ, ◌+◌, ◌/◌, ◌%◌, ◌^◌, ◌≡◌, ◌≢◌, Bool, List, [], ◌∷◌, ◌==◌, ltb, leb, ◌&&◌, if◌then◌else◌,
}

abbrev pub Memory : Type 0
Memory = ℕ → ℕ

-- `*p = v` for a `char *p`; the callers truncate to a byte.
abbrev pub store : Memory → ℕ → ℕ → Memory
store m p v a = if a == p then v else m a

-- `*p = w` for an `int *p`: the target is big-endian.
abbrev pub store_word : Memory → ℕ → ℕ → Memory
store_word m p w =
    store
      (store (store (store m p (w / 2 ^ 24 % 256)) (p + 1) (w / 2 ^ 16 % 256)) (p + 2)
        (w / 2 ^ 8 % 256))
      (p + 3) (w % 256)

-- The `n` bytes from `p` on.
abbrev pub in_range : ℕ → ℕ → ℕ → Bool
in_range p n a = leb p a && ltb a (p + n)

-- A NUL-terminated string stands at `p`.
abbrev pub StrAt : Memory → ℕ → List ℕ → Type 0
StrAt m p [] = m p ≡ 0
StrAt m p (c ∷ cs) = (m p ≡ c) × (c ≢ 0) × StrAt m (p + 1) cs
