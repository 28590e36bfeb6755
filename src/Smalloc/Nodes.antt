-- ===== src/Smalloc/Nodes.antt =====
-- The walks of libs/src/libc/smalloc.c along a list of nodes that descends by address.
use cibyl.Base.{
  ℕ, suc, ◌+◌, ◌≤◌, ◌<◌, ◌≡◌, ap, subst, ◌≢◌, ◌⊎◌, inl, inr, true, false, some, List, [], ◌∷◌, ◌++◌,
  ltb, ◌==◌, if◌then◌else◌, Bool-cases, length, All, sum_of, arith,
}
use cibyl.Smalloc.{Node, payload, above, from, put, unlink}

-- The addresses fall strictly, from below a bound on.
abbrev pub Desc : ℕ → List Node → Type 0
Desc b [] = Unit
Desc b (c ∷ cs) = (c.addr < b) × Desc c.addr cs

abbrev pub Holds : Node → List Node → Type 0
Holds n [] = ⊥
Holds n (c ∷ cs) = (c ≡ n) ⊎ Holds n cs

-- No node has this address.
abbrev pub Vacant : ℕ → List Node → Type 0
Vacant a = All (λ c. c.addr ≢ a)

-- The list without the first node that does not lie above `n`.
unfoldable pub without : Node → List Node → List Node
without n [] = []
without n (c ∷ cs) = if ltb (payload n) (payload c) then c ∷ without n cs else cs

module _ {κ} (P : Node → Type κ) where
  pub All-Holds : (n : Node) (cs : List Node) → All P cs → Holds n cs → P n
  All-Holds n [] ps h = absurd h
  All-Holds n (c ∷ cs) ps (inl e) = subst P e ps.0
  All-Holds n (c ∷ cs) ps (inr h) = All-Holds n cs ps.1 h

  pub All-without : (n : Node) (cs : List Node) → All P cs → All P (without n cs)
  unfolding without
  All-without n [] ps = tt
  All-without n (c ∷ cs) ps = elim (Bool-cases (ltb (payload n) (payload c))) [
    | inl up ↦ rw up (ps.0, All-without n cs ps.1)
    | inr stop ↦ rw stop ps.1
  ]

  pub All-put : (n : Node) (cs : List Node) → P n → All P cs → All P (put n cs)
  unfolding put
  All-put n [] p ps = tt
  All-put n (c ∷ cs) p ps = elim (Bool-cases (c.addr == n.addr)) [
    | inl here ↦ rw here (p, ps.1)
    | inr on ↦ rw on (ps.0, All-put n cs p ps.1)
  ]

  pub All-insert :
      (n : Node) (cs : List Node) → P n → All P cs → All P (above n cs ++ (n ∷ from n cs))
  unfolding above from
  All-insert n [] p ps = (p, tt)
  All-insert n (c ∷ cs) p ps = elim (Bool-cases (ltb (payload n) (payload c))) [
    | inl up ↦ rw up (ps.0, All-insert n cs p ps.1)
    | inr stop ↦ rw stop (p, ps)
  ]

pub Desc-length : (b : ℕ) (cs : List Node) → Desc b cs → length cs ≤ b
Desc-length b [] d = omega arith
Desc-length b (c ∷ cs) d = omega (arith, Desc-length c.addr cs d.1)

pub Desc-mono : (a b : ℕ) (cs : List Node) → a ≤ b → Desc a cs → Desc b cs
Desc-mono a b [] h d = tt
Desc-mono a b (c ∷ cs) h d = (omega arith, d.1)

pub Desc-Holds : (n : Node) (b : ℕ) (cs : List Node) → Desc b cs → Holds n cs → n.addr < b
Desc-Holds n b [] d h = absurd h
Desc-Holds n b (c ∷ cs) d (inl e) = omega (arith, ap Node.addr e)
Desc-Holds n b (c ∷ cs) d (inr h) = omega (arith, Desc-Holds n c.addr cs d.1 h)

-- In a descending list the walk for a node that is there stops at it.
pub unlink-Holds :
    (n : Node) (b : ℕ) (cs : List Node) → Desc b cs → Holds n cs → unlink n cs ≡ some (without n cs)
unfolding unlink without
unlink-Holds n b [] d h = absurd h
unlink-Holds n b (c ∷ cs) d (inl e) = ground (arith, ap Node.addr e)
unlink-Holds n b (c ∷ cs) d (inr h) =
    ground (arith, Desc-Holds n c.addr cs d.1 h, unlink-Holds n c.addr cs d.1 h)

pub sum-without :
    (f : Node → ℕ) (n : Node) (b : ℕ) (cs : List Node)
    → Desc b cs
    → Holds n cs
    → sum_of f cs ≡ f n + sum_of f (without n cs)
unfolding without
sum-without f n b [] d h = absurd h
sum-without f n b (c ∷ cs) d (inl e) = ground (arith, ap Node.addr e, ap f e)
sum-without f n b (c ∷ cs) d (inr h) =
    ground (arith, Desc-Holds n c.addr cs d.1 h, sum-without f n c.addr cs d.1 h)

pub length-without :
    (n : Node) (b : ℕ) (cs : List Node)
    → Desc b cs
    → Holds n cs
    → length cs ≡ suc (length (without n cs))
unfolding without
length-without n b [] d h = absurd h
length-without n b (c ∷ cs) d (inl e) = ground (arith, ap Node.addr e)
length-without n b (c ∷ cs) d (inr h) =
    ground (arith, Desc-Holds n c.addr cs d.1 h, length-without n c.addr cs d.1 h)

pub Desc-without : (n : Node) (b : ℕ) (cs : List Node) → Desc b cs → Desc b (without n cs)
unfolding without
Desc-without n b [] d = tt
Desc-without n b (c ∷ cs) d = elim (Bool-cases (ltb (payload n) (payload c))) [
  | inl up ↦ rw up (d.0, Desc-without n c.addr cs d.1)
  | inr stop ↦ rw stop (Desc-mono c.addr b cs (omega arith) d.1)
]

pub Holds-without :
    (m n : Node) (b : ℕ) (cs : List Node)
    → Desc b cs
    → Holds n cs
    → Holds m cs
    → m.addr ≢ n.addr
    → Holds m (without n cs)
unfolding without
Holds-without m n b [] d k h ne = absurd h
Holds-without m n b (c ∷ cs) d (inl e) (inl g) ne =
    absurd (omega (arith, ap Node.addr e, ap Node.addr g))
Holds-without m n b (c ∷ cs) d (inl e) (inr h) ne =
    let stop : ltb (payload n) (payload c) ≡ false = ground (arith, ap Node.addr e) in rw stop h
Holds-without m n b (c ∷ cs) d (inr k) (inl g) ne =
    let up : ltb (payload n) (payload c) ≡ true = ground (arith, Desc-Holds n c.addr cs d.1 k) in
    rw up (inl g)
Holds-without m n b (c ∷ cs) d (inr k) (inr h) ne =
    let up : ltb (payload n) (payload c) ≡ true = ground (arith, Desc-Holds n c.addr cs d.1 k) in
    rw up (inr (Holds-without m n c.addr cs d.1 k h ne))

pub Desc-Vacant : (a b : ℕ) (cs : List Node) → b ≤ a → Desc b cs → Vacant a cs
Desc-Vacant a b [] h d = tt
Desc-Vacant a b (c ∷ cs) h d = (omega arith, Desc-Vacant a c.addr cs (omega arith) d.1)

-- `without` undoes `link`.
pub without-insert : (n : Node) (cs : List Node) → without n (above n cs ++ (n ∷ from n cs)) ≡ cs
unfolding without above from
without-insert n [] = ground arith
without-insert n (c ∷ cs) = ground (arith, without-insert n cs)
