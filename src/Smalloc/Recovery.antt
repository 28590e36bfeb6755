-- ===== src/Smalloc/Recovery.antt =====
-- What a program gets back from libs/src/libc/smalloc.c when it frees its blocks.
use cibyl.Base.{
  ℕ, ◌+◌, ◌-◌, Bool-cases, ap, ◌==◌, leb, ltb, ◌&&◌, ◌≤◌, ◌<◌, ◌≡◌, inl, inr, some, List, [], ◌∷◌,
  sum_of, arith, refl, subst, ◌∙◌,
}
use cibyl.Smalloc.{Node, Chain, Heap, overhead, max_int, payload, malloc, free, set_memory_pool}
use cibyl.Smalloc.Nodes.{Desc, sum-without, Holds, All-Holds}
use cibyl.Smalloc.Tiling.{covers, IsValid, covers-le-sum}
use cibyl.Smalloc.Touching.{IsCoalesced, IsDisjoint, end_of, disjoint_lem}
use cibyl.Smalloc.Members.{Holds-unique}
use cibyl.Smalloc.Alloc.{Served, malloc_lem}
use cibyl.Smalloc.Free.{free_lem, set_memory_pool-IsValid}
use cibyl.Smalloc.Scripts.{Call, run, run-IsValid, run-IsCoalesced}

-- A byte that the list covers belongs to one of its nodes.
covered :
    (a : ℕ) (cs : List Node)
    → 0 < sum_of (covers a) cs
    → (n : Node) × Holds n cs × (n.addr ≤ a) × (a < end_of n)
covered a [] h = absurd (omega arith)
covered a (c ∷ cs) h = elim (Bool-cases (leb c.addr a && ltb a (end_of c))) [
  | inl here ↦ (c, inl refl, ground arith, ground arith)
  | inr off ↦ let (n, hn, lo, hi) = covered a cs (ground arith) in (n, inr hn, lo, hi)
]

only :
    (n : Node) (b : ℕ) (cs : List Node)
    → Desc b cs
    → Holds n cs
    → ((m : Node) → Holds m cs → n.addr ≤ m.addr)
    → ((m : Node) → Holds m cs → m.addr ≤ n.addr)
    → cs ≡ n ∷ []
only n b [] d h low high = absurd h
only n b (c ∷ []) d (inl g) low high = ap (λ x. x ∷ []) g
only n b (c ∷ []) d (inr h) low high = absurd h
only n b (c ∷ x ∷ cs) d h low high =
    absurd (omega (arith, d.1.0, low x (inr (inl refl)), high c (inl refl)))

module _ {start end : ℕ} {h : Heap} (v : IsValid start end h) where
  one : IsDisjoint h.available.nodes
  one a = ground (arith, v.tiles a)

  -- A block that reaches behind another one begins behind it.
  after :
      (n m : Node)
      → Holds n h.available.nodes
      → Holds m h.available.nodes
      → end_of n < end_of m
      → end_of n ≤ m.addr
  after n m hn hm lt = elim (Bool-cases (ltb n.addr m.addr)) [
    | inl up ↦ disjoint_lem n m max_int h.available.nodes v.avail.desc one hn hm (ground arith)
    | inr off ↦ elim (Bool-cases (m.addr == n.addr)) [
      | inl same ↦
          let g = Holds-unique m n max_int h.available.nodes v.avail.desc hm hn (ground arith) in
          absurd (omega (arith, ap Node.addr g, ap Node.rsize g))
      | inr other ↦
          let down : m.addr < n.addr = ground arith in
          absurd
            (omega (arith, disjoint_lem m n max_int h.available.nodes v.avail.desc one hm hn down))
    ]
  ]

  -- Free bytes that follow on each other are in one block.
  span :
      (low high : ℕ)
      → IsCoalesced h.available.nodes
      → low < high
      → ((a : ℕ) → low ≤ a → a < high → 0 < sum_of (covers a) h.available.nodes)
      → (n : Node) × Holds n h.available.nodes × (n.addr ≤ low) × (high ≤ end_of n)
  span low high k lt all =
      let (n, hn, lo, hi) = covered low h.available.nodes (all low (omega arith) lt) in
      elim (Bool-cases (leb high (end_of n))) [
        | inl whole ↦ (n, hn, lo, ground arith)
        | inr cut ↦
            let (m, hm, from, to) =
              covered (end_of n) h.available.nodes (all (end_of n) (omega arith) (ground arith)) in
            absurd (k n m hn hm (omega (arith, after n m hn hm to)))
      ]

  within_pool : (n : Node) → Holds n h.available.nodes → (start ≤ n.addr) × (end_of n ≤ end)
  within_pool n hn = (
    ground (arith, v.tiles n.addr, covers-le-sum n.addr n h.available.nodes hn),
    ground (arith, v.tiles (end_of n - 1), covers-le-sum (end_of n - 1) n h.available.nodes hn),
  )

  -- Where no block is allocated, and no two free blocks touch, one free block is the whole pool.
  one_block :
      start < end
      → IsCoalesced h.available.nodes
      → h.allocated.nodes ≡ []
      → (usize : ℕ) × (h.available.nodes
          ≡ record { addr = start; rsize = end - start - overhead; usize = usize } ∷ [])
  one_block lt k e =
      let (n, hn, lo, hi) =
        span start end k lt (λ a p q. ground (arith, v.tiles a, rw e at (v.tiles a))) in
      let (from, to) = within_pool n hn in
      let at_start : n.addr ≡ start = omega arith in
      let size : n.rsize ≡ end - start - overhead = omega arith in
      (
        n.usize,
        only n max_int h.available.nodes v.avail.desc hn (λ m hm. omega (arith, within_pool m hm))
              (λ m hm.
                let up = disjoint_lem n m max_int h.available.nodes v.avail.desc one hn hm in
                ground (arith, up, within_pool m hm))
            ∙ (λ i. record { addr = at_start i; rsize = size i; usize = n.usize } ∷ []),
      )

-- A freed block can be had again: after `free` of an allocated block `t`, a request of at most its
-- size is served, on a valid heap where no two free blocks touch.
pub malloc-free :
    {start end : ℕ} {h : Heap} (t : Node) (size : ℕ)
    → IsValid start end h
    → IsCoalesced h.available.nodes
    → Holds t h.allocated.nodes
    → size ≤ t.rsize
    → (g : Heap) × (free (payload t) h ≡ some g) × Served start end size g (malloc size g)
malloc-free {start} {end} {h} t size v k ht le =
    let f = free_lem v t ht in
    let g = f.heap in
    let gained : (a : ℕ) → t.addr ≤ a → a < end_of t → 0 < sum_of (covers a) g.available.nodes =
      λ a from to. ground (
        arith,
        v.tiles a,
        f.valid.tiles a,
        ap (λ (c : Chain). sum_of (covers a) c.nodes) f.allocated,
        sum-without (covers a) t max_int h.allocated.nodes v.alloc.desc ht,
      ) in
    let (n, hn, lo, hi) = span f.valid t.addr (end_of t) (f.coalesced k) (omega arith) gained in
    (
      g,
      f.result,
      elim (malloc_lem f.valid size) [
        | inl (small, _) ↦
            absurd (omega (arith, All-Holds (λ c. c.rsize < size) n g.available.nodes small hn))
        | inr s ↦ s
      ],
    )

pub one-IsCoalesced : (n : Node) → IsCoalesced (n ∷ [])
one-IsCoalesced n a b (inl e) (inl g) touch =
    omega (arith, ap Node.addr e, ap Node.rsize e, ap Node.addr g)
one-IsCoalesced n a b (inr h) k touch = absurd h
one-IsCoalesced n a b (inl e) (inr h) touch = absurd h

set_memory_pool-IsCoalesced :
    (start end : ℕ) → IsCoalesced (set_memory_pool start end).available.nodes
unfolding set_memory_pool
set_memory_pool-IsCoalesced start end = one-IsCoalesced _

-- A pool has room for a header and ends below 2^31. Whatever calls a program makes from the time it
-- is set up, when they leave no block allocated the pool is one free block again, and the count of
-- the allocated bytes is 0.
pub run-recovers :
    (start end : ℕ) (cs : List Call) (g : Heap)
    → start + overhead ≤ end
    → end ≤ max_int
    → run cs (set_memory_pool start end) ≡ some g
    → g.allocated.nodes ≡ []
    → (usize : ℕ) × (g.available.nodes
        ≡ record { addr = start; rsize = end - start - overhead; usize = usize } ∷ [])
      × (g.total ≡ 0)
run-recovers start end cs g room small e empty =
    let v = set_memory_pool-IsValid start end room small in
    let (h, f, w) = run-IsValid cs (set_memory_pool start end) v in
    let same : h ≡ g = cc in
    let w' = subst (IsValid start end) same w in
    let k =
      run-IsCoalesced cs (set_memory_pool start end) g v (set_memory_pool-IsCoalesced start end)
        e in
    let (usize, nodes) = one_block w' (omega arith) k empty in
    (usize, nodes, omega (arith, w'.account, ap (sum_of Node.usize) empty))
