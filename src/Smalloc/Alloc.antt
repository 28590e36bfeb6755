-- ===== src/Smalloc/Alloc.antt =====
-- `malloc` of libs/src/libc/smalloc.c on a valid heap.
use cibyl.Base.{
  ℕ, ◌+◌, ◌-◌, ◌%◌, ◌≤◌, ◌<◌, ◌≡◌, refl, ◌⊎◌, inl, inr, Option, none, some, All, sum_of, arith,
}
use cibyl.Smalloc.{
  Node, Heap, overhead, max_int, word, payload, best, link, take_block, bestfit, malloc,
}
use cibyl.Smalloc.Nodes.{Holds, All-insert}
use cibyl.Smalloc.Edits.{sum-insert, Holds-insert, Holds-insert_old}
use cibyl.Smalloc.Insert.{Fits, IsChain, delete-eq, link-IsChain}
use cibyl.Smalloc.Fit.{IsBest, best-IsBest}
use cibyl.Smalloc.Tiling.{covers, IsValid, Vacant-of_uncovered, covers-le-sum}
use cibyl.Smalloc.Touching.{IsCoalesced}
use cibyl.Smalloc.Carve.{block-Fits, carve-Carved}

-- `bestfit` hands the block `n` out: `g` is the heap with it among the allocated blocks.
record Hands (size : ℕ) (n : Node) (h g : Heap) : Type 0 where
  valid : IsChain g.available
  allocated : g.allocated ≡ link n h.allocated
  total : g.total ≡ h.total
  room : size ≤ n.rsize
  user : n.usize ≡ size
  fits : Fits n
  coalesced : IsCoalesced h.available.nodes → IsCoalesced g.available.nodes
  sums :
      (a : ℕ)
      → sum_of (covers a) g.available.nodes + covers a n ≡ sum_of (covers a) h.available.nodes

module _ {start end : ℕ} {h : Heap} (v : IsValid start end h) (size : ℕ) (b : Node)
    (hb : Holds b h.available.nodes) (fit : size ≤ b.rsize) where
  -- The block `b` is taken off the free blocks, what is left of it goes back, and the rest `n` is
  -- linked among the allocated blocks.
  take_block-Hands :
      (n : Node) × (g : Heap) × (take_block size b h ≡ some (n, g))
      × (n.addr ≡ b.addr)
      × Hands size n h g
  unfolding take_block
  take_block-Hands =
      let c = carve-Carved v size b hb fit in
      let fits = block-Fits v size b hb fit in
      (
        record c.n { usize = size },
        record h { available = c.m; allocated = link (record c.n { usize = size }) h.allocated },
        rw (delete-eq b h.available v.avail hb, c.result),
        c.same,
        record {
          valid = c.valid;
          allocated = refl;
          total = refl;
          room = c.room;
          user = refl;
          fits = omega (arith, c.same, c.le);
          coalesced = c.coalesced;
          sums = c.sums;
        },
      )

-- What `malloc` returns for a block that it hands out: the payload of a block `n` of at least the
-- requested size, which the allocated blocks hold besides those that they held, in a valid heap.
pub record Served (start end size : ℕ) (h : Heap) (out : Option (ℕ × Heap)) : Type 0 where
  pub block : Node
  pub heap : Heap
  pub result : out ≡ some (payload block, heap)
  pub room : size ≤ block.rsize
  pub user : block.usize ≡ size
  pub valid : IsValid start end heap
  pub linked : heap.allocated ≡ link block h.allocated
  pub total : heap.total ≡ (h.total + size) % word
  pub coalesced : IsCoalesced h.available.nodes → IsCoalesced heap.available.nodes
  pub gained : (f : Node → ℕ) → sum_of f heap.allocated.nodes ≡ f block + sum_of f h.allocated.nodes

module _ {start end : ℕ} {h : Heap} (v : IsValid start end h) (size : ℕ) where
  handed :
      (n : Node) (g : Heap)
      → Hands size n h g
      → (f : Node → ℕ) → sum_of f g.allocated.nodes ≡ f n + sum_of f h.allocated.nodes
  unfolding link
  handed n g d f = rw d.allocated (sum-insert n f h.allocated.nodes)

  handed-IsValid :
      (n : Node) (g : Heap)
      → Hands size n h g
      → IsValid start end (record g { total = (g.total + size) % word })
  unfolding link
  handed-IsValid n g d = record {
    avail = d.valid;
    alloc = rw d.allocated (
        link-IsChain n h.allocated v.alloc d.fits (
          Vacant-of_uncovered n.addr h.allocated.nodes
            (ground (arith, v.tiles n.addr, d.sums n.addr))));
    tiles = λ a. omega (arith, v.tiles a, d.sums a, handed n g d (covers a));
    room = rw d.allocated (
        All-insert (λ c. c.usize ≤ c.rsize) n h.allocated.nodes (omega (arith, d.user, d.room))
          v.room);
    account = omega (arith, v.account, d.total, d.user, handed n g d Node.usize);
  }

  -- On a valid heap `malloc` returns NULL and changes nothing if no free block is large enough, and
  -- otherwise serves the request.
  pub malloc_lem :
      (All (λ c. c.rsize < size) h.available.nodes × (malloc size h ≡ some (0, h)))
      ⊎ Served start end size h (malloc size h)
  unfolding malloc
  malloc_lem =
      by_search (best size h.available.nodes) refl
        (best-IsBest size max_int h.available.nodes v.avail.desc v.avail.fits)
    where
      by_search :
          (b : Option Node)
          → best size h.available.nodes ≡ b
          → IsBest size h.available.nodes b
          → (All (λ c. c.rsize < size) h.available.nodes × (malloc size h ≡ some (0, h)))
            ⊎ Served start end size h (malloc size h)
      by_search none e small = inl (small, rw (e, bestfit))
      by_search (some b) e (hb, fit, least) =
          let (n, g, run, same, d) = take_block-Hands v size b hb fit in
          inr (record {
            block = n;
            heap = record g { total = (g.total + size) % word };
            result = rw (e, bestfit, run);
            room = d.room;
            user = d.user;
            valid = handed-IsValid n g d;
            coalesced = d.coalesced;
            linked = d.allocated;
            total = omega (arith, d.total);
            gained = handed n g d;
          })

module _ {start end size : ℕ} {h : Heap} {out : Option (ℕ × Heap)}
    (s : Served start end size h out) where
  -- The block is among the allocated ones, with those that were.
  pub Served-Holds : Holds s.block s.heap.allocated.nodes
  unfolding link
  Served-Holds = rw s.linked (Holds-insert s.block h.allocated.nodes)

  pub Served-Holds_old : (t : Node) → Holds t h.allocated.nodes → Holds t s.heap.allocated.nodes
  unfolding link
  Served-Holds_old t ht = rw s.linked (Holds-insert_old s.block t h.allocated.nodes ht)

  -- It lies inside the pool, and its room does too.
  pub Served_inside : (start ≤ s.block.addr) × (s.block.addr + overhead + s.block.rsize ≤ end)
  Served_inside =
      let n = s.block in
      let al = s.heap.allocated.nodes in
      let last = n.addr + overhead + n.rsize - 1 in
      (
        ground (arith, s.valid.tiles n.addr, covers-le-sum n.addr n al Served-Holds),
        ground (arith, s.valid.tiles last, covers-le-sum last n al Served-Holds),
      )
