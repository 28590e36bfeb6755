-- ===== src/Smalloc/Free.antt =====
-- `free` of libs/src/libc/smalloc.c on a valid heap, and `malloc` followed by `free`.
use cibyl.Base.{
  ℕ, ◌+◌, ◌-◌, ◌%◌, ◌≤◌, ◌<◌, ◌≡◌, refl, ap, ◌∙◌, ◌≢◌, ◌⊎◌, inl, inr, false, Option, none, some,
  List, [], ◌∷◌, ◌>>=◌, ltb, ◌==◌, if◌then◌else◌, Bool-cases, All, sum_of, arith,
}
use cibyl.Smalloc.{
  Node, Chain, Heap, overhead, max_int, word, payload, find, link, release, free, malloc,
  set_memory_pool,
}
use cibyl.Smalloc.Nodes.{
  Desc, Holds, Vacant, without, without-insert, All-Holds, All-without, Desc-Holds, Desc-length,
  Holds-without, sum-without,
}
use cibyl.Smalloc.Edits.{Holds-insert}
use cibyl.Smalloc.Insert.{
  Fits, IsChain, removed, delete-eq, removed-IsChain, insert_available-Gains,
}
use cibyl.Smalloc.Tiling.{covers, IsValid, covers-Additive, Vacant-of_uncovered, covers-le-sum}
use cibyl.Smalloc.Touching.{IsCoalesced}
use cibyl.Smalloc.Coalesce.{insert_available-IsCoalesced}
use cibyl.Smalloc.Alloc.{malloc_lem}

pub find-Holds :
    (t : Node) (b : ℕ) (cs : List Node) → Desc b cs → Holds t cs → find (payload t) cs ≡ some t
unfolding find
find-Holds t b [] d h = absurd h
find-Holds t b (c ∷ cs) d (inl e) = ground (arith, ap Node.addr e)
find-Holds t b (c ∷ cs) d (inr h) =
    ground (arith, Desc-Holds t c.addr cs d.1 h, find-Holds t c.addr cs d.1 h)

pub find-some :
    (ptr : ℕ) (t : Node) (cs : List Node) → find ptr cs ≡ some t → Holds t cs × (payload t ≡ ptr)
unfolding find
find-some ptr t [] e = cc
find-some ptr t (c ∷ cs) e = elim (Bool-cases (ltb ptr (payload c))) [
  | inl on ↦ let ih = find-some ptr t cs (rw on at e) in (inr ih.0, ih.1)
  | inr stop ↦
      let e' : (if payload c == ptr then some c else none) ≡ some t = rw stop at e in
      elim (Bool-cases (payload c == ptr)) [
        | inl here ↦ let g : c ≡ t = cc (rw here at e') in (inl g, ground (arith, ap Node.addr g))
        | inr miss ↦ cc (rw miss at e')
      ]
]

find-none : (ptr : ℕ) (cs : List Node) → All (λ c. payload c ≢ ptr) cs → find ptr cs ≡ none
unfolding find
find-none ptr [] h = refl
find-none ptr (c ∷ cs) h = ground (arith, find-none ptr cs h.1, h.0)

-- `free(NULL)`, and `free` of what is no payload of an allocated block, change nothing.
pub free_unknown :
    (ptr : ℕ) (h : Heap)
    → (ptr ≡ 0) ⊎ All (λ c. payload c ≢ ptr) h.allocated.nodes
    → free ptr h ≡ some h
unfolding free
free_unknown ptr h (inl e) = rw e
free_unknown ptr h (inr u) = ground (arith, find-none ptr h.allocated.nodes u)

pub free_missing : (ptr : ℕ) (h : Heap) → find ptr h.allocated.nodes ≡ none → free ptr h ≡ some h
unfolding free
free_missing ptr h e = ground (arith, e)

-- What `free` makes of a valid heap that holds the allocated block `t`.
pub record Freed (start end : ℕ) (t : Node) (h : Heap) (out : Option Heap) : Type 0 where
  pub heap : Heap
  pub result : out ≡ some heap
  pub allocated : heap.allocated ≡ removed t h.allocated
  pub total : heap.total ≡ (h.total + word - t.usize) % word
  pub valid : IsValid start end heap
  pub coalesced : IsCoalesced h.available.nodes → IsCoalesced heap.available.nodes

module _ {start end : ℕ} {h : Heap} (v : IsValid start end h) (t : Node)
    (ht : Holds t h.allocated.nodes) where
  rest_sum :
      (f : Node → ℕ) → sum_of f h.allocated.nodes ≡ f t + sum_of f (without t h.allocated.nodes)
  rest_sum f = sum-without f t max_int h.allocated.nodes v.alloc.desc ht

  fits : Fits t
  fits = All-Holds Fits t h.allocated.nodes v.alloc.fits ht

  apart : Vacant t.addr h.available.nodes
  apart =
      Vacant-of_uncovered t.addr h.available.nodes
        (ground (arith, v.tiles t.addr, rest_sum (covers t.addr)))

  not_null : (payload t == 0) ≡ false
  not_null = ground arith

  -- `free` of an allocated block succeeds, takes exactly that block off the allocated ones, gives
  -- its bytes back to the free ones, and keeps the heap valid.
  pub free_lem : Freed start end t h (free (payload t) h)
  unfolding free
  free_lem =
      let small = All-Holds (λ c. c.usize ≤ c.rsize) t h.allocated.nodes v.room ht in
      let g = insert_available-Gains t h.available v.avail fits apart in
      record {
        heap = record {
          available = g.chain;
          allocated = removed t h.allocated;
          total = (h.total + word - t.usize) % word;
        };
        result = rw (
          not_null,
          find-Holds t max_int h.allocated.nodes v.alloc.desc ht,
          release,
          delete-eq t h.allocated v.alloc ht,
          g.result,
        );
        allocated = refl;
        total = refl;
        valid = record {
          avail = g.valid;
          alloc = removed-IsChain t h.allocated v.alloc ht;
          tiles = λ a.
              omega (arith, v.tiles a, g.sums (covers a) (covers-Additive a), rest_sum (covers a));
          room = All-without (λ c. c.usize ≤ c.rsize) t h.allocated.nodes v.room;
          account = omega (arith, v.account, rest_sum Node.usize, fits);
        };
        coalesced = λ k.
            insert_available-IsCoalesced t h.available v.avail fits k
              (λ a. ground (arith, v.tiles a))
              (λ a lo hi. ground (arith, v.tiles a, rest_sum (covers a))) g.chain g.result;
      }

removed-link : (n : Node) (l : Chain) → IsChain l → removed n (link n l) ≡ l
unfolding link
removed-link n l v =
    ground (arith, v.counted, Desc-length max_int l.nodes v.desc, without-insert n l.nodes)

-- `malloc` of any size on a valid heap and then `free` of what it returned, a block or NULL:
-- neither faults, the allocated blocks, their number and their total are again what they were, and
-- the heap is valid.
pub free-malloc :
    {start end : ℕ} {h : Heap} (size : ℕ)
    → IsValid start end h
    → (g : Heap) × ((malloc size h >>= λ (p, k). free p k) ≡ some g)
      × (g.allocated ≡ h.allocated)
      × (g.total ≡ h.total)
      × IsValid start end g
unfolding link
free-malloc {h} size v = elim (malloc_lem v size) [
  | inl (_, e) ↦ (h, rw e (free_unknown 0 h (inl refl)), refl, refl, v)
  | inr s ↦
      let n = s.block in
      let held : Holds n s.heap.allocated.nodes = rw s.linked (Holds-insert n h.allocated.nodes) in
      let f = free_lem s.valid n held in
      (
        f.heap,
        rw s.result f.result,
        f.allocated ∙ ap (removed n) s.linked ∙ removed-link n h.allocated v.alloc,
        omega (arith, f.total, s.total, s.user, s.room, v.account, fits s.valid n held),
        f.valid,
      )
]

-- Two live blocks do not overlap, their headers included.
pub allocated_disjoint :
    {start end : ℕ} {h : Heap} (m n : Node)
    → IsValid start end h
    → Holds m h.allocated.nodes
    → Holds n h.allocated.nodes
    → m.addr < n.addr
    → m.addr + overhead + m.rsize ≤ n.addr
allocated_disjoint {h} m n v hm hn lt =
    let al = h.allocated.nodes in
    let hm' = Holds-without m n max_int al v.alloc.desc hn hm (omega arith) in
    ground (
      arith,
      v.tiles n.addr,
      sum-without (covers n.addr) n max_int al v.alloc.desc hn,
      covers-le-sum n.addr m (without n al) hm',
    )

-- The pool that `smalloc_set_memory_pool` sets up is valid.
pub set_memory_pool-IsValid :
    (start end : ℕ)
    → start + overhead ≤ end
    → end ≤ max_int
    → IsValid start end (set_memory_pool start end)
unfolding set_memory_pool
set_memory_pool-IsValid start end room small = record {
  avail = record { desc = (omega arith, tt); fits = (omega arith, tt); counted = refl };
  alloc = record { desc = tt; fits = tt; counted = refl };
  tiles = λ a. ground arith;
  room = tt;
  account = refl;
}
