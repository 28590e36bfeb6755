-- ===== src/Payload/Moves.antt =====
-- What `realloc` of libs/src/libc/smalloc.c and `strdup` of libs/src/libc/string.c promise.
use cibyl.Base.{
  ℕ, ◌+◌, ◌%◌, ◌≤◌, ◌<◌, ◌≡◌, ap, ◌∙◌, ◌⊎◌, inl, inr, false, Option, some, List, length, ◌==◌,
  arith, min, All,
}
use cibyl.Memory.{Memory, StrAt, in_range}
use cibyl.Smalloc.{Node, Heap, overhead, word, payload, link, malloc}
use cibyl.Smalloc.Nodes.{Holds}
use cibyl.Smalloc.Insert.{removed}
use cibyl.Smalloc.Tiling.{IsValid, covers, covers-le-sum}
use cibyl.Smalloc.Alloc.{Served, malloc_lem, Served-Holds, Served-Holds_old, Served_inside}
use cibyl.Smalloc.Free.{free_lem}
use cibyl.Strings.{copy_bytes, strlen, strcpy}
use cibyl.Strings.Copy.{memcpy-copy_bytes, copy_bytes-Copied, copy_bytes-front, copy_bytes-outside}
use cibyl.Strings.Scan.{Duplicated, strlen_lem, strcpy_lem}
use cibyl.Payload.{Process, realloc, strdup}

-- A block that `malloc` serves and one that was allocated before do not overlap.
kept_apart :
    {start end size : ℕ} {h : Heap} {out : Option (ℕ × Heap)} (t : Node)
    → (s : Served start end size h out) → Holds t h.allocated.nodes
    → (s.block.addr + overhead + s.block.rsize ≤ t.addr)
      ⊎ (t.addr + overhead + t.rsize ≤ s.block.addr)
kept_apart {h} t s ht =
    let n = s.block in
    ground (
      arith,
      s.valid.tiles n.addr,
      s.valid.tiles t.addr,
      s.gained (covers n.addr),
      s.gained (covers t.addr),
      covers-le-sum n.addr t h.allocated.nodes ht,
      covers-le-sum t.addr t h.allocated.nodes ht,
    )

-- The bytes of the payload of the block.
abbrev InPayload : Node → ℕ → Type 0
InPayload n a = (payload n ≤ a) × (a < payload n + n.rsize)

-- `realloc` of an allocated block: where `malloc` has a block for the new size, its contents begin
-- with those of the old block, as many bytes as both have; the old block is given back, the heap is
-- valid, and no byte outside the new block changes.
pub record Moved (start end : ℕ) (t n : Node) (size : ℕ) (st : Process) (out : Option (ℕ × Process))
    : Type 0 where
  pub process : Process
  pub result : out ≡ some (payload n, process)
  pub kept :
      (i : ℕ) → i < size → i < t.rsize → process.memory (payload n + i) ≡ st.memory (payload t + i)
  pub outside : (a : ℕ) → in_range (payload n) size a ≡ false → process.memory a ≡ st.memory a
  -- The new block is among the allocated ones, and the old one is not.
  pub allocated : process.heap.allocated ≡ removed t (link n st.heap.allocated)
  pub valid : IsValid start end process.heap

module _ {start end size : ℕ} (st : Process) (t : Node) (v : IsValid start end st.heap)
    (ht : Holds t st.heap.allocated.nodes)
    (s : Served start end size st.heap (malloc size st.heap)) where
  contents :
      (i : ℕ)
      → i < size
      → i < t.rsize
      → copy_bytes st.memory (payload s.block) (payload t) size (payload s.block + i)
        ≡ st.memory (payload t + i)
  contents i lt lt' = elim (kept_apart t s ht) [
    | inl below ↦
        (copy_bytes-Copied st.memory (payload s.block) (payload t) size (inl (omega arith))).inside
          i lt
    | inr over ↦
        copy_bytes-front st.memory (payload s.block) (payload t) size (min size t.rsize)
          (omega arith) (omega arith) i (omega arith)
  ]

  realloc-Moved : Moved start end t s.block size st (realloc (payload t) size st)
  unfolding realloc
  realloc-Moved =
      let f = free_lem s.valid t (Served-Holds_old s t ht) in
      let there : (payload s.block == 0) ≡ false = ground arith in
      let old : (payload t == 0) ≡ false = ground arith in
      record {
        process = record {
          memory = copy_bytes st.memory (payload s.block) (payload t) size;
          heap = f.heap;
        };
        result = rw (
          s.result,
          there,
          old,
          memcpy-copy_bytes st.memory (payload s.block) (payload t) size,
          f.result,
        );
        kept = contents;
        outside = copy_bytes-outside st.memory (payload s.block) (payload t) size;
        allocated = f.allocated ∙ ap (removed t) s.linked;
        valid = f.valid;
      }

-- `realloc` of an allocated block returns NULL and changes nothing if no free block has the size.
-- It otherwise moves the block: as many bytes as the old and the new size both have are kept, no
-- byte outside the new block's `size` bytes changes, and the heap is valid, with the new block
-- among the allocated ones in place of the old one.
pub realloc_lem :
    {start end : ℕ} (st : Process) (t : Node) (size : ℕ)
    → IsValid start end st.heap
    → Holds t st.heap.allocated.nodes
    → (All (λ c. c.rsize < size) st.heap.available.nodes
        × (realloc (payload t) size st ≡ some (0, st)))
      ⊎ ((n : Node) × (size ≤ n.rsize) × Moved start end t n size st (realloc (payload t) size st))
unfolding realloc
realloc_lem st t size v ht = elim (malloc_lem v size) [
  | inl (small, e) ↦ inl (small, rw e)
  | inr s ↦ inr (s.block, s.room, realloc-Moved st t v ht s)
]

-- Once the block is served and the string copied, `strdup` returns the block.
strdup_run :
    (k s n : ℕ) (st : Process) (b : Node) (h : Heap) (out : Memory)
    → strlen k st.memory s ≡ some n
    → n + 1 < word
    → malloc (n + 1) st.heap ≡ some (payload b, h)
    → strcpy k st.memory (payload b) s ≡ some out
    → strdup k s st ≡ some (payload b, record { memory = out; heap = h })
unfolding strdup
strdup_run k s n st b h out len small served copied =
    let size : (n + 1) % word ≡ n + 1 = omega arith in
    let there : (payload b == 0) ≡ false = ground arith in rw (len, size, served, there, copied)

-- `strdup` of a string that lies outside the pool returns NULL and changes nothing if no free block
-- has room for the string and its NUL. It otherwise returns a new block that holds the string, in a
-- valid heap, and changes no byte elsewhere. The fuel is enough.
pub strdup_lem :
    {start end : ℕ} (k s : ℕ) (st : Process) (cs : List ℕ)
    → IsValid start end st.heap
    → StrAt st.memory s cs
    → length cs < k
    → length cs + 1 < word
    → (s + length cs < start) ⊎ (end ≤ s)
    → (All (λ c. c.rsize < length cs + 1) st.heap.available.nodes × (strdup k s st ≡ some (0, st)))
      ⊎ ((n : Node) × (p : Process) × (strdup k s st ≡ some (payload n, p))
          × (length cs < n.rsize)
          × Duplicated st.memory (payload n) cs p.memory
          × Holds n p.heap.allocated.nodes
          × IsValid start end p.heap)
unfolding strdup
strdup_lem k s st cs v str fuel small apart =
    let size : (length cs + 1) % word ≡ length cs + 1 = omega arith in
    elim (malloc_lem v (length cs + 1)) [
      | inl (full, e) ↦ inl (full, rw (strlen_lem k st.memory s cs str fuel, size, e))
      | inr r ↦
          let (lo, hi) = Served_inside r in
          let room = r.room in
          let (out, run, dup) =
            strcpy_lem k st.memory (payload r.block) s cs str fuel (omega arith) in
          inr (
            r.block,
            record { memory = out; heap = r.heap },
            strdup_run k s (length cs) st r.block r.heap out (strlen_lem k st.memory s cs str fuel)
                small r.result run,
            omega arith,
            dup,
            Served-Holds r,
            r.valid,
          )
    ]
