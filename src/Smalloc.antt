-- ===== src/Smalloc.antt =====
-- libs/src/libc/smalloc.c: malloc and free over one block of memory.
--
-- A list that is linked through `x.next` is the `List` of its nodes from its head on; a node
-- carries its address, so a walk that compares addresses is a walk along that `List`. Addresses are
-- those of the 32-bit target, where a `node` takes 12 bytes and an `align_t` 4, and where `size_t`
-- wraps at 2^32. `none` is the dereference of NULL. The bytes of a block's payload are no part of
-- this state.
pub mod Nodes
pub mod Edits
pub mod Insert
pub mod Members
pub mod Touching
pub mod Coalesce
pub mod Fit
pub mod Tiling
pub mod Carve
pub mod Alloc
pub mod Free
pub mod Scripts
pub mod Recovery
mod Tests
use mathlib.Core.Option
use cibyl.Base.{
  ℕ, ◌+◌, ◌-◌, ◌*◌, ◌/◌, ◌%◌, ◌^◌, Bool, ◌&&◌, ◌||◌, Option, none, some, List, [], ◌∷◌, ◌++◌, ltb,
  leb, ◌==◌, if◌then◌else◌, ◌>>=◌,
}

-- `node`
pub record Node : Type 0 where
  pub addr : ℕ
  pub rsize : ℕ
  pub usize : ℕ

abbrev pub overhead : ℕ
overhead = 12

abbrev pub min_node : ℕ
min_node = 64 * 4

abbrev pub max_int : ℕ
max_int = 2 ^ 31 - 1

abbrev pub word : ℕ
word = 2 ^ 32

-- `ALIGN`
abbrev pub align : ℕ → ℕ
align size = (size + 3) % word / 4 * 4

-- `ADDR`
abbrev pub payload : Node → ℕ
payload n = n.addr + overhead

-- `ADJACENT`
abbrev pub adjacent : Node → Node → Bool
adjacent a b = (a.addr + overhead + a.rsize) % word == b.addr

-- `a->x.rsize += OVERHEAD + b->x.rsize`
abbrev pub absorb : Node → Node → Node
absorb a b = record a { rsize = (a.rsize + (overhead + b.rsize)) % word }

-- One of the two lists, with its counter.
pub record Chain : Type 0 where
  pub nodes : List Node
  pub len : ℕ

-- The static variables of the file.
pub record Heap : Type 0 where
  pub available : Chain
  pub allocated : Chain
  pub total : ℕ

-- The walk that `delete` and `insert` begin with: the nodes that it passes, and those from `c` on.
pub above : Node → List Node → List Node
above n [] = []
above n (c ∷ cs) = if ltb (payload n) (payload c) then c ∷ above n cs else []

pub from : Node → List Node → List Node
from n [] = []
from n (c ∷ cs) = if ltb (payload n) (payload c) then from n cs else c ∷ cs

-- The node `p` behind which the walk stopped, if it took a step (`c == p` if not).
pub last? : List Node → Option Node
last? [] = none
last? (c ∷ []) = some c
last? (c ∷ d ∷ cs) = last? (d ∷ cs)

-- A write to the fields of a node that is linked in the list.
pub put : Node → List Node → List Node
put n [] = []
put n (c ∷ cs) = if c.addr == n.addr then n ∷ cs else c ∷ put n cs

-- `delete`
pub unlink : Node → List Node → Option (List Node)
unfolding above from
unlink n cs = elim (from n cs) [ [] ↦ none | c ∷ rest ↦ some (above n cs ++ rest) ]

pub delete : Node → Chain → Option Chain
unfolding unlink
delete n l =
    Option.map (λ cs. record { nodes = cs; len = (l.len + word - 1) % word }) (unlink n l.nodes)

-- `insert(ALLOCATED, n)`, and what `insert(AVAILABLE, n)` does before it looks upwards.
pub link : Node → Chain → Chain
unfolding above from
link n l = record { nodes = above n l.nodes ++ (n ∷ from n l.nodes); len = (l.len + 1) % word }

-- `if (ADJACENT(n,p)) { delete(AVAILABLE, p); n->x.rsize += OVERHEAD + p->x.rsize; }`
pub merge_above : Node → Node → Chain → Option Chain
unfolding put delete
merge_above n p l =
    if adjacent n p
    then (do m ← delete p l; some (record m { nodes = put (absorb n p) m.nodes }))
    else some l

pub insert_apart : Node → Chain → Option Chain
unfolding link last? merge_above
insert_apart n l = elim (last? (above n l.nodes)) [
  | none ↦ some (link n l)
  | some p ↦ merge_above n p (link n l)
]

pub insert_into : Node → Node → Chain → Option Chain
unfolding put last? merge_above
insert_into c n l =
    merge_above (absorb c n) (Option.get_or (last? (above n l.nodes)) (absorb c n))
      (record l { nodes = put (absorb c n) l.nodes })

-- `insert(AVAILABLE, n)`
pub insert_available : Node → Chain → Option Chain
unfolding insert_apart insert_into
insert_available n l = elim (from n l.nodes) [
  | [] ↦ insert_apart n l
  | c ∷ rest ↦ if adjacent c n then insert_into c n l else insert_apart n l
]

-- `find`
pub find : ℕ → List Node → Option Node
find ptr [] = none
find ptr (c ∷ cs) =
    let rest = find ptr cs in
    if ltb ptr (payload c) then rest else if payload c == ptr then some c else none

-- The test of `bestfit`'s loop: `first` is the address in `available`, `best` the least rest so
-- far.
pub is_better : ℕ → ℕ → ℕ → Node → Bool
is_better size first best c = leb size c.rsize && (ltb (c.rsize - size) best || c.addr == first)

-- The loop of `bestfit` over the list from `c` on.
pub best_loop : ℕ → ℕ → List Node → ℕ → Option Node → Option Node
unfolding is_better
best_loop size first [] best b = b
best_loop size first (c ∷ cs) best b =
    best_loop size first cs (if is_better size first best c then c.rsize - size else best)
      (if is_better size first best c then some c else b)

pub best : ℕ → List Node → Option Node
unfolding best_loop
best size [] = none
best size (c ∷ cs) = best_loop size c.addr (c ∷ cs) max_int none

-- What `bestfit` does with the block that it chose: cut it if enough is left, and hand it out.
-- The word `x.usize` of the rest is what lies in memory, and is not read.
pub remainder : ℕ → Node → Node
remainder aligned b = record {
  addr = payload b + aligned;
  rsize = b.rsize - aligned - overhead;
  usize = 0;
}

pub carve : ℕ → Node → Chain → Option (Node × Chain)
unfolding remainder insert_available
carve aligned b l =
    if leb ((aligned + overhead + min_node) % word) b.rsize
    then Option.map (λ m. (record b { rsize = aligned }, m))
        (insert_available (remainder aligned b) l)
    else some (b, l)

pub take_block : ℕ → Node → Heap → Option (Node × Heap)
unfolding delete carve link
take_block size b h = do
  l ← delete b h.available
  (c, m) ← carve (align size) b l
  let n = record c { usize = size }
  some (n, record h { available = m; allocated = link n h.allocated })

-- `bestfit`: the node that it hands out, or NULL.
pub bestfit : ℕ → Heap → Option (Option Node × Heap)
unfolding best take_block
bestfit size h = elim (best size h.available.nodes) [
  | none ↦ some (none, h)
  | some b ↦ Option.map (λ (n, g). (some n, g)) (take_block size b h)
]

-- `malloc`, `_malloc`; NULL is 0.
pub malloc : ℕ → Heap → Option (ℕ × Heap)
unfolding bestfit
malloc size h = do
  (store, g) ← bestfit size h
  elim store [
    | none ↦ some (0, g)
    | some n ↦ some (payload n, record g { total = (g.total + size) % word })
  ]

-- `free`, `_free`
pub release : Node → Heap → Option Heap
unfolding delete insert_available
release t h = do
  l ← delete t h.allocated
  m ← insert_available t h.available
  some (record { available = m; allocated = l; total = (h.total + word - t.usize) % word })

pub free : ℕ → Heap → Option Heap
unfolding find release
free ptr h =
    if ptr == 0
    then some h
    else elim (find ptr h.allocated.nodes) [ none ↦ some h | some t ↦ release t h ]

-- `smalloc_set_memory_pool`
pub set_memory_pool : ℕ → ℕ → Heap
set_memory_pool start end = record {
  available = record {
    nodes = record { addr = start; rsize = end - start - overhead; usize = 0 } ∷ [];
    len = 1;
  };
  allocated = record { nodes = []; len = 0 };
  total = 0;
}
