-- ===== src/Smalloc/Tests.antt =====
-- Runs of libs/src/libc/smalloc.c on a pool of 2000 bytes, and its theorems at them.
use cibyl.Base.{ℕ, ◌<◌, ◌≡◌, refl, inl, inr, Option, some, List, [], ◌∷◌, ◌>>=◌, ◌⊎◌, All, arith}
use cibyl.Smalloc.{Node, Heap, malloc, free, set_memory_pool}
use cibyl.Smalloc.Tiling.{IsValid}
use cibyl.Smalloc.Alloc.{Served, malloc_lem}
use cibyl.Smalloc.Recovery.{malloc-free, run-recovers, one-IsCoalesced}
use cibyl.Smalloc.Free.{Freed, free_lem, free-malloc, set_memory_pool-IsValid}
use cibyl.Smalloc.Scripts.{Call, allocate, give_back, run, run-IsValid}

abbrev pool : Heap
unfolding set_memory_pool
pool = set_memory_pool 1000 3000

pool-IsValid : IsValid 1000 3000 (set_memory_pool 1000 3000)
pool-IsValid = set_memory_pool-IsValid 1000 3000 (omega arith) (omega arith)

-- Two requests, freed in the other order: the pool is one block again.
script : Option (ℕ × ℕ × Heap)
unfolding malloc free set_memory_pool
script = do
  (p, h) ← malloc 10 (set_memory_pool 1000 3000)
  (q, h) ← malloc 100 h
  h ← free p h
  h ← free q h
  some (p, q, h)

abbrev one_block : List Node
one_block = record { addr = 1000; rsize = 1988; usize = 10 } ∷ []

script_result :
    script
    ≡ some (
      1012,
      1036,
      record {
        available = record { nodes = one_block; len = 1 };
        allocated = record { nodes = []; len = 0 };
        total = 0;
      },
    )
unfolding script
script_result = refl

malloc_lem_example :
    (All (λ c. c.rsize < 100) (set_memory_pool 1000 3000).available.nodes
      × (malloc 100 (set_memory_pool 1000 3000) ≡ some (0, set_memory_pool 1000 3000)))
    ⊎ Served 1000 3000 100 (set_memory_pool 1000 3000) (malloc 100 (set_memory_pool 1000 3000))
malloc_lem_example = malloc_lem pool-IsValid 100

-- Two allocated blocks below a free one.
abbrev low : Node
low = record { addr = 1000; rsize = 12; usize = 10 }

abbrev high : Node
high = record { addr = 1024; rsize = 100; usize = 100 }

abbrev spare : Node
spare = record { addr = 1136; rsize = 1852; usize = 0 }

abbrev busy : Heap
busy = record {
  available = record { nodes = spare ∷ []; len = 1 };
  allocated = record { nodes = high ∷ low ∷ []; len = 2 };
  total = 110;
}

busy-IsValid : IsValid 1000 3000 busy
busy-IsValid = record {
  avail = record { desc = omega arith; fits = omega arith; counted = refl };
  alloc = record { desc = omega arith; fits = omega arith; counted = refl };
  tiles = λ a. ground arith;
  room = omega arith;
  account = refl;
}

free_lem_example : Freed 1000 3000 low busy (free 1012 busy)
free_lem_example = free_lem busy-IsValid low (inr (inl refl))

malloc-free_example : (g : Heap) × (free 1012 busy ≡ some g) × Served 1000 3000 12 g (malloc 12 g)
malloc-free_example =
    malloc-free low 12 busy-IsValid (one-IsCoalesced spare) (inr (inl refl)) (omega arith)

run-IsValid_example :
    (g : Heap) × (run (allocate 30 ∷ give_back 1036 ∷ give_back 1036 ∷ give_back 77 ∷ []) busy
      ≡ some g)
    × IsValid 1000 3000 g
run-IsValid_example =
    run-IsValid (allocate 30 ∷ give_back 1036 ∷ give_back 1036 ∷ give_back 77 ∷ []) busy
      busy-IsValid

free-malloc_example :
    (g : Heap) × ((malloc 1800 busy >>= λ (p, k). free p k) ≡ some g)
    × (g.allocated ≡ busy.allocated)
    × (g.total ≡ 110)
    × IsValid 1000 3000 g
free-malloc_example = free-malloc 1800 busy-IsValid

-- The first block is large enough, the second is the smaller one.
abbrev two_blocks : List Node
two_blocks =
    record { addr = 1500; rsize = 300; usize = 0 }
    ∷ record { addr = 1000; rsize = 200; usize = 0 }
    ∷ []

-- The calls of `script`, with a pointer that was freed before.
abbrev calls : List Call
calls = allocate 10 ∷ allocate 100 ∷ give_back 1012 ∷ give_back 1012 ∷ give_back 1036 ∷ []

abbrev recovered : Heap
recovered = record {
  available = record { nodes = one_block; len = 1 };
  allocated = record { nodes = []; len = 0 };
  total = 0;
}

calls_result : run calls (set_memory_pool 1000 3000) ≡ some recovered
unfolding run malloc free set_memory_pool
calls_result = refl

run-recovers_example :
    (usize : ℕ) × (recovered.available.nodes
      ≡ record { addr = 1000; rsize = 1988; usize = usize } ∷ [])
    × (recovered.total ≡ 0)
run-recovers_example =
    run-recovers 1000 3000 calls recovered (omega arith) (omega arith) calls_result refl
