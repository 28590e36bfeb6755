-- ===== src/Payload/Tests.antt =====
-- `realloc` and `strdup` on a pool with one allocated block, and the theorems at it.
use cibyl.Base.{
  ◌≤◌, ◌<◌, ◌≡◌, refl, ◌⊎◌, inl, some, [], ◌∷◌, All, arith, ltb, get_or, if◌then◌else◌, ◌-◌,
}
use cibyl.Smalloc.{Node}
use cibyl.Smalloc.Tiling.{IsValid}
use cibyl.Payload.{Process, realloc}
use cibyl.Payload.Moves.{Moved, realloc_lem}

abbrev used : Node
used = record { addr = 1000; rsize = 12; usize = 10 }

abbrev spare : Node
spare = record { addr = 1024; rsize = 1964; usize = 0 }

abbrev start_process : Process
start_process = record {
  memory = λ a. if ltb a 100 then 0 else get_or (72 ∷ 105 ∷ []) (a - 100) 0;
  heap = record {
    available = record { nodes = spare ∷ []; len = 1 };
    allocated = record { nodes = used ∷ []; len = 1 };
    total = 10;
  };
}

start-IsValid : IsValid 1000 3000 start_process.heap
start-IsValid = record {
  avail = record { desc = omega arith; fits = omega arith; counted = refl };
  alloc = record { desc = omega arith; fits = omega arith; counted = refl };
  tiles = λ a. ground arith;
  room = omega arith;
  account = refl;
}

realloc_lem_example :
    (All (λ c. c.rsize < 40) start_process.heap.available.nodes
      × (realloc 1012 40 start_process ≡ some (0, start_process)))
    ⊎ ((n : Node) × (40 ≤ n.rsize)
        × Moved 1000 3000 used n 40 start_process (realloc 1012 40 start_process))
realloc_lem_example = realloc_lem start_process used 40 start-IsValid (inl refl)
