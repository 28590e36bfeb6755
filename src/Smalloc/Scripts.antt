-- ===== src/Smalloc/Scripts.antt =====
-- Any sequence of calls of `malloc` and `free` in libs/src/libc/smalloc.c.
use cibyl.Base.{
  ℕ, ◌≡◌, refl, ◌∙◌, subst, inl, inr, Option, none, some, List, [], ◌∷◌, ◌>>=◌, Option-cases,
}
use cibyl.Smalloc.{Heap, find, malloc, free}
use cibyl.Smalloc.Tiling.{IsValid}
use cibyl.Smalloc.Touching.{IsCoalesced}
use cibyl.Smalloc.Alloc.{malloc_lem}
use cibyl.Smalloc.Free.{find-some, free_lem, free_missing}

-- A call by the program, with any argument: a pointer need not come from `malloc`.
pub data Call : Type 0 where
  allocate : ℕ → Call
  give_back : ℕ → Call

-- The heap after the calls; `none` is a fault.
unfoldable pub run : List Call → Heap → Option Heap
run [] h = some h
run (allocate size ∷ cs) h = malloc size h >>= λ (p, g). run cs g
run (give_back ptr ∷ cs) h = free ptr h >>= run cs

-- A call ends in a valid heap; if no two free blocks touched before, none do in it.
record Kept (start end : ℕ) (h : Heap) (out : Option Heap) : Type 0 where
  heap : Heap
  result : out ≡ some heap
  valid : IsValid start end heap
  coalesced : IsCoalesced h.available.nodes → IsCoalesced heap.available.nodes

-- `free` of any pointer keeps a valid heap valid.
free-Kept :
    {start end : ℕ} {h : Heap} (ptr : ℕ) → IsValid start end h → Kept start end h (free ptr h)
free-Kept {h} ptr v = elim (Option-cases (find ptr h.allocated.nodes)) [
  | inl none_found ↦ record {
    heap = h;
    result = free_missing ptr h none_found;
    valid = v;
    coalesced = λ k. k;
  }
  | inr (t, e) ↦
      let (held, at) = find-some ptr t h.allocated.nodes e in
      let f = free_lem v t held in
      record { heap = f.heap; result = rw at at f.result; valid = f.valid; coalesced = f.coalesced }
]

malloc-Kept :
    {start end : ℕ} {h : Heap} (size : ℕ)
    → IsValid start end h
    → Kept start end h (malloc size h >>= λ (p, g). some g)
malloc-Kept {h} size v = elim (malloc_lem v size) [
  | inl (small, e) ↦ record { heap = h; result = rw e refl; valid = v; coalesced = λ k. k }
  | inr s ↦ record {
    heap = s.heap;
    result = rw s.result refl;
    valid = s.valid;
    coalesced = s.coalesced;
  }
]

only_heap :
    (o : Option (ℕ × Heap)) (f : Heap → Option Heap)
    → (o >>= λ (p, g). f g) ≡ ((o >>= λ (p, g). some g) >>= f)
only_heap none f = refl
only_heap (some r) f = refl

run-Kept :
    {start end : ℕ} (cs : List Call) (h : Heap) → IsValid start end h → Kept start end h (run cs h)
unfolding run
run-Kept [] h v = record { heap = h; result = refl; valid = v; coalesced = λ k. k }
run-Kept (allocate size ∷ cs) h v =
    let s = malloc-Kept size v in
    let r = run-Kept cs s.heap s.valid in
    record {
      heap = r.heap;
      result = only_heap (malloc size h) (run cs) ∙ rw (s.result, r.result);
      valid = r.valid;
      coalesced = λ k. r.coalesced (s.coalesced k);
    }
run-Kept (give_back ptr ∷ cs) h v =
    let s = free-Kept ptr v in
    let r = run-Kept cs s.heap s.valid in
    record {
      heap = r.heap;
      result = rw (s.result, r.result);
      valid = r.valid;
      coalesced = λ k. r.coalesced (s.coalesced k);
    }

-- From a valid heap no sequence of calls, of whatever sizes and pointers, dereferences NULL, and
-- the heap stays valid.
pub run-IsValid :
    {start end : ℕ} (cs : List Call) (h : Heap)
    → IsValid start end h
    → (g : Heap) × (run cs h ≡ some g) × IsValid start end g
run-IsValid cs h v = let r = run-Kept cs h v in (r.heap, r.result, r.valid)

-- If no two free blocks touch, no sequence of calls leaves two that do.
pub run-IsCoalesced :
    {start end : ℕ} (cs : List Call) (h g : Heap)
    → IsValid start end h
    → IsCoalesced h.available.nodes
    → run cs h ≡ some g
    → IsCoalesced g.available.nodes
run-IsCoalesced cs h g v k e =
    let r = run-Kept cs h v in
    let same : r.heap ≡ g = cc (r.result, e) in
    subst (λ (c : Heap). IsCoalesced c.available.nodes) same (r.coalesced k)
