-- ===== src/Translator/Usage/Methods.antt =====
-- The register allocator and the instructions of a method together.
use cibyl.Base.{
  ℕ, ◌+◌, ◌<◌, ◌≡◌, ◌≢◌, refl, subst, sym, ap, ◌∙◌, Bool, Option, none, some, List, [], ◌∷◌, All,
  ◌==◌, Option-cases, inl, inr, Bool-cases, arith,
}
use cibyl.Translator.Mips.{r_zero, r_mem, n_regs}
use cibyl.Translator.Registers.{RegisterAllocator, new_allocator, set_allocation, at}
use cibyl.Translator.Registers.Allocate.{IsAllocated, set_allocation-IsAllocated}
use cibyl.Translator.Jvm.{Value, int, ref, Machine, two32}
use cibyl.Translator.Run.{Holds}
use cibyl.Translator.Writes.{Runs}
use cibyl.Translator.Instructions.{Arithmetic, pass2, max_stack_height}
use cibyl.Translator.Instructions.Semantics.{destination, result}
use cibyl.Translator.Instructions.Stack.{Writable, stacked}
use cibyl.Translator.Instructions.Results.{IsProper, pass2-result}
use cibyl.Translator.Usage.{Placed, fill_sources, register_usage}
use cibyl.Translator.Usage.Counted.{
  Stands, IsCounted, fill_destinations-counts, destinations-counted, sources-counted,
}
use cibyl.Translator.Usage.Sources.{sources, result-sources, IsAdded, fill_sources-counts}

-- The local variables that a method's registers were given hold them; the memory's holds the array.
pub record Started (regalloc : RegisterAllocator) (regs : ℕ → ℕ) (locals : ℕ → Value) : Type 0 where
  pub zero_is : regs r_zero ≡ 0
  pub in_local : (r l : ℕ) → r ≢ r_mem → regalloc.mips_to_local r ≡ some l → locals l ≡ int (regs r)
  pub memory_in : (l : ℕ) → regalloc.mips_to_local r_mem ≡ some l → locals l ≡ ref
  pub word_size : (r : ℕ) → regs r < two32

-- The registers as far as they have local variables; the translated code reads 0 for the others.
abbrev pub held : RegisterAllocator → (ℕ → ℕ) → ℕ → ℕ
held regalloc regs r = elim (regalloc.mips_to_local r) [ none ↦ 0 | some l ↦ regs r ]

module _ (usage : ℕ → ℕ) (regalloc : RegisterAllocator) (regs : ℕ → ℕ) where
  held-none : (r : ℕ) → regalloc.mips_to_local r ≡ none → held regalloc regs r ≡ 0
  held-none r e = rw (held, e) refl

  held-some : (r l : ℕ) → regalloc.mips_to_local r ≡ some l → held regalloc regs r ≡ regs r
  held-some r l e = rw (held, e) refl

  Started-Holds :
      (locals : ℕ → Value)
      → IsAllocated usage regalloc
      → regalloc.mips_to_static ≡ (λ r. none)
      → Started regalloc regs locals
      → Holds regalloc (held regalloc regs) locals
  Started-Holds locals ok statics s = record {
    no_static = λ r. ap (λ (f : ℕ → Option ℕ). f r) statics;
    distinct = ok.distinct;
    zero_is = elim (Option-cases (regalloc.mips_to_local r_zero)) [
      | inl e ↦ held-none r_zero e
      | inr (l, e) ↦ held-some r_zero l e ∙ s.zero_is
    ];
    unused = held-none;
    in_local = λ r l n e. s.in_local r l n e ∙ ap int (sym (held-some r l e));
    memory_in = s.memory_in;
    word_size = λ r. elim (Option-cases (regalloc.mips_to_local r)) [
      | inl e ↦ subst (λ (n : ℕ). n < two32) (sym (held-none r e)) (omega arith)
      | inr (l, e) ↦ subst (λ (n : ℕ). n < two32) (sym (held-some r l e)) (s.word_size r)
    ];
  }

  -- A register that is counted is in a local variable.
  held-used :
      (r : ℕ)
      → IsAllocated usage regalloc
      → regs r_zero ≡ 0
      → r < n_regs
      → (r ≢ r_zero → 0 < usage r)
      → held regalloc regs r ≡ regs r
  held-used r ok zero_is small used = elim (Option-cases (regalloc.mips_to_local r)) [
    | inr (l, e) ↦ held-some r l e
    | inl e ↦ elim (Bool-cases (r == r_zero)) [
      | inl z ↦
          let same : r ≡ r_zero = ground arith in held-none r e ∙ sym zero_is ∙ ap regs (sym same)
      | inr z ↦
          let n : r ≢ r_zero = ground arith in
          let (l, has, below) = ok.has_local r small (used n) in absurd (clash l (sym e ∙ has))
    ]
  ]
    where
      clash : (l : ℕ) → none ≢ some l
      clash l c = cc

  All-held :
      (rs : List ℕ)
      → IsAllocated usage regalloc
      → regs r_zero ≡ 0
      → All (λ r. r < n_regs) rs
      → All (λ r. r ≢ r_zero → 0 < usage r) rs
      → All (λ r. held regalloc regs r ≡ regs r) rs
  All-held [] ok z small used = tt
  All-held (r ∷ rs) ok z small used =
      (held-used r ok z small.0 used.0, All-held rs ok z small.1 used.1)

sources-used :
    (multiple : Bool) (functions : List (List (List Placed))) (i : Arithmetic) (rs : List ℕ)
    → Stands functions i
    → All (IsAdded (fill_sources i)) rs
    → All (λ r. r ≢ r_zero → 0 < register_usage multiple functions r) rs
sources-used multiple functions i [] s c = tt
sources-used multiple functions i (r ∷ rs) s c = (
  λ n. sources-counted multiple functions i s r (c.0 n),
  sources-used multiple functions i rs s c.1,
)

-- A method has any instructions, those of other classes than `Arithmetic` being given by the
-- registers that they count. Its registers are allocated from its counts. Then the allocation ends,
-- and the code of each instruction of `Arithmetic` in it, `Mtxx` apart, be it in a delay slot, a
-- prefix or neither, runs within its stack and leaves in its destination what it computes from the
-- registers, its sources being in local variables that the allocation gave to them; all else is as
-- it was. The destination is neither the register zero nor the memory's.
pub register_usage-pass2 :
    (multiple : Bool) (functions : List (List (List Placed))) (i : Arithmetic)
    → Stands functions i
    → IsCounted i
    → IsProper i
    → destination i ≢ r_zero
    → destination i ≢ r_mem
    → destination i < n_regs
    → All (λ r. r < n_regs) (sources i)
    → (regs : ℕ → ℕ) (m : Machine)
    → ((regalloc : RegisterAllocator)
        → set_allocation (register_usage multiple functions) new_allocator ≡ some regalloc
        → Started regalloc regs m.locals)
    → (regalloc : RegisterAllocator) × (set_allocation
          (register_usage multiple functions)
          new_allocator
        ≡ some regalloc)
      × Runs
          (max_stack_height i + 2)
          regalloc
          (pass2 regalloc i)
          (stacked m [])
          (at (held regalloc regs) (destination i) (result regs i))
          m.memory
register_usage-pass2 multiple functions i s c proper nz nm small reads regs m started =
    let usage = register_usage multiple functions in
    let (regalloc, e, ok, statics) = set_allocation-IsAllocated usage new_allocator in
    let before = started regalloc e in
    let used =
      destinations-counted multiple functions i s (destination i)
        (λ q. fill_destinations-counts i q c nz) in
    let (l, has, below) = ok.has_local (destination i) small used in
    let h = Started-Holds usage regalloc regs m.locals ok statics before in
    let w : Writable regalloc (destination i) = record {
      local = l;
      has_local = has;
      no_zero = nz;
      no_mem = nm;
    } in
    let same : result (held regalloc regs) i ≡ result regs i =
      result-sources (held regalloc regs) regs i (
        All-held usage regalloc regs (sources i) ok before.zero_is reads
          (sources-used multiple functions i (sources i) s (fill_sources-counts i c))) in
    (
      regalloc,
      e,
      subst
          (λ (n : ℕ).
            Runs (max_stack_height i + 2) regalloc (pass2 regalloc i) (stacked m [])
              (at (held regalloc regs) (destination i) n) m.memory)
          same (pass2-result regalloc (held regalloc regs) m i h proper w),
    )
