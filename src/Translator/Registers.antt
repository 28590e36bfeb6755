-- ===== src/Translator/Registers.antt =====
-- tools/translator/registerallocator.cc: which local variable of a Java method holds a register.
--
-- The arrays are functions of the register; -1 and NULL are `none`, and the name of a static
-- variable is a number. The counts of `registerUsage` are not negative.
pub mod Assign
pub mod Allocate
pub mod Arguments
use mathlib.Core.Option
use cibyl.Base.{
  ℕ, zero, suc, ◌+◌, ◌-◌, Bool, true, false, ◌&&◌, Option, none, some, List, [], ◌∷◌, ◌++◌, ltb,
  ◌==◌, if◌then◌else◌, length,
}
use cibyl.Translator.Mips.{r_sp, r_fna, r_a0, r_a1, r_a2, r_a3, n_regs}

pub record RegisterAllocator : Type 0 where
  pub mips_to_local : ℕ → Option ℕ
  pub mips_to_static : ℕ → Option ℕ
  pub n_locals : ℕ

-- The constructor: `memset(..., 0, ...)`.
abbrev pub new_allocator : RegisterAllocator
new_allocator = record { mips_to_local = λ reg. some 0; mips_to_static = λ reg. none; n_locals = 0 }

-- `a[i] = v`
abbrev pub at {ℓ} : {A : Type ℓ} → (ℕ → A) → ℕ → A → ℕ → A
at f i v j = if j == i then v else f j

-- `sorted`, whose length is `n`, and `usage`.
pub record Allocation : Type 0 where
  pub sorted : List ℕ
  pub usage : ℕ → ℕ

-- `allocateRegister`
abbrev pub allocate_register : ℕ → Allocation → Allocation
allocate_register reg st = record { sorted = st.sorted ++ (reg ∷ []); usage = at st.usage reg 0 }

-- One of the tests at the start.
abbrev pub allocate_initial : (ℕ → ℕ) → ℕ → Allocation → Allocation
allocate_initial register_usage reg st =
    if ltb 0 (register_usage reg) then allocate_register reg st else st

-- The inner loop up to register `n`: `largest` and `largestIndex`.
pub find_largest : (ℕ → ℕ) → ℕ → ℕ × ℕ
find_largest usage zero = (0, 0)
find_largest usage (suc i) =
    let (largest, index) = find_largest usage i in
    if ltb 0 (usage i) && ltb largest (usage i) then (usage i, i) else (largest, index)

-- The outer loop.
pub allocate_rest : ℕ → Allocation → Option Allocation
unfolding find_largest
allocate_rest zero st = none
allocate_rest (suc k) st =
    let (largest, index) = find_largest st.usage n_regs in
    let rest = allocate_rest k (allocate_register index st) in
    if largest == 0 then some st else rest

-- The last loop, from `i` on.
pub assign_locals : List ℕ → ℕ → (ℕ → Option ℕ) → ℕ → Option ℕ
assign_locals [] i mips_to_local = mips_to_local
assign_locals (reg ∷ sorted) i mips_to_local =
    assign_locals sorted (i + 1) (at mips_to_local reg (some i))

pub initial_registers : (ℕ → ℕ) → Allocation
initial_registers u = allocate_initial u r_a3 (
    allocate_initial u r_a2 (
      allocate_initial u r_a1 (
        allocate_initial u r_a0 (
          allocate_initial u r_fna (allocate_initial u r_sp (record { sorted = []; usage = u }))))))

-- `setAllocation`. The outer loop clears a count in each round but the last.
pub set_allocation : (ℕ → ℕ) → RegisterAllocator → Option RegisterAllocator
unfolding allocate_rest assign_locals initial_registers
set_allocation register_usage regalloc =
    Option.map
      (λ st. record regalloc {
        mips_to_local = assign_locals st.sorted 0 (λ reg. none);
        n_locals = length st.sorted;
      })
      (allocate_rest (suc n_regs) (initial_registers register_usage))

abbrev is_some : Option ℕ → Bool
is_some none = false
is_some (some name) = true

abbrev pub reg_is_static : RegisterAllocator → ℕ → Bool
reg_is_static regalloc reg = is_some (regalloc.mips_to_static reg)
