-- ===== src/Translator/Tests/Calls.antt =====
-- Witnesses: the basic blocks of a function, and the registers that a call of a method passes.
use cibyl.Base.{ℕ, ◌*◌, ◌<◌, ◌≡◌, refl, true, false, not, some, List, [], ◌∷◌, length, get_elem?}
use cibyl.Translator.Mips.{n_regs}
use cibyl.Translator.Registers.{RegisterAllocator, at, new_allocator}
use cibyl.Translator.Registers.Assign.{member}
use cibyl.Translator.Registers.Arguments.{used_of}
use cibyl.Translator.Registers.Allocate.{set_allocation-IsAllocated}
use cibyl.Translator.Blocks.{BlockInsn, prologue, normal, epilogue, function_blocks, function_size}
use cibyl.Translator.Blocks.Partition.{function_size_lem}
use cibyl.Translator.Calls.{
  Function, Initial, possible_arguments, limit_arguments, registers_to_pass, initialised,
}
use cibyl.Translator.Calls.Agreement.{before_zero, full, cut, registers_to_pass-local}
use cibyl.Translator.Calls.Initialised.{holds_register, initialised-passed}

abbrev plain : ℕ → BlockInsn
plain a = record {
  address = a;
  is_branch = false;
  is_branch_target = false;
  is_return_jump = false;
}

-- A loop of two instructions and a branch with its slot, and the return.
abbrev small_function : List BlockInsn
small_function =
    plain 4096
    ∷ record (plain 4100) { is_branch_target = true }
    ∷ plain 4104
    ∷ record (plain 4108) { is_branch = true }
    ∷ plain 4112
    ∷ record (plain 4116) { is_branch = true; is_return_jump = true }
    ∷ plain 4120
    ∷ []

small_function_blocks :
    function_blocks 4096 7 small_function
    ≡ record { type = prologue; first = 7; last = 9 }
      ∷ record { type = normal; first = 9; last = 12 }
      ∷ record { type = epilogue; first = 12; last = 14 }
      ∷ []
unfolding function_blocks
small_function_blocks = refl

function_size_lem_example : function_size 4096 7 small_function ≡ length small_function * 4
function_size_lem_example = function_size_lem 4096 7 small_function

-- How often a method uses sp, a0, a1 and v0.
abbrev counts : ℕ → ℕ
counts = at (at (at (at (λ r. 0) 29 4) 4 2) 5 1) 2 7

abbrev allocation : RegisterAllocator
allocation = (set_allocation-IsAllocated counts new_allocator).0

registers_to_pass-local_example :
    (registers_to_pass counts possible_arguments
      ≡ some (used_of counts (before_zero possible_arguments)))
    × ((k r : ℕ)
        → get_elem? (used_of counts (before_zero possible_arguments)) k ≡ some r
        → allocation.mips_to_local r ≡ some k)
registers_to_pass-local_example =
    registers_to_pass-local counts possible_arguments new_allocator allocation (full refl)
      (set_allocation-IsAllocated counts new_allocator).1

-- A function with one argument.
initialised-passed_example :
    (regs : List ℕ) × (l : List (ℕ × Initial)) × (registers_to_pass counts
        (limit_arguments 1 possible_arguments)
      ≡ some regs)
    × (initialised counts (limit_arguments 1 possible_arguments) false ≡ some l)
    × ((r : ℕ) → r < n_regs → 0 < counts r → holds_register r l ≡ not (member r regs))
    × ((r : ℕ) → counts r ≡ 0 → (holds_register r l ≡ false) × (member r regs ≡ false))
initialised-passed_example =
    initialised-passed counts (limit_arguments 1 possible_arguments) false (cut 1 refl) (λ e. refl)

-- Two functions one behind the other: the last instruction of the first is at 4124.
abbrev first_function : Function
first_function = record { address = 4096; size = 28 }

abbrev second_function : Function
second_function = record { address = 4128; size = 12 }
