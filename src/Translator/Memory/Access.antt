-- ===== src/Translator/Memory/Access.antt =====
-- What a load or a store may rely on, and the bytes and halves of the memory.
use cibyl.Base.{
  ℕ, ◌-◌, ◌*◌, ◌/◌, ◌%◌, ◌^◌, ◌<◌, ◌≡◌, ◌≢◌, Bool, true, false, not, ◌&&◌, some, ltb, ◌==◌,
  if◌then◌else◌,
}
use cibyl.Base.Int.{ℤ}
use cibyl.Translator.Mips.{r_ra, r_mem}
use cibyl.Translator.Registers.{RegisterAllocator}
use cibyl.Translator.Jvm.{Machine, two32, sign_extend}
use cibyl.Translator.Run.{Holds, IsInt}
use cibyl.Translator.Memory.{Settings}
use cibyl.Translator.Memory.Index.{address, InSpace}

-- The accesses that the program may make: the address does not wrap and is in the memory, whose
-- words have 32 digits, and the memory has a local variable.
pub record Accessible (regalloc : RegisterAllocator) (regs : ℕ → ℕ) (m : Machine) (rs : ℕ)
    (extra : ℤ) : Type 0 where
  pub holds : Holds regalloc regs m.locals
  pub source : rs ≢ r_mem
  pub small : IsInt extra
  pub in_space : InSpace (regs rs) extra
  pub in_memory : address (regs rs) extra / 4 < m.size
  pub words : (i : ℕ) → m.memory i < two32
  pub memory_local : ℕ
  pub has_memory : regalloc.mips_to_local r_mem ≡ some memory_local

-- The big-endian byte and half at an address.
abbrev pub byte_at : (ℕ → ℕ) → ℕ → ℕ
byte_at memory a = memory (a / 4) / 2 ^ (8 * (3 - a % 4)) % 2 ^ 8

abbrev pub half_at : (ℕ → ℕ) → ℕ → ℕ
half_at memory a = memory (a / 4) / 2 ^ (8 * (2 - a % 4)) % 2 ^ 16

-- The method of the instruction gets its loads and stores inline, and the instruction is not one
-- that saves the return address.
pub record Inlines (settings : Settings) (rt : ℕ) : Type 0 where
  pub no_subroutines : settings.optimize_partial_memory_ops ≡ false
  pub inlines : settings.optimize_inlines ≡ true
  pub fits : ltb 32768 settings.bytecode_size ≡ false
  pub kept : (rt == r_ra && not settings.has_multiple_functions) ≡ false

-- What a load of a byte or of a half leaves in the register.
abbrev pub extended : Bool → ℕ → ℕ → ℕ
extended is_signed size v = if is_signed then sign_extend size v else v
