-- ===== src/Translator/Jumps.antt =====
-- tools/translator/instructions/jfmt.cc: jumps, with the instruction in their delay slot.
--
-- An instruction in a delay slot is one that computes. The output is a list of instructions and of
-- transfers of control; a label is the address that it is named for. What the controller knows of
-- the program is a record: the instruction at an address, by its address, and the method of an
-- address, by its number.
pub mod Slots
pub mod Taken
pub mod Overflow
use cibyl.Base.{
  ℕ, ◌+◌, ◌-◌, ◌*◌, ◌%◌, ◌^◌, Option, none, some, List, [], ◌∷◌, ◌++◌, Bool, true, false, not, ◌==◌,
  max, if◌then◌else◌, ◌>>=◌, map,
}
use cibyl.Base.Int.{ℤ, pos, negsuc, unsigned}
use cibyl.Translator.Mips.{r_ra}
use cibyl.Translator.Registers.{RegisterAllocator}
use cibyl.Translator.Emit.{Insn, bc_pushregister}
use cibyl.Translator.Instructions.{Arithmetic, pass2, max_stack_height}
use cibyl.Translator.Decode.{Condition}

-- What `Emit` writes: an instruction, a jump to a label or to one of the two places that each
-- method has, or a conditional branch to a label. `failure` is an error message for the programmer.
pub data Op : Type 0 where
  insn : Insn → Op
  goto : ℕ → Op
  goto_function_return goto_local_jumptab : Op
  condbranch : Condition → ℕ → Op
  failure : Op

-- An instruction of a class of jfmt.cc: its address, and what is in its delay slot.
pub record Branch : Type 0 where
  pub address : ℕ
  pub delayed : Option Arithmetic

pub record Controller : Type 0 where
  pub instruction_at : ℕ → Option ℕ
  pub method_at : ℕ → Option ℕ

-- The code of the delay slot.
abbrev pub delayed_pass2 : RegisterAllocator → Branch → List Op
delayed_pass2 regalloc b = elim (b.delayed) [ none ↦ [] | some i ↦ map insn (pass2 regalloc i) ]

-- `extra << 2`
abbrev pub jump_target : ℤ → ℕ
jump_target extra = unsigned extra * 4 % 2 ^ 32

-- `(address + 4) + (extra << 2)`
abbrev pub branch_target : Branch → ℤ → ℕ
branch_target b extra = (b.address + 4 + unsigned extra * 4) % 2 ^ 32

-- The test for a branch into another method, whose message takes the names of both.
abbrev compare_methods : ℕ → Option ℕ → Option ℕ → Option (Bool × Option ℕ)
compare_methods dst none none = some (true, some dst)
compare_methods dst (some src) (some method) =
    if src == method then some (true, some dst) else some (false, none)
compare_methods dst none (some method) = none
compare_methods dst (some src) none = none

module _ (regalloc : RegisterAllocator) where
  -- `Jump::pass2`: the result of the function, and the output.
  pub jump_pass2 : Controller → Branch → ℤ → Bool × List Op
  jump_pass2 controller b extra = elim (controller.instruction_at (jump_target extra)) [
    | none ↦ (false, delayed_pass2 regalloc b ++ (failure ∷ []))
    | some dst ↦ (true, delayed_pass2 regalloc b ++ (goto dst ∷ []))
  ]

  pub jr_pass2 : Branch → ℕ → List Op
  jr_pass2 b rs =
      if rs == r_ra
      then delayed_pass2 regalloc b ++ (goto_function_return ∷ [])
      else map insn (bc_pushregister regalloc rs)
        ++ (delayed_pass2 regalloc b ++ (goto_local_jumptab ∷ []))

  pub two_register_pass2 : Condition → Branch → ℕ → ℕ → ℤ → List Op
  two_register_pass2 bc b rs rt extra =
      map insn (bc_pushregister regalloc rs)
      ++ (map insn (bc_pushregister regalloc rt)
          ++ (delayed_pass2 regalloc b ++ (condbranch bc (branch_target b extra) ∷ [])))

  pub one_register_pass2 : Condition → Branch → ℕ → ℤ → List Op
  one_register_pass2 bc b rs extra =
      map insn (bc_pushregister regalloc rs)
      ++ (delayed_pass2 regalloc b ++ (condbranch bc (branch_target b extra) ∷ []))

module _ (controller : Controller) where
  -- `pass1` of a conditional jump: its result, and the instruction that becomes a branch target.
  -- `none` is a dereference of NULL: the instruction is used before it is tested.
  pub conditional_pass1 : Branch → ℤ → Option (Bool × Option ℕ)
  conditional_pass1 b extra = do
    dst ← controller.instruction_at (branch_target b extra)
    compare_methods dst (controller.method_at b.address) (controller.method_at dst)

  -- `Jump::pass1`
  pub jump_pass1 : ℤ → Option (Bool × Option ℕ)
  jump_pass1 extra = do dst ← controller.instruction_at (jump_target extra); some (true, some dst)

-- `getMaxStackHeight` of the classes: the sum is the condition of the conditional operator. `none`
-- is a dereference of NULL.
abbrev pub branch_max_stack_height : Branch → Option ℕ
branch_max_stack_height b = do i ← b.delayed; some (max_stack_height i)
