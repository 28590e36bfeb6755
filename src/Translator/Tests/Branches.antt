-- ===== src/Translator/Tests/Branches.antt =====
-- Witnesses: jumps with an instruction in their delay slot.
use cibyl.Base.{◌+◌, ◌≡◌, refl, none, [], if◌then◌else◌, ◌==◌, arith}
use cibyl.Base.Int.{pos, negsuc}
use cibyl.Translator.Mips.{r_ra}
use cibyl.Translator.Registers.{at}
use cibyl.Translator.Instructions.{Arithmetic, addu, slt}
use cibyl.Translator.Instructions.Semantics.{result}
use cibyl.Translator.Instructions.Stack.{stacked}
use cibyl.Translator.Decode.{iflt, if_icmpne}
use cibyl.Translator.Jumps.{two_register_pass2, one_register_pass2, jr_pass2, branch_target}
use cibyl.Translator.Jumps.Taken.{to, falls, returns, looks_up, holds, run}
use cibyl.Translator.Jumps.Slots.{
  with_slot, Branches, compares, two_register_pass2_lem, one_register_pass2_lem, jr_pass2_lem,
}
use cibyl.Translator.Jumps.Overflow.{two_register_pass2-slt}
use cibyl.Translator.Tests.{two_registers, registers, machine, machine-Holds, nine-Writable}

-- addu 9, 8, 9
abbrev adding : Arithmetic
adding = addu 8 9 9

-- A loop: bne 8, 9 back to its first instruction.
two_register_pass2_lem_example :
    Branches 4 two_registers
      (two_register_pass2 two_registers if_icmpne (with_slot 4096 adding) 8 9 (negsuc 3))
      (stacked machine [])
      (at registers 9 (result registers adding))
      machine.memory
      (if compares if_icmpne (registers 8) (registers 9)
        then to (branch_target (with_slot 4096 adding) (negsuc 3))
        else falls)
two_register_pass2_lem_example =
    two_register_pass2_lem two_registers registers 4 machine machine-Holds 4096 adding if_icmpne 8 9
      (negsuc 3) tt (omega arith) (omega arith) (omega arith, omega arith) nine-Writable
      (omega arith)

one_register_pass2_lem_example :
    Branches 4 two_registers
      (one_register_pass2 two_registers iflt (with_slot 4096 adding) 9 (pos 5))
      (stacked machine [])
      (at registers 9 (result registers adding))
      machine.memory
      (if holds iflt (registers 9)
        then to (branch_target (with_slot 4096 adding) (pos 5))
        else falls)
one_register_pass2_lem_example =
    one_register_pass2_lem two_registers registers 4 machine machine-Holds 4096 adding iflt 9
      (pos 5) (λ h. h) (omega arith) (omega arith, omega arith) nine-Writable (omega arith)

jr_pass2_lem_example :
    Branches 4 two_registers
      (jr_pass2 two_registers (with_slot 4096 adding) 9)
      (stacked machine [])
      (at registers 9 (result registers adding))
      machine.memory
      (if 9 == r_ra then returns else looks_up (registers 9))
jr_pass2_lem_example =
    jr_pass2_lem two_registers registers 4 machine machine-Holds 4096 adding 9 (omega arith)
      (omega arith, omega arith) nine-Writable (omega arith)

-- bne 8, 9 with slt 9, 8, 9 in its slot
two_register_pass2-slt_example :
    run
      (2 + 2)
      (two_register_pass2 two_registers if_icmpne (with_slot 4096 (slt 8 9 9)) 8 9 (pos 5))
      (stacked machine [])
    ≡ none
two_register_pass2-slt_example =
    two_register_pass2-slt two_registers registers machine machine-Holds if_icmpne 4096 8 9 8 9 9
      (pos 5) 2 (omega arith) (omega arith) (omega arith) (omega arith) refl
