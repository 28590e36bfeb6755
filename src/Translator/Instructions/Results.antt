-- ===== src/Translator/Instructions/Results.antt =====
-- Every class of `Arithmetic`: its code runs, and does what the instruction does.
use cibyl.Base.{ℕ, ◌+◌, ◌≤◌, ◌<◌, ◌≡◌, ◌≢◌, true, [], arith}
use cibyl.Translator.Mips.{r_mem}
use cibyl.Translator.Registers.{RegisterAllocator, at}
use cibyl.Translator.Jvm.{Machine}
use cibyl.Translator.Run.{Holds, IsInt}
use cibyl.Translator.Writes.{Runs}
use cibyl.Translator.Instructions.{
  Arithmetic, rfmt, shift_v, addu, subu, nor, slt, sltu, shift, ifmt, addi, slti, sltiu, lui, mfxx,
  mtxx, pass2, max_stack_height, mfxx_pass2, mtxx_pass2,
}
use cibyl.Translator.Instructions.Semantics.{is_operation, destination, result}
use cibyl.Translator.Instructions.Stack.{Writable, stacked}
use cibyl.Translator.Instructions.Formats.{
  rfmt_pass2_lem, shift_v_pass2_lem, ifmt_pass2_lem, shift_pass2_lem, one_register,
}
use cibyl.Translator.Instructions.Special.{
  addu_pass2_lem, subu_pass2_lem, nor_pass2_lem, lui_pass2_lem,
}
use cibyl.Translator.Instructions.Increment.{IsHalf, addi_pass2_lem}
use cibyl.Translator.Instructions.Compare.{
  slt_pass2_lem, sltu_pass2_lem, slti_pass2_lem, sltiu_pass2_lem,
}

-- The sources are numbers, the operation is one that both machines have, and the constant is in its
-- field: what the factory gives to the classes.
abbrev pub IsProper : Arithmetic → Type 0
IsProper (rfmt what rs rt rd) = (is_operation what ≡ true) × (rs ≢ r_mem) × (rt ≢ r_mem)
IsProper (shift_v what rs rt rd) = (is_operation what ≡ true) × (rs ≢ r_mem) × (rt ≢ r_mem)
IsProper (addu rs rt rd) = (rs ≢ r_mem) × (rt ≢ r_mem)
IsProper (subu rs rt rd) = (rs ≢ r_mem) × (rt ≢ r_mem)
IsProper (nor rs rt rd) = (rs ≢ r_mem) × (rt ≢ r_mem)
IsProper (slt rs rt rd) = (rs ≢ r_mem) × (rt ≢ r_mem)
IsProper (sltu rs rt rd) = (rs ≢ r_mem) × (rt ≢ r_mem)
IsProper (shift what rs rt rd extra) = (is_operation what ≡ true) × (extra < 32) × (rt ≢ r_mem)
IsProper (ifmt what rs rt rd extra) = (is_operation what ≡ true) × IsInt extra × (rs ≢ r_mem)
IsProper (addi rs rt rd extra) = IsHalf extra × (rs ≢ r_mem)
IsProper (slti rs rt extra) = IsInt extra × (rs ≢ r_mem)
IsProper (sltiu rs rt extra) = rs ≢ r_mem
IsProper (lui rt extra) = Unit
IsProper (mfxx rd src) = src ≢ r_mem
IsProper (mtxx rs dst) = rs ≢ r_mem

-- The places of the stack that the code of a class needs.
abbrev pub required : Arithmetic → ℕ
required (slt rs rt rd) = 4
required (slti rs rt extra) = 4
required (sltu rs rt rd) = 6
required (sltiu rs rt extra) = 6
required _ = 2

-- The code of every class, within as many places as it needs.
pub pass2-runs :
    (limit : ℕ) (regalloc : RegisterAllocator) (regs : ℕ → ℕ) (m : Machine) (i : Arithmetic)
    → Holds regalloc regs m.locals
    → required i ≤ limit
    → IsProper i
    → Writable regalloc (destination i)
    → Runs limit regalloc
        (pass2 regalloc i)
        (stacked m [])
        (at regs (destination i) (result regs i))
        m.memory
unfolding result mfxx_pass2 mtxx_pass2
pass2-runs limit regalloc regs m (rfmt what rs rt rd) h room (e, ns, nt) w =
    rfmt_pass2_lem regalloc regs limit m h room what rs rt rd e ns nt w
pass2-runs limit regalloc regs m (shift_v what rs rt rd) h room (e, ns, nt) w =
    shift_v_pass2_lem regalloc regs limit m h room what rs rt rd e ns nt w
pass2-runs limit regalloc regs m (addu rs rt rd) h room (ns, nt) w =
    addu_pass2_lem regalloc regs limit m h room rs rt rd ns nt w
pass2-runs limit regalloc regs m (subu rs rt rd) h room (ns, nt) w =
    subu_pass2_lem regalloc regs limit m h room rs rt rd ns nt w
pass2-runs limit regalloc regs m (nor rs rt rd) h room (ns, nt) w =
    nor_pass2_lem regalloc regs limit m h room rs rt rd ns nt w
pass2-runs limit regalloc regs m (slt rs rt rd) h room (ns, nt) w =
    slt_pass2_lem regalloc regs limit m h room rs rt rd ns nt w
pass2-runs limit regalloc regs m (sltu rs rt rd) h room (ns, nt) w =
    sltu_pass2_lem regalloc regs limit m h room rs rt rd ns nt w
pass2-runs limit regalloc regs m (shift what rs rt rd extra) h room (e, small, nt) w =
    shift_pass2_lem regalloc regs limit m h room what rt rd extra e small nt w
pass2-runs limit regalloc regs m (ifmt what rs rt rd extra) h room (e, small, ns) w =
    ifmt_pass2_lem regalloc regs limit m h room what rs rt extra e small ns w
pass2-runs limit regalloc regs m (addi rs rt rd extra) h room (half, ns) w =
    addi_pass2_lem regalloc regs limit m h room rs rt extra half ns w
pass2-runs limit regalloc regs m (slti rs rt extra) h room (small, ns) w =
    slti_pass2_lem regalloc regs limit m h room rs rt extra small ns w
pass2-runs limit regalloc regs m (sltiu rs rt extra) h room ns w =
    sltiu_pass2_lem regalloc regs limit m h room rs rt extra ns w
pass2-runs limit regalloc regs m (lui rt extra) h room proper w =
    lui_pass2_lem regalloc regs limit m h room rt extra w
pass2-runs limit regalloc regs m (mfxx rd src) h room ns w =
    one_register regalloc regs limit m h room src rd ns w
pass2-runs limit regalloc regs m (mtxx rs dst) h room ns w =
    one_register regalloc regs limit m h room rs dst ns w

required_bound : (i : Arithmetic) → required i ≤ max_stack_height i + 2
required_bound (rfmt w a b c) = omega arith
required_bound (shift_v w a b c) = omega arith
required_bound (addu a b c) = omega arith
required_bound (subu a b c) = omega arith
required_bound (nor a b c) = omega arith
required_bound (slt a b c) = omega arith
required_bound (sltu a b c) = omega arith
required_bound (shift w a b c d) = omega arith
required_bound (ifmt w a b c d) = omega arith
required_bound (addi a b c d) = omega arith
required_bound (slti a b c) = omega arith
required_bound (sltiu a b c) = omega arith
required_bound (lui a b) = omega arith
required_bound (mfxx a b) = omega arith
required_bound (mtxx a b) = omega arith

-- In a method whose register allocation holds the registers, the code of an arithmetic instruction
-- runs on the Java machine without an error, from an empty stack to an empty one and within the
-- height of the stack that is declared for it; it leaves what MIPS computes in the destination,
-- every other register and the memory as they were. The sources are not the memory's register, the
-- destination has a local variable and is neither the register zero nor the memory's, and the
-- constant is in its field.
pub pass2-result :
    (regalloc : RegisterAllocator) (regs : ℕ → ℕ) (m : Machine) (i : Arithmetic)
    → Holds regalloc regs m.locals
    → IsProper i
    → Writable regalloc (destination i)
    → Runs
        (max_stack_height i + 2)
        regalloc
        (pass2 regalloc i)
        (stacked m [])
        (at regs (destination i) (result regs i))
        m.memory
pass2-result regalloc regs m i h proper w =
    pass2-runs (max_stack_height i + 2) regalloc regs m i h (required_bound i) proper w
