-- ===== src/Translator/Instructions/Semantics.antt =====
-- What the instructions of MIPS compute, as the manual of the processor describes them, on bit
-- patterns of 32 digits.
use Prim.Native.Nat.{bit_xor}
use cibyl.Base.{
  ℕ, ◌+◌, ◌-◌, ◌*◌, ◌/◌, ◌%◌, ◌^◌, Bool, true, false, bit_and, bit_or, ltb, if◌then◌else◌,
}
use cibyl.Translator.Emit.{Insn, iadd, isub, iand, ior, ixor, ishl, ishr, iushr}
use cibyl.Translator.Jvm.{two32, to_word, shift_right}
use cibyl.Translator.Instructions.{
  Arithmetic, rfmt, shift_v, addu, subu, nor, slt, sltu, shift, ifmt, addi, slti, sltiu, lui, mfxx,
  mtxx,
}

-- The Java instruction for an operation that both machines have.
unfoldable pub operation : Insn → ℕ → ℕ → ℕ
operation iadd a b = (a + b) % two32
operation isub a b = (a + two32 - b) % two32
operation iand a b = bit_and a b
operation ior a b = bit_or a b
operation ixor a b = bit_xor a b
operation ishl a k = a * 2 ^ (k % 32) % two32
operation ishr a k = shift_right a (k % 32)
operation iushr a k = a / 2 ^ (k % 32)
operation _ a b = 0

abbrev pub is_operation : Insn → Bool
is_operation iadd = true
is_operation isub = true
is_operation iand = true
is_operation ior = true
is_operation ixor = true
is_operation ishl = true
is_operation ishr = true
is_operation iushr = true
is_operation _ = false

-- The order of signed numbers, whose patterns differ from those of an order from 0 in the sign.
abbrev pub less_signed : ℕ → ℕ → Bool
less_signed a b = ltb ((a + 2 ^ 31) % two32) ((b + 2 ^ 31) % two32)

abbrev pub bit : Bool → ℕ
bit b = if b then 1 else 0

abbrev pub destination : Arithmetic → ℕ
destination (rfmt what rs rt rd) = rd
destination (shift_v what rs rt rd) = rd
destination (addu rs rt rd) = rd
destination (subu rs rt rd) = rd
destination (nor rs rt rd) = rd
destination (slt rs rt rd) = rd
destination (sltu rs rt rd) = rd
destination (shift what rs rt rd extra) = rd
destination (ifmt what rs rt rd extra) = rt
destination (addi rs rt rd extra) = rt
destination (slti rs rt extra) = rt
destination (sltiu rs rt extra) = rt
destination (lui rt extra) = rt
destination (mfxx rd src) = rd
destination (mtxx rs dst) = dst

unfoldable pub result : (ℕ → ℕ) → Arithmetic → ℕ
unfolding operation
result regs (rfmt what rs rt rd) = operation what (regs rs) (regs rt)
result regs (shift_v what rs rt rd) = operation what (regs rt) (regs rs)
result regs (addu rs rt rd) = (regs rs + regs rt) % two32
result regs (subu rs rt rd) = (regs rs + two32 - regs rt) % two32
result regs (nor rs rt rd) = two32 - 1 - bit_or (regs rs) (regs rt)
result regs (slt rs rt rd) = bit (less_signed (regs rs) (regs rt))
result regs (sltu rs rt rd) = bit (ltb (regs rs) (regs rt))
result regs (shift what rs rt rd extra) = operation what (regs rt) extra
result regs (ifmt what rs rt rd extra) = operation what (regs rs) (to_word extra)
result regs (addi rs rt rd extra) = (regs rs + to_word extra) % two32
result regs (slti rs rt extra) = bit (less_signed (regs rs) (to_word extra))
result regs (sltiu rs rt extra) = bit (ltb (regs rs) (to_word extra))
result regs (lui rt extra) = extra % 2 ^ 16 * 2 ^ 16
result regs (mfxx rd src) = regs src
result regs (mtxx rs dst) = regs rs
