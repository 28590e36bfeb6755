-- ===== src/Translator/Decode.antt =====
-- tools/translator/instruction.cc: from a word of machine code to the class that translates it.
--
-- The word is in the order of the host. A panic is `none`, and so is a read behind the end of a
-- table.
use cibyl.Base.{ℕ, ◌/◌, ◌%◌, ◌^◌, Option, none, some, ◌==◌, if◌then◌else◌, get_elem?, ◌>>=◌}
use cibyl.Base.Int.{ℤ, pos, pos_part, unsigned}
use cibyl.Translator.Mips.{r_zero, r_hi, r_lo}
use cibyl.Translator.Emit.{iadd, isub, iand, ior, ixor, ishl, ishr, iushr}
use cibyl.Translator.Instructions.{
  Arithmetic, rfmt, shift_v, addu, subu, nor, slt, sltu, shift, ifmt, addi, slti, sltiu, lui, mfxx,
  mtxx, signext_half,
}
use cibyl.Translator.Opcodes.{
  Opcode, op_add, op_addi, op_addiu, op_addu, op_and, op_andi, op_beq, op_bgez, op_bgezal, op_bgtz,
  op_blez, op_bltz, op_bltzal, op_bne, op_div, op_divu, op_j, op_jal, op_jalr, op_jr, op_lb, op_lbu,
  op_lh, op_lhu, op_lui, op_lw, op_lwl, op_lwr, op_mfhi, op_mflo, op_mthi, op_mtlo, op_mult,
  op_multu, op_nor, op_or, op_ori, op_sb, op_sh, op_sll, op_sllv, op_slt, op_slti, op_sltiu,
  op_sltu, op_sra, op_srav, op_srl, op_srlv, op_sub, op_subu, op_sw, op_swl, op_swr, op_xor,
  op_xori, op_unimp, op_break, op_lwc1, op_swc1, op_fadd, op_fsub, op_fmul, op_fdiv, op_cvt_w,
  op_c_f, op_c_un, op_c_eq, op_c_ueq, op_c_olt, op_c_ult, op_c_ole, op_c_ule, op_c_sf, op_c_ngle,
  op_c_seq, op_c_ngl, op_c_lt, op_c_nge, op_c_le, op_c_ngt, special, bcond, cop1, Fmt, i_fmt, j_fmt,
  r_fmt, mips_op_entries, mips_special_table, mips_cop1_table, mips_zero_extend_opcode,
  mips_encoding_get_rs, mips_encoding_get_rt, mips_encoding_get_rd, mips_encoding_get_cp1_func,
  mips_int_to_fpu_reg, mips_cp1_fmt_is_double,
}

-- The jump of a conditional branch.
pub data Condition : Type 0 where
  ifeq ifne ifge ifgt ifle iflt if_icmpeq if_icmpne : Condition

-- The class that the factory makes, and the arguments of its constructor less the address.
pub data Instruction : Type 0 where
  arithmetic : Arithmetic → Instruction
  mult div : (rs rt : ℕ) → Instruction
  multu divu : (rs rt : ℕ) → Instruction
  lw sw lb lbu lh lhu sb sh lwl swl lwc1 swc1 : (rs rt : ℕ) (extra : ℤ) → Instruction
  jal jump : ℤ → Instruction
  jalr jr : (rs : ℕ) → Instruction
  one_register_jump : Condition → (rs : ℕ) (extra : ℤ) → Instruction
  two_register_jump : Condition → (rs rt : ℕ) (extra : ℤ) → Instruction
  nop : Instruction
  syscall_insn syscall_register_argument catch_insn : ℕ → Instruction
  cvt_w : (fmt fs fd : ℕ) → Instruction
  comp_fmt_double comp_fmt_float : Opcode → (fmt fs ft fd : ℕ) → Instruction
  cmp_fmt_double cmp_fmt_float : Opcode → (fs ft : ℕ) → Instruction

-- The parts that the word is split into.
pub record Fields : Type 0 where
  pub word : ℕ
  pub major : ℕ
  pub rs : ℕ
  pub rt : ℕ
  pub rd : ℕ
  pub amount : ℕ
  pub func : ℕ

abbrev pub fields : ℕ → Fields
fields word = record {
  word = word;
  major = word / 2 ^ 26 % 2 ^ 6;
  rs = mips_encoding_get_rs word;
  rt = mips_encoding_get_rt word;
  rd = mips_encoding_get_rd word;
  amount = word / 2 ^ 6 % 2 ^ 5;
  func = mips_encoding_get_cp1_func word;
}

module _ (f : Fields) where
  abbrev pub extra_of : Opcode → Fmt → ℤ
  extra_of op i_fmt =
      let extra = f.word % 2 ^ 16 in
      if mips_zero_extend_opcode op then pos extra else signext_half extra
  extra_of op r_fmt = pos f.amount
  extra_of op j_fmt = pos (f.word % 2 ^ 26)

  abbrev pub opcode_of : Opcode → Option Opcode
  opcode_of special = get_elem? mips_special_table f.func
  opcode_of bcond =
      let kind = f.rt in
      some (
        if kind == 0
        then op_bltz
        else if kind == 1
        then op_bgez
        else if kind == 16
        then op_bltzal
        else if kind == 17
        then op_bgezal
        else op_unimp)
  opcode_of cop1 = get_elem? mips_cop1_table f.func
  opcode_of type = some type

  -- `fs` is read from the field of the format, which `rs` is as well.
  abbrev compute : Opcode → Instruction
  compute opcode =
      if mips_cp1_fmt_is_double f.rs
      then comp_fmt_double opcode f.rs (mips_int_to_fpu_reg f.rs) (mips_int_to_fpu_reg f.rt)
          (mips_int_to_fpu_reg f.amount)
      else comp_fmt_float opcode f.rs (mips_int_to_fpu_reg f.rs) (mips_int_to_fpu_reg f.rt)
          (mips_int_to_fpu_reg f.amount)

  abbrev float_test : Opcode → Instruction
  float_test opcode =
      if mips_cp1_fmt_is_double f.rs
      then cmp_fmt_double opcode (mips_int_to_fpu_reg f.rs) (mips_int_to_fpu_reg f.rt)
      else cmp_fmt_float opcode (mips_int_to_fpu_reg f.rs) (mips_int_to_fpu_reg f.rt)

  -- The switch, with `extra`.
  unfoldable pub class_of : Opcode → ℤ → Option Instruction
  class_of op_addu extra = some (arithmetic (addu f.rs f.rt f.rd))
  class_of op_add extra = some (arithmetic (rfmt iadd f.rs f.rt f.rd))
  class_of op_sub extra = some (arithmetic (rfmt isub f.rs f.rt f.rd))
  class_of op_subu extra = some (arithmetic (subu f.rs f.rt f.rd))
  class_of op_xor extra = some (arithmetic (rfmt ixor f.rs f.rt f.rd))
  class_of op_and extra = some (arithmetic (rfmt iand f.rs f.rt f.rd))
  class_of op_or extra = some (arithmetic (rfmt ior f.rs f.rt f.rd))
  class_of op_nor extra = some (arithmetic (nor f.rs f.rt f.rd))
  class_of op_srav extra = some (arithmetic (shift_v ishr f.rs f.rt f.rd))
  class_of op_sllv extra = some (arithmetic (shift_v ishl f.rs f.rt f.rd))
  class_of op_srlv extra = some (arithmetic (shift_v iushr f.rs f.rt f.rd))
  class_of op_sll extra = some (arithmetic (shift ishl f.rs f.rt f.rd (pos_part extra)))
  class_of op_sra extra = some (arithmetic (shift ishr f.rs f.rt f.rd (pos_part extra)))
  class_of op_srl extra = some (arithmetic (shift iushr f.rs f.rt f.rd (pos_part extra)))
  class_of op_addi extra = some (arithmetic (addi f.rs f.rt f.rd extra))
  class_of op_addiu extra = some (arithmetic (addi f.rs f.rt f.rd extra))
  class_of op_xori extra = some (arithmetic (ifmt ixor f.rs f.rt f.rd extra))
  class_of op_andi extra = some (arithmetic (ifmt iand f.rs f.rt f.rd extra))
  class_of op_ori extra = some (arithmetic (ifmt ior f.rs f.rt f.rd extra))
  class_of op_jal extra = some (jal extra)
  class_of op_jalr extra = some (jalr f.rs)
  class_of op_j extra = some (jump extra)
  class_of op_bgezal extra = some (jal extra)
  class_of op_lw extra = some (lw f.rs f.rt extra)
  class_of op_sw extra = some (sw f.rs f.rt extra)
  class_of op_lb extra = some (lb f.rs f.rt extra)
  class_of op_lbu extra = some (lbu f.rs f.rt extra)
  class_of op_lh extra = some (lh f.rs f.rt extra)
  class_of op_lhu extra = some (lhu f.rs f.rt extra)
  class_of op_lwl extra = some (lwl f.rs f.rt extra)
  class_of op_lwr extra = some nop
  class_of op_sb extra = some (sb f.rs f.rt extra)
  class_of op_sh extra = some (sh f.rs f.rt extra)
  class_of op_swl extra = some (swl f.rs f.rt extra)
  class_of op_swr extra = some nop
  class_of op_break extra = some nop
  class_of op_mult extra = some (mult f.rs f.rt)
  class_of op_multu extra = some (multu f.rs f.rt)
  class_of op_div extra = some (div f.rs f.rt)
  class_of op_divu extra = some (divu f.rs f.rt)
  class_of op_mflo extra = some (arithmetic (mfxx f.rd r_lo))
  class_of op_mfhi extra = some (arithmetic (mfxx f.rd r_hi))
  class_of op_mtlo extra = some (arithmetic (mtxx f.rd r_lo))
  class_of op_mthi extra = some (arithmetic (mtxx f.rd r_hi))
  class_of op_jr extra = some (jr f.rs)
  class_of op_lui extra = some (arithmetic (lui f.rt (unsigned extra)))
  class_of op_sltu extra = some (arithmetic (sltu f.rs f.rt f.rd))
  class_of op_slt extra = some (arithmetic (slt f.rs f.rt f.rd))
  class_of op_sltiu extra = some (arithmetic (sltiu f.rs f.rt extra))
  class_of op_slti extra = some (arithmetic (slti f.rs f.rt extra))
  class_of op_beq extra = some (
      if f.rt == r_zero
      then one_register_jump ifeq f.rs extra
      else two_register_jump if_icmpeq f.rs f.rt extra)
  class_of op_bne extra = some (
      if f.rt == r_zero
      then one_register_jump ifne f.rs extra
      else two_register_jump if_icmpne f.rs f.rt extra)
  class_of op_bgez extra = some (one_register_jump ifge f.rs extra)
  class_of op_bgtz extra = some (one_register_jump ifgt f.rs extra)
  class_of op_blez extra = some (one_register_jump ifle f.rs extra)
  class_of op_bltz extra = some (one_register_jump iflt f.rs extra)
  class_of op_lwc1 extra = some (lwc1 f.rs (mips_int_to_fpu_reg f.rt) extra)
  class_of op_swc1 extra = some (swc1 f.rs (mips_int_to_fpu_reg f.rt) extra)
  class_of op_cvt_w extra =
      some (cvt_w f.rs (mips_int_to_fpu_reg f.rs) (mips_int_to_fpu_reg f.amount))
  class_of op_fadd extra = some (compute op_fadd)
  class_of op_fsub extra = some (compute op_fsub)
  class_of op_fmul extra = some (compute op_fmul)
  class_of op_fdiv extra = some (compute op_fdiv)
  class_of op_c_f extra = some (float_test op_c_f)
  class_of op_c_un extra = some (float_test op_c_un)
  class_of op_c_eq extra = some (float_test op_c_eq)
  class_of op_c_ueq extra = some (float_test op_c_ueq)
  class_of op_c_olt extra = some (float_test op_c_olt)
  class_of op_c_ult extra = some (float_test op_c_ult)
  class_of op_c_ole extra = some (float_test op_c_ole)
  class_of op_c_ule extra = some (float_test op_c_ule)
  class_of op_c_sf extra = some (float_test op_c_sf)
  class_of op_c_ngle extra = some (float_test op_c_ngle)
  class_of op_c_seq extra = some (float_test op_c_seq)
  class_of op_c_ngl extra = some (float_test op_c_ngl)
  class_of op_c_lt extra = some (float_test op_c_lt)
  class_of op_c_nge extra = some (float_test op_c_nge)
  class_of op_c_le extra = some (float_test op_c_le)
  class_of op_c_ngt extra = some (float_test op_c_ngt)
  class_of _ extra = none

  abbrev pub decode : Option Instruction
  decode = do
    (type, fmt) ← get_elem? mips_op_entries f.major
    opcode ← opcode_of type
    class_of opcode (extra_of type fmt)

abbrev pub create : ℕ → Option Instruction
create word =
    if word / 2 ^ 24 == 255
    then some (syscall_insn (word % 2 ^ 24))
    else if word / 2 ^ 16 == 65278
    then some (syscall_register_argument (word % 2 ^ 5))
    else if word / 2 ^ 24 == 253
    then some (catch_insn (word % 2 ^ 24))
    else decode (fields word)
