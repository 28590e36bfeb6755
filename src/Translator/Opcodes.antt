-- ===== src/Translator/Opcodes.antt =====
-- tools/translator/mips.cc and include/mips.hh: the opcodes of MIPS, and the tables that find them.
use cibyl.Base.{ℕ, ◌+◌, ◌/◌, ◌%◌, ◌^◌, Bool, true, false, List, [], ◌∷◌, ◌==◌}
use cibyl.Translator.Mips.{r_f0}

-- `mips_opcode_t`
pub data Opcode : Type 0 where
  op_add op_addi op_addiu op_addu op_and op_andi op_beq op_bgez : Opcode
  op_bgezal op_bgtz op_blez op_bltz op_bltzal op_bne op_div op_divu : Opcode
  op_j op_jal op_jalr op_jr op_lb op_lbu op_lh op_lhu : Opcode
  op_lui op_lw op_lwl op_lwr op_mfhi op_mflo op_mthi op_mtlo : Opcode
  op_mult op_multu op_nor op_or op_ori op_rfe op_sb op_sh : Opcode
  op_sll op_sllv op_slt op_slti op_sltiu op_sltu op_sra op_srav : Opcode
  op_srl op_srlv op_sub op_subu op_sw op_swl op_swr op_xor : Opcode
  op_xori op_syscall op_unimp op_res op_mfcp0 op_mtcp0 op_cfcp0 op_ctcp0 : Opcode
  op_bccp0 op_tlbr op_tlbwi op_tlbwr op_tlbp op_cop1 op_cop2 op_cop3 : Opcode
  op_break op_mfc_1 op_cfc_1 op_mtc_1 op_ctc_1 op_bc1f op_bc1t op_lwc1 : Opcode
  op_swc1 op_fadd op_fsub op_fmul op_fdiv op_fsqrt op_fabs op_fmov : Opcode
  op_fneg op_round_l op_trunc_l op_ceil_l op_floor_l op_ceil_w op_floor_w op_round_w : Opcode
  op_trunc_w op_cvt_s op_cvt_d op_cvt_w op_cvt_l op_c_f op_c_un op_c_eq : Opcode
  op_c_ueq op_c_olt op_c_ult op_c_ole op_c_ule op_c_sf op_c_ngle op_c_seq : Opcode
  op_c_ngl op_c_lt op_c_nge op_c_le op_c_ngt special bcond cop0 : Opcode
  cop1 cop2 cop3 cibyl_syscall cibyl_register_argument cibyl_assign_memreg : Opcode

pub data Fmt : Type 0 where
  i_fmt j_fmt r_fmt : Fmt

abbrev pub mips_op_entries : List (Opcode × Fmt)
mips_op_entries =
    (special, r_fmt)
    ∷ (bcond, i_fmt)
    ∷ (op_j, j_fmt)
    ∷ (op_jal, j_fmt)
    ∷ (op_beq, i_fmt)
    ∷ (op_bne, i_fmt)
    ∷ (op_blez, i_fmt)
    ∷ (op_bgtz, i_fmt)
    ∷ (op_addi, i_fmt)
    ∷ (op_addiu, i_fmt)
    ∷ (op_slti, i_fmt)
    ∷ (op_sltiu, i_fmt)
    ∷ (op_andi, i_fmt)
    ∷ (op_ori, i_fmt)
    ∷ (op_xori, i_fmt)
    ∷ (op_lui, i_fmt)
    ∷ (cop0, r_fmt)
    ∷ (cop1, i_fmt)
    ∷ (cop2, i_fmt)
    ∷ (cop3, i_fmt)
    ∷ (op_res, i_fmt)
    ∷ (op_res, i_fmt)
    ∷ (op_res, i_fmt)
    ∷ (op_res, i_fmt)
    ∷ (op_res, i_fmt)
    ∷ (op_res, i_fmt)
    ∷ (op_res, i_fmt)
    ∷ (op_res, i_fmt)
    ∷ (op_res, i_fmt)
    ∷ (op_res, i_fmt)
    ∷ (op_res, i_fmt)
    ∷ (op_res, i_fmt)
    ∷ (op_lb, i_fmt)
    ∷ (op_lh, i_fmt)
    ∷ (op_lwl, i_fmt)
    ∷ (op_lw, i_fmt)
    ∷ (op_lbu, i_fmt)
    ∷ (op_lhu, i_fmt)
    ∷ (op_lwr, i_fmt)
    ∷ (op_res, i_fmt)
    ∷ (op_sb, i_fmt)
    ∷ (op_sh, i_fmt)
    ∷ (op_swl, i_fmt)
    ∷ (op_sw, i_fmt)
    ∷ (op_res, i_fmt)
    ∷ (op_res, i_fmt)
    ∷ (op_swr, i_fmt)
    ∷ (op_res, i_fmt)
    ∷ (op_unimp, i_fmt)
    ∷ (op_lwc1, i_fmt)
    ∷ (op_unimp, i_fmt)
    ∷ (op_unimp, i_fmt)
    ∷ (op_res, i_fmt)
    ∷ (op_res, i_fmt)
    ∷ (op_res, i_fmt)
    ∷ (op_res, i_fmt)
    ∷ (op_unimp, i_fmt)
    ∷ (op_swc1, i_fmt)
    ∷ (op_unimp, i_fmt)
    ∷ (op_unimp, i_fmt)
    ∷ (op_res, i_fmt)
    ∷ (op_res, i_fmt)
    ∷ (op_res, i_fmt)
    ∷ (op_res, i_fmt)
    ∷ []

abbrev pub mips_special_table : List Opcode
mips_special_table =
    op_sll ∷ op_res ∷ op_srl ∷ op_sra ∷ op_sllv ∷ op_res ∷ op_srlv ∷ op_srav ∷ op_jr ∷ op_jalr
    ∷ op_res ∷ op_res ∷ op_syscall ∷ op_break ∷ op_res ∷ op_res ∷ op_mfhi ∷ op_mthi ∷ op_mflo
    ∷ op_mtlo ∷ op_res ∷ op_res ∷ op_res ∷ op_res ∷ op_mult ∷ op_multu ∷ op_div ∷ op_divu ∷ op_res
    ∷ op_res ∷ op_res ∷ op_res ∷ op_add ∷ op_addu ∷ op_sub ∷ op_subu ∷ op_and ∷ op_or ∷ op_xor
    ∷ op_nor ∷ op_res ∷ op_res ∷ op_slt ∷ op_sltu ∷ op_res ∷ op_res ∷ op_res ∷ op_res ∷ op_res
    ∷ op_res ∷ op_res ∷ op_res ∷ op_res ∷ op_res ∷ op_res ∷ op_res ∷ op_res ∷ op_res ∷ op_res
    ∷ op_res ∷ op_res ∷ op_res ∷ op_res ∷ op_res ∷ []

abbrev pub mips_cop1_table : List Opcode
mips_cop1_table =
    op_fadd ∷ op_fsub ∷ op_fmul ∷ op_fdiv ∷ op_fsqrt ∷ op_fabs ∷ op_fmov ∷ op_fneg ∷ op_round_l
    ∷ op_trunc_l ∷ op_ceil_l ∷ op_floor_l ∷ op_round_w ∷ op_trunc_w ∷ op_ceil_w ∷ op_floor_w
    ∷ op_res ∷ op_res ∷ op_res ∷ op_res ∷ op_res ∷ op_res ∷ op_res ∷ op_res ∷ op_res ∷ op_res
    ∷ op_res ∷ op_res ∷ op_res ∷ op_res ∷ op_res ∷ op_res ∷ op_cvt_s ∷ op_cvt_d ∷ op_res ∷ op_res
    ∷ op_cvt_w ∷ op_cvt_l ∷ op_res ∷ op_res ∷ op_res ∷ op_res ∷ op_res ∷ op_res ∷ op_res ∷ op_res
    ∷ op_res ∷ op_c_f ∷ op_c_un ∷ op_c_eq ∷ op_c_ueq ∷ op_c_olt ∷ op_c_ult ∷ op_c_ole ∷ op_c_ule
    ∷ op_c_sf ∷ op_c_ngle ∷ op_c_seq ∷ op_c_ngl ∷ op_c_lt ∷ op_c_nge ∷ op_c_le ∷ op_c_ngt ∷ []

abbrev pub mips_zero_extend_opcode : Opcode → Bool
mips_zero_extend_opcode op_andi = true
mips_zero_extend_opcode op_ori = true
mips_zero_extend_opcode op_xori = true
mips_zero_extend_opcode _ = false

abbrev pub mips_encoding_get_rs : ℕ → ℕ
mips_encoding_get_rs word = word / 2 ^ 21 % 2 ^ 5

abbrev pub mips_encoding_get_rt : ℕ → ℕ
mips_encoding_get_rt word = word / 2 ^ 16 % 2 ^ 5

abbrev pub mips_encoding_get_rd : ℕ → ℕ
mips_encoding_get_rd word = word / 2 ^ 11 % 2 ^ 5

abbrev pub mips_encoding_get_cp1_func : ℕ → ℕ
mips_encoding_get_cp1_func word = word % 2 ^ 6

abbrev pub mips_int_to_fpu_reg : ℕ → ℕ
mips_int_to_fpu_reg v = v + r_f0

abbrev pub mips_cp1_fmt_is_double : ℕ → Bool
mips_cp1_fmt_is_double fmt = fmt % 2 == 1
