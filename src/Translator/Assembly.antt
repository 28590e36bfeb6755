-- ===== src/Translator/Assembly.antt =====
-- The encodings of the integer instructions of MIPS but those that multiply, divide, use HI and LO
-- or access a part of an unaligned word, as the manual of the processor gives them, and the
-- translation of an instruction from its encoding to what its code does.
pub mod Decoding
pub mod Values
pub mod Translated
use cibyl.Base.{
  ℕ, zero, suc, ◌+◌, ◌-◌, ◌*◌, ◌/◌, ◌%◌, ◌^◌, ◌≤◌, ◌<◌, ◌≡◌, ◌≢◌, refl, sym, ap, ap₂, ◌∙◌, Bool,
  true, false, Option, some, [], ltb, arith, if◌then◌else◌, ne→==, ◌==◌,
}
use cibyl.Base.Int.{ℤ, pos, negsuc, pos_part, unsigned}
use cibyl.Translator.Mips.{r_zero, r_hi, r_lo, r_mem}
use cibyl.Translator.Emit.{Insn, iadd, isub, iand, ior, ixor, ishl, ishr, iushr}
use cibyl.Translator.Instructions.{
  Arithmetic, rfmt, shift_v, addu, subu, nor, slt, sltu, shift, ifmt, addi, slti, sltiu, lui, mfxx,
  mtxx, signext_half,
}
use cibyl.Translator.Decode.{
  Instruction, arithmetic, mult, multu, div, divu, lw, sw, lb, lbu, lh, lhu, sb, sh, jr, Fields,
  fields, create, decode, class_of,
}

pub data RegisterOperation : Type 0 where
  add_r addu_r sub_r subu_r and_r or_r xor_r nor_r slt_r sltu_r sllv_r srlv_r srav_r :
      RegisterOperation

pub data ShiftOperation : Type 0 where
  sll_s srl_s sra_s : ShiftOperation

pub data ImmediateOperation : Type 0 where
  addi_i addiu_i slti_i sltiu_i andi_i ori_i xori_i lui_i : ImmediateOperation

pub data MemoryOperation : Type 0 where
  lb_m lh_m lw_m lbu_m lhu_m sb_m sh_m sw_m : MemoryOperation

pub data Assembly : Type 0 where
  register : RegisterOperation → (rs rt rd : ℕ) → Assembly
  shifted : ShiftOperation → (rt rd amount : ℕ) → Assembly
  immediate : ImmediateOperation → (rs rt half : ℕ) → Assembly
  access : MemoryOperation → (rs rt half : ℕ) → Assembly

abbrev pub r_word : (rs rt rd amount func : ℕ) → ℕ
r_word rs rt rd amount func = rs * 2 ^ 21 + rt * 2 ^ 16 + rd * 2 ^ 11 + amount * 2 ^ 6 + func

abbrev pub i_word : (major rs rt half : ℕ) → ℕ
i_word major rs rt half = major * 2 ^ 26 + rs * 2 ^ 21 + rt * 2 ^ 16 + half

abbrev pub r_func : RegisterOperation → ℕ
r_func sllv_r = 4
r_func srlv_r = 6
r_func srav_r = 7
r_func add_r = 32
r_func addu_r = 33
r_func sub_r = 34
r_func subu_r = 35
r_func and_r = 36
r_func or_r = 37
r_func xor_r = 38
r_func nor_r = 39
r_func slt_r = 42
r_func sltu_r = 43

abbrev pub s_func : ShiftOperation → ℕ
s_func sll_s = 0
s_func srl_s = 2
s_func sra_s = 3

abbrev pub i_major : ImmediateOperation → ℕ
i_major addi_i = 8
i_major addiu_i = 9
i_major slti_i = 10
i_major sltiu_i = 11
i_major andi_i = 12
i_major ori_i = 13
i_major xori_i = 14
i_major lui_i = 15

abbrev pub m_major : MemoryOperation → ℕ
m_major lb_m = 32
m_major lh_m = 33
m_major lw_m = 35
m_major lbu_m = 36
m_major lhu_m = 37
m_major sb_m = 40
m_major sh_m = 41
m_major sw_m = 43

abbrev pub encode : Assembly → ℕ
encode (register op rs rt rd) = r_word rs rt rd 0 (r_func op)
encode (shifted op rt rd amount) = r_word 0 rt rd amount (s_func op)
encode (immediate op rs rt half) = i_word (i_major op) rs rt half
encode (access op rs rt half) = i_word (m_major op) rs rt half

-- The class for each, with its operands.
abbrev pub r_class : RegisterOperation → (rs rt rd : ℕ) → Arithmetic
r_class add_r rs rt rd = rfmt iadd rs rt rd
r_class addu_r rs rt rd = addu rs rt rd
r_class sub_r rs rt rd = rfmt isub rs rt rd
r_class subu_r rs rt rd = subu rs rt rd
r_class and_r rs rt rd = rfmt iand rs rt rd
r_class or_r rs rt rd = rfmt ior rs rt rd
r_class xor_r rs rt rd = rfmt ixor rs rt rd
r_class nor_r rs rt rd = nor rs rt rd
r_class slt_r rs rt rd = slt rs rt rd
r_class sltu_r rs rt rd = sltu rs rt rd
r_class sllv_r rs rt rd = shift_v ishl rs rt rd
r_class srlv_r rs rt rd = shift_v iushr rs rt rd
r_class srav_r rs rt rd = shift_v ishr rs rt rd

abbrev pub s_class : ShiftOperation → (rt rd amount : ℕ) → Arithmetic
s_class sll_s rt rd amount = shift ishl 0 rt rd amount
s_class srl_s rt rd amount = shift iushr 0 rt rd amount
s_class sra_s rt rd amount = shift ishr 0 rt rd amount

-- The field of `rd` is in the constant, and no class of this format reads it.
abbrev pub i_class : ImmediateOperation → (rs rt half : ℕ) → Arithmetic
i_class addi_i rs rt half = addi rs rt (half / 2 ^ 11) (signext_half half)
i_class addiu_i rs rt half = addi rs rt (half / 2 ^ 11) (signext_half half)
i_class slti_i rs rt half = slti rs rt (signext_half half)
i_class sltiu_i rs rt half = sltiu rs rt (signext_half half)
i_class andi_i rs rt half = ifmt iand rs rt (half / 2 ^ 11) (pos half)
i_class ori_i rs rt half = ifmt ior rs rt (half / 2 ^ 11) (pos half)
i_class xori_i rs rt half = ifmt ixor rs rt (half / 2 ^ 11) (pos half)
i_class lui_i rs rt half = lui rt (unsigned (signext_half half))

abbrev pub m_class : MemoryOperation → (rs rt : ℕ) → ℤ → Instruction
m_class lb_m rs rt extra = lb rs rt extra
m_class lh_m rs rt extra = lh rs rt extra
m_class lw_m rs rt extra = lw rs rt extra
m_class lbu_m rs rt extra = lbu rs rt extra
m_class lhu_m rs rt extra = lhu rs rt extra
m_class sb_m rs rt extra = sb rs rt extra
m_class sh_m rs rt extra = sh rs rt extra
m_class sw_m rs rt extra = sw rs rt extra

abbrev pub class : Assembly → Instruction
class (register op rs rt rd) = arithmetic (r_class op rs rt rd)
class (shifted op rt rd amount) = arithmetic (s_class op rt rd amount)
class (immediate op rs rt half) = arithmetic (i_class op rs rt half)
class (access op rs rt half) = m_class op rs rt (signext_half half)

-- The operands are within their fields.
abbrev pub IsEncodable : Assembly → Type 0
IsEncodable (register op rs rt rd) = (rs < 32) × (rt < 32) × (rd < 32)
IsEncodable (shifted op rt rd amount) = (rt < 32) × (rd < 32) × (amount < 32)
IsEncodable (immediate op rs rt half) = (rs < 32) × (rt < 32) × (half < 2 ^ 16)
IsEncodable (access op rs rt half) = (rs < 32) × (rt < 32) × (half < 2 ^ 16)
