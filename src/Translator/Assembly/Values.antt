-- ===== src/Translator/Assembly/Values.antt =====
-- What the instructions of MIPS write to their targets, as the manual of the processor gives it,
-- and what their classes compute.
use Prim.Native.Nat.{bit_xor}
use cibyl.Base.{
  ℕ, ◌-◌, ◌*◌, ◌/◌, ◌%◌, bit_and, bit_or, if◌then◌else◌, ◌+◌, ◌^◌, ◌<◌, ◌≡◌, refl, ap, ltb, arith,
  Bool-cases, inl, inr,
}
use cibyl.Base.Int.{pos, unsigned}
use cibyl.Translator.Jvm.{two32, to_word, shift_right}
use cibyl.Translator.Instructions.{signext_half}
use cibyl.Translator.Instructions.Semantics.{operation, less_signed, bit, result}
use cibyl.Translator.Assembly.{
  RegisterOperation, add_r, addu_r, sub_r, subu_r, and_r, or_r, xor_r, nor_r, slt_r, sltu_r, sllv_r,
  srlv_r, srav_r, ShiftOperation, sll_s, srl_s, sra_s, ImmediateOperation, addi_i, addiu_i, slti_i,
  sltiu_i, andi_i, ori_i, xori_i, lui_i, Assembly, register, shifted, immediate, access, r_class,
  s_class, i_class,
}

-- What the manual of the processor says that each instruction writes to its target.
abbrev pub r_value : RegisterOperation → (a b : ℕ) → ℕ
r_value add_r a b = (a + b) % two32
r_value addu_r a b = (a + b) % two32
r_value sub_r a b = (a + two32 - b) % two32
r_value subu_r a b = (a + two32 - b) % two32
r_value and_r a b = bit_and a b
r_value or_r a b = bit_or a b
r_value xor_r a b = bit_xor a b
r_value nor_r a b = two32 - 1 - bit_or a b
r_value slt_r a b = bit (less_signed a b)
r_value sltu_r a b = bit (ltb a b)
r_value sllv_r a b = b * 2 ^ (a % 32) % two32
r_value srlv_r a b = b / 2 ^ (a % 32)
r_value srav_r a b = shift_right b (a % 32)

abbrev pub s_value : ShiftOperation → (b amount : ℕ) → ℕ
s_value sll_s b amount = b * 2 ^ amount % two32
s_value srl_s b amount = b / 2 ^ amount
s_value sra_s b amount = shift_right b amount

-- The constant of 16 bits with its sign, as a word.
abbrev pub sign_extended : ℕ → ℕ
sign_extended half = if ltb half (2 ^ 15) then half else half + (2 ^ 32 - 2 ^ 16)

abbrev pub i_value : ImmediateOperation → (a half : ℕ) → ℕ
i_value addi_i a half = (a + sign_extended half) % two32
i_value addiu_i a half = (a + sign_extended half) % two32
i_value slti_i a half = bit (less_signed a (sign_extended half))
i_value sltiu_i a half = bit (ltb a (sign_extended half))
i_value andi_i a half = bit_and a half
i_value ori_i a half = bit_or a half
i_value xori_i a half = bit_xor a half
i_value lui_i a half = half * 2 ^ 16

unfoldable pub value : (ℕ → ℕ) → Assembly → ℕ
value regs (register op rs rt rd) = r_value op (regs rs) (regs rt)
value regs (shifted op rt rd amount) = s_value op (regs rt) amount
value regs (immediate op rs rt half) = i_value op (regs rs) half
value regs (access op rs rt half) = 0

pub r_class-result :
    (regs : ℕ → ℕ) (op : RegisterOperation) (rs rt rd : ℕ)
    → result regs (r_class op rs rt rd) ≡ r_value op (regs rs) (regs rt)
unfolding result operation
r_class-result regs add_r rs rt rd = refl
r_class-result regs addu_r rs rt rd = refl
r_class-result regs sub_r rs rt rd = refl
r_class-result regs subu_r rs rt rd = refl
r_class-result regs and_r rs rt rd = refl
r_class-result regs or_r rs rt rd = refl
r_class-result regs xor_r rs rt rd = refl
r_class-result regs nor_r rs rt rd = refl
r_class-result regs slt_r rs rt rd = refl
r_class-result regs sltu_r rs rt rd = refl
r_class-result regs sllv_r rs rt rd = refl
r_class-result regs srlv_r rs rt rd = refl
r_class-result regs srav_r rs rt rd = refl

pub s_class-result :
    (regs : ℕ → ℕ) (op : ShiftOperation) (rt rd amount : ℕ)
    → amount < 32
    → result regs (s_class op rt rd amount) ≡ s_value op (regs rt) amount
unfolding result operation
s_class-result regs sll_s rt rd amount h = let e : amount % 32 ≡ amount = omega arith in rw e refl
s_class-result regs srl_s rt rd amount h = let e : amount % 32 ≡ amount = omega arith in rw e refl
s_class-result regs sra_s rt rd amount h = let e : amount % 32 ≡ amount = omega arith in rw e refl

to_word-signext : (half : ℕ) → half < 2 ^ 16 → to_word (signext_half half) ≡ sign_extended half
to_word-signext half h = elim (Bool-cases (ltb half (2 ^ 15))) [
  | inl e ↦ rw e (ground arith)
  | inr e ↦ rw e (ground arith)
]

lui_half : (half : ℕ) → half < 2 ^ 16 → unsigned (signext_half half) % 2 ^ 16 ≡ half
lui_half half h = elim (Bool-cases (ltb half (2 ^ 15))) [
  | inl e ↦ rw e (ground arith)
  | inr e ↦ rw e (ground arith)
]

pub i_class-result :
    (regs : ℕ → ℕ) (op : ImmediateOperation) (rs rt half : ℕ)
    → half < 2 ^ 16
    → result regs (i_class op rs rt half) ≡ i_value op (regs rs) half
unfolding result operation
i_class-result regs addi_i rs rt half h = ap (λ n. (regs rs + n) % two32) (to_word-signext half h)
i_class-result regs addiu_i rs rt half h = ap (λ n. (regs rs + n) % two32) (to_word-signext half h)
i_class-result regs slti_i rs rt half h =
    ap (λ n. bit (less_signed (regs rs) n)) (to_word-signext half h)
i_class-result regs sltiu_i rs rt half h = ap (λ n. bit (ltb (regs rs) n)) (to_word-signext half h)
i_class-result regs andi_i rs rt half h =
    let e : to_word (pos half) ≡ half = ground arith in rw e refl
i_class-result regs ori_i rs rt half h =
    let e : to_word (pos half) ≡ half = ground arith in rw e refl
i_class-result regs xori_i rs rt half h =
    let e : to_word (pos half) ≡ half = ground arith in rw e refl
i_class-result regs lui_i rs rt half h = ap (λ n. n * 2 ^ 16) (lui_half half h)
