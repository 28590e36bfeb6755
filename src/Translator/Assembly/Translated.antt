-- ===== src/Translator/Assembly/Translated.antt =====
-- From the encoding of an instruction to the effect of its code.
use cibyl.Base.{
  ℕ, ◌+◌, ◌^◌, ◌<◌, ◌≡◌, ◌≢◌, refl, sym, ap, subst, ◌∙◌, some, [], ltb, arith, Bool-cases, inl, inr,
}
use cibyl.Base.Int.{ℤ, pos, negsuc}
use cibyl.Translator.Mips.{r_mem}
use cibyl.Translator.Registers.{RegisterAllocator, at}
use cibyl.Translator.Jvm.{Machine}
use cibyl.Translator.Run.{Holds, IsInt}
use cibyl.Translator.Writes.{Runs}
use cibyl.Translator.Instructions.{Arithmetic, pass2, max_stack_height, signext_half}
use cibyl.Translator.Instructions.Semantics.{destination, result}
use cibyl.Translator.Instructions.Stack.{Writable, stacked}
use cibyl.Translator.Instructions.Increment.{IsHalf}
use cibyl.Translator.Instructions.Results.{IsProper, pass2-result}
use cibyl.Translator.Decode.{arithmetic, create}
use cibyl.Translator.Assembly.{
  RegisterOperation, add_r, addu_r, sub_r, subu_r, and_r, or_r, xor_r, nor_r, slt_r, sltu_r, sllv_r,
  srlv_r, srav_r, ShiftOperation, sll_s, srl_s, sra_s, ImmediateOperation, addi_i, addiu_i, slti_i,
  sltiu_i, andi_i, ori_i, xori_i, lui_i, Assembly, register, shifted, immediate, access, encode,
  r_class, s_class, i_class, class, IsEncodable,
}
use cibyl.Translator.Assembly.Values.{value, r_class-result, s_class-result, i_class-result}
use cibyl.Translator.Assembly.Decoding.{create-encode}

general : (r : ℕ) → r < 32 → r ≢ r_mem
general r h e = omega arith

signext_half-IsHalf : (n : ℕ) → n < 2 ^ 16 → IsHalf (signext_half n)
signext_half-IsHalf n h = elim (Bool-cases (ltb n (2 ^ 15))) [
  | inl e ↦ rw e (ground arith)
  | inr e ↦ rw e (ground arith)
]

IsHalf-IsInt : (z : ℤ) → IsHalf z → IsInt z
IsHalf-IsInt (pos n) h = omega arith
IsHalf-IsInt (negsuc n) h = omega arith

r_class-IsProper :
    (op : RegisterOperation) (rs rt rd : ℕ) → rs < 32 → rt < 32 → IsProper (r_class op rs rt rd)
r_class-IsProper add_r rs rt rd a b = (refl, general rs a, general rt b)
r_class-IsProper addu_r rs rt rd a b = (general rs a, general rt b)
r_class-IsProper sub_r rs rt rd a b = (refl, general rs a, general rt b)
r_class-IsProper subu_r rs rt rd a b = (general rs a, general rt b)
r_class-IsProper and_r rs rt rd a b = (refl, general rs a, general rt b)
r_class-IsProper or_r rs rt rd a b = (refl, general rs a, general rt b)
r_class-IsProper xor_r rs rt rd a b = (refl, general rs a, general rt b)
r_class-IsProper nor_r rs rt rd a b = (general rs a, general rt b)
r_class-IsProper slt_r rs rt rd a b = (general rs a, general rt b)
r_class-IsProper sltu_r rs rt rd a b = (general rs a, general rt b)
r_class-IsProper sllv_r rs rt rd a b = (refl, general rs a, general rt b)
r_class-IsProper srlv_r rs rt rd a b = (refl, general rs a, general rt b)
r_class-IsProper srav_r rs rt rd a b = (refl, general rs a, general rt b)

s_class-IsProper :
    (op : ShiftOperation) (rt rd amount : ℕ)
    → rt < 32
    → amount < 32
    → IsProper (s_class op rt rd amount)
s_class-IsProper sll_s rt rd amount b d = (refl, d, general rt b)
s_class-IsProper srl_s rt rd amount b d = (refl, d, general rt b)
s_class-IsProper sra_s rt rd amount b d = (refl, d, general rt b)

i_class-IsProper :
    (op : ImmediateOperation) (rs rt half : ℕ)
    → rs < 32
    → half < 2 ^ 16
    → IsProper (i_class op rs rt half)
i_class-IsProper addi_i rs rt half a d = (signext_half-IsHalf half d, general rs a)
i_class-IsProper addiu_i rs rt half a d = (signext_half-IsHalf half d, general rs a)
i_class-IsProper slti_i rs rt half a d =
    (IsHalf-IsInt (signext_half half) (signext_half-IsHalf half d), general rs a)
i_class-IsProper sltiu_i rs rt half a d = general rs a
i_class-IsProper andi_i rs rt half a d = (refl, omega arith, general rs a)
i_class-IsProper ori_i rs rt half a d = (refl, omega arith, general rs a)
i_class-IsProper xori_i rs rt half a d = (refl, omega arith, general rs a)
i_class-IsProper lui_i rs rt half a d = tt

-- The instructions that compute.
abbrev pub IsComputing : Assembly → Type 0
IsComputing (access op rs rt half) = ⊥
IsComputing _ = Unit

abbrev pub target : Assembly → ℕ
target (register op rs rt rd) = rd
target (shifted op rt rd amount) = rd
target (immediate op rs rt half) = rt
target (access op rs rt half) = rt

r_class-destination :
    (op : RegisterOperation) (rs rt rd : ℕ) → destination (r_class op rs rt rd) ≡ rd
r_class-destination add_r rs rt rd = refl
r_class-destination addu_r rs rt rd = refl
r_class-destination sub_r rs rt rd = refl
r_class-destination subu_r rs rt rd = refl
r_class-destination and_r rs rt rd = refl
r_class-destination or_r rs rt rd = refl
r_class-destination xor_r rs rt rd = refl
r_class-destination nor_r rs rt rd = refl
r_class-destination slt_r rs rt rd = refl
r_class-destination sltu_r rs rt rd = refl
r_class-destination sllv_r rs rt rd = refl
r_class-destination srlv_r rs rt rd = refl
r_class-destination srav_r rs rt rd = refl

s_class-destination :
    (op : ShiftOperation) (rt rd amount : ℕ) → destination (s_class op rt rd amount) ≡ rd
s_class-destination sll_s rt rd amount = refl
s_class-destination srl_s rt rd amount = refl
s_class-destination sra_s rt rd amount = refl

i_class-destination :
    (op : ImmediateOperation) (rs rt half : ℕ) → destination (i_class op rs rt half) ≡ rt
i_class-destination addi_i rs rt half = refl
i_class-destination addiu_i rs rt half = refl
i_class-destination slti_i rs rt half = refl
i_class-destination sltiu_i rs rt half = refl
i_class-destination andi_i rs rt half = refl
i_class-destination ori_i rs rt half = refl
i_class-destination xori_i rs rt half = refl
i_class-destination lui_i rs rt half = refl

computes :
    (regs : ℕ → ℕ) (a : Assembly)
    → IsComputing a
    → IsEncodable a
    → (i : Arithmetic) × (class a ≡ arithmetic i)
      × (destination i ≡ target a)
      × (result regs i ≡ value regs a)
      × IsProper i
unfolding value
computes regs (register op rs rt rd) c (a, b, d) = (
  r_class op rs rt rd,
  refl,
  r_class-destination op rs rt rd,
  r_class-result regs op rs rt rd,
  r_class-IsProper op rs rt rd a b,
)
computes regs (shifted op rt rd amount) c (b, d, e) = (
  s_class op rt rd amount,
  refl,
  s_class-destination op rt rd amount,
  s_class-result regs op rt rd amount e,
  s_class-IsProper op rt rd amount b e,
)
computes regs (immediate op rs rt half) c (a, b, d) = (
  i_class op rs rt half,
  refl,
  i_class-destination op rs rt half,
  i_class-result regs op rs rt half d,
  i_class-IsProper op rs rt half a d,
)
computes regs (access op rs rt half) c e = elim c [ ]

-- An addition, a subtraction, a comparison, a bit operation, a shift or `lui`, given by its
-- encoding, is decoded to a class whose code runs on the Java machine within the stack that is
-- declared for it and leaves in the target what the manual of the processor says of the encoded
-- instruction, all else being as it was, when the register allocation holds the registers and the
-- target has a local variable and is neither the register zero nor the memory's. (`add`, `addi` and
-- `sub` are taken without their exception on overflow.)
pub create-pass2 :
    (regalloc : RegisterAllocator) (regs : ℕ → ℕ) (m : Machine) (a : Assembly)
    → IsComputing a
    → IsEncodable a
    → Holds regalloc regs m.locals
    → Writable regalloc (target a)
    → (i : Arithmetic) × (create (encode a) ≡ some (arithmetic i))
      × Runs
          (max_stack_height i + 2)
          regalloc
          (pass2 regalloc i)
          (stacked m [])
          (at regs (target a) (value regs a))
          m.memory
create-pass2 regalloc regs m a c e h w =
    let (i, same, place, is, proper) = computes regs a c e in
    let w' = subst (λ (r : ℕ). Writable regalloc r) (sym place) w in
    let at_target =
      subst
        (λ (r : ℕ).
          Runs (max_stack_height i + 2) regalloc (pass2 regalloc i) (stacked m [])
            (at regs r (result regs i)) m.memory)
        place (pass2-result regalloc regs m i h proper w') in
    (
      i,
      create-encode a e ∙ ap some same,
      subst
          (λ (n : ℕ).
            Runs (max_stack_height i + 2) regalloc (pass2 regalloc i) (stacked m [])
              (at regs (target a) n) m.memory)
          is at_target,
    )
