-- ===== src/Translator/Instructions.antt =====
-- tools/translator/instruction.cc and instructions/: the instructions of MIPS, as the classes that
-- translate them.
--
-- A class is a constructor; its arguments are those of the class's constructor, less the address.
-- `Arithmetic` holds the classes of ifmt.cc, rfmt.cc, set.cc and muldiv.cc that neither branch nor
-- call the runtime. A register is its number.
pub mod Stack
pub mod Semantics
pub mod Formats
pub mod Special
pub mod Increment
pub mod Compare
pub mod Results
pub mod Multiply
pub mod Divide
use cibyl.Base.{
  ℕ, suc, ◌+◌, ◌-◌, ◌*◌, ◌%◌, ◌^◌, Bool, true, false, not, ◌&&◌, List, [], ◌∷◌, ◌++◌, ltb, leb,
  ◌==◌, if◌then◌else◌,
}
use cibyl.Base.Int.{ℤ, pos, negsuc, unsigned}
use cibyl.Translator.Mips.{r_zero, r_hi, r_lo}
use cibyl.Translator.Registers.{RegisterAllocator, reg_is_static}
use cibyl.Translator.Emit.{
  Insn, iadd, isub, imul, idiv, irem, ineg, ior, ixor, ishr, i2l, l2i, lcmp, land, lmul, lushr,
  dup2, bc_pushconst, bc_pushconst_u, bc_pushconst_l, bc_pushregister, bc_popregister, bc_iinc,
}

pub data Arithmetic : Type 0 where
  rfmt shift_v : (what : Insn) (rs rt rd : ℕ) → Arithmetic
  addu subu nor slt sltu : (rs rt rd : ℕ) → Arithmetic
  shift : (what : Insn) (rs rt rd : ℕ) (extra : ℕ) → Arithmetic
  ifmt : (what : Insn) (rs rt rd : ℕ) (extra : ℤ) → Arithmetic
  addi : (rs rt rd : ℕ) (extra : ℤ) → Arithmetic
  slti sltiu : (rs rt : ℕ) (extra : ℤ) → Arithmetic
  lui : (rt extra : ℕ) → Arithmetic
  mfxx : (rd src : ℕ) → Arithmetic
  mtxx : (rs dst : ℕ) → Arithmetic

-- The result of `signext_16`, from the low half.
abbrev pub signext_half : ℕ → ℤ
signext_half n = if ltb n (2 ^ 15) then pos n else negsuc (2 ^ 16 - 1 - n)

abbrev pub signext_16 : ℤ → ℤ
signext_16 extra = signext_half (unsigned extra % 2 ^ 16)

abbrev pub int_in : ℕ → ℤ → Bool
int_in bound (pos n) = ltb n bound
int_in bound (negsuc n) = ltb n bound

module _ (regalloc : RegisterAllocator) where
  unfoldable pub rfmt_pass2 : Insn → ℕ → ℕ → ℕ → List Insn
  rfmt_pass2 bc rs rt rd =
      bc_pushregister regalloc rs
      ++ (bc_pushregister regalloc rt ++ (bc ∷ bc_popregister regalloc rd))

  unfoldable pub addu_pass2 : ℕ → ℕ → ℕ → List Insn
  unfolding rfmt_pass2
  addu_pass2 rs rt rd =
      if rt == 0 && rs == 0 && rd == 0
      then []
      else if not (rt == 0) && not (rs == 0)
      then rfmt_pass2 iadd rs rt rd
      else (if rt == 0 then bc_pushregister regalloc rs else bc_pushregister regalloc rt)
        ++ bc_popregister regalloc rd

  unfoldable pub subu_pass2 : ℕ → ℕ → ℕ → List Insn
  unfolding rfmt_pass2
  subu_pass2 rs rt rd =
      if rs == r_zero
      then bc_pushregister regalloc rt ++ (ineg ∷ bc_popregister regalloc rd)
      else rfmt_pass2 isub rs rt rd

  unfoldable pub nor_pass2 : ℕ → ℕ → ℕ → List Insn
  nor_pass2 rs rt rd =
      let invert = bc_pushconst (negsuc 0) ++ (ixor ∷ bc_popregister regalloc rd) in
      if not (rs == r_zero) && not (rt == r_zero)
      then bc_pushregister regalloc rs ++ (bc_pushregister regalloc rt ++ (ior ∷ invert))
      else if not (rs == r_zero)
      then bc_pushregister regalloc rs ++ invert
      else if not (rt == r_zero)
      then bc_pushregister regalloc rt ++ invert
      else bc_pushconst (negsuc 0) ++ bc_popregister regalloc rd

  unfoldable pub shift_pass2 : Insn → ℕ → ℕ → ℕ → List Insn
  shift_pass2 bc rt rd extra =
      if rt == 0 && extra == 0 && rd == 0
      then []
      else bc_pushregister regalloc rt
        ++ (bc_pushconst (pos extra) ++ (bc ∷ bc_popregister regalloc rd))

  unfoldable pub shift_v_pass2 : Insn → ℕ → ℕ → ℕ → List Insn
  shift_v_pass2 bc rs rt rd =
      bc_pushregister regalloc rt
      ++ (bc_pushregister regalloc rs ++ (bc ∷ bc_popregister regalloc rd))

  unfoldable pub ifmt_pass2 : Insn → ℕ → ℕ → ℤ → List Insn
  ifmt_pass2 bc rs rt extra =
      bc_pushregister regalloc rs ++ (bc_pushconst extra ++ (bc ∷ bc_popregister regalloc rt))

  unfoldable pub addi_pass2 : ℕ → ℕ → ℤ → List Insn
  unfolding ifmt_pass2
  addi_pass2 rs rt extra =
      let low = signext_16 extra in
      if rs == r_zero
      then bc_pushconst extra ++ bc_popregister regalloc rt
      else if rt == rs && int_in 32768 low && not (reg_is_static regalloc rt)
      then bc_iinc regalloc rt low
      else ifmt_pass2 iadd rs rt extra

  unfoldable pub lui_pass2 : ℕ → ℕ → List Insn
  lui_pass2 rt extra =
      bc_pushconst_u (extra % 2 ^ 16 * 2 ^ 16 % 2 ^ 32) ++ bc_popregister regalloc rt

  -- The end of the four tests: 1 where the comparison left 1, and 0 otherwise.
  unfoldable pub is_above : ℕ → List Insn
  is_above rd =
      lcmp
      ∷ (bc_pushconst (pos 1)
          ++ (iadd ∷ (bc_pushconst (pos 1) ++ (ishr ∷ bc_popregister regalloc rd))))

  unfoldable pub slt_pass2 : ℕ → ℕ → ℕ → List Insn
  slt_pass2 rs rt rd =
      bc_pushregister regalloc rt ++ (i2l ∷ (bc_pushregister regalloc rs ++ (i2l ∷ is_above rd)))

  unfoldable pub sltu_pass2 : ℕ → ℕ → ℕ → List Insn
  sltu_pass2 rs rt rd =
      bc_pushregister regalloc rt
      ++ (i2l
          ∷ (bc_pushconst_l (2 ^ 32 - 1)
              ++ (land
                  ∷ (bc_pushregister regalloc rs
                      ++ (i2l ∷ (bc_pushconst_l (2 ^ 32 - 1) ++ (land ∷ is_above rd)))))))

  unfoldable pub slti_pass2 : ℕ → ℕ → ℤ → List Insn
  slti_pass2 rs rt extra =
      bc_pushconst extra ++ (i2l ∷ (bc_pushregister regalloc rs ++ (i2l ∷ is_above rt)))

  unfoldable pub sltiu_pass2 : ℕ → ℕ → ℤ → List Insn
  sltiu_pass2 rs rt extra =
      bc_pushconst_l (unsigned extra)
      ++ (bc_pushregister regalloc rs
          ++ (i2l ∷ (bc_pushconst_l (2 ^ 32 - 1) ++ (land ∷ is_above rt))))

  unfoldable pub mfxx_pass2 : ℕ → ℕ → List Insn
  mfxx_pass2 rd src = bc_pushregister regalloc src ++ bc_popregister regalloc rd

  unfoldable pub mtxx_pass2 : ℕ → ℕ → List Insn
  mtxx_pass2 rs dst = bc_pushregister regalloc rs ++ bc_popregister regalloc dst

  -- The virtual call of `pass2`.
  abbrev pub pass2 : Arithmetic → List Insn
  pass2 (rfmt what rs rt rd) = rfmt_pass2 what rs rt rd
  pass2 (shift_v what rs rt rd) = shift_v_pass2 what rs rt rd
  pass2 (addu rs rt rd) = addu_pass2 rs rt rd
  pass2 (subu rs rt rd) = subu_pass2 rs rt rd
  pass2 (nor rs rt rd) = nor_pass2 rs rt rd
  pass2 (slt rs rt rd) = slt_pass2 rs rt rd
  pass2 (sltu rs rt rd) = sltu_pass2 rs rt rd
  pass2 (shift what rs rt rd extra) = shift_pass2 what rt rd extra
  pass2 (ifmt what rs rt rd extra) = ifmt_pass2 what rs rt extra
  pass2 (addi rs rt rd extra) = addi_pass2 rs rt extra
  pass2 (slti rs rt extra) = slti_pass2 rs rt extra
  pass2 (sltiu rs rt extra) = sltiu_pass2 rs rt extra
  pass2 (lui rt extra) = lui_pass2 rt extra
  pass2 (mfxx rd src) = mfxx_pass2 rd src
  pass2 (mtxx rs dst) = mtxx_pass2 rs dst

  unfoldable pub mult_pass2 : Bool → Bool → ℕ → ℕ → List Insn
  mult_pass2 using_lo using_hi rs rt =
      if using_lo && not using_hi
      then bc_pushregister regalloc rs
        ++ (bc_pushregister regalloc rt ++ (imul ∷ bc_popregister regalloc r_lo))
      else bc_pushregister regalloc rs
        ++ (i2l
            ∷ (bc_pushregister regalloc rt
                ++ (i2l
                    ∷ (lmul
                        ∷ (dup2
                            ∷ (bc_pushconst (pos 32)
                                ++ (lushr
                                    ∷ (l2i
                                        ∷ (bc_popregister regalloc r_hi
                                            ++ (l2i ∷ bc_popregister regalloc r_lo))))))))))

  unfoldable pub div_pass2 : Bool → Bool → ℕ → ℕ → List Insn
  div_pass2 using_lo using_hi rs rt =
      if using_lo && not using_hi
      then bc_pushregister regalloc rs
        ++ (bc_pushregister regalloc rt ++ (idiv ∷ bc_popregister regalloc r_lo))
      else if not using_lo && using_hi
      then bc_pushregister regalloc rs
        ++ (bc_pushregister regalloc rt ++ (irem ∷ bc_popregister regalloc r_hi))
      else bc_pushregister regalloc rs
        ++ (bc_pushregister regalloc rt
            ++ (dup2
                ∷ (idiv ∷ (bc_popregister regalloc r_lo ++ (irem ∷ bc_popregister regalloc r_hi)))))

abbrev pub max_stack_height : Arithmetic → ℕ
max_stack_height (sltu rs rt rd) = 6
max_stack_height (sltiu rs rt extra) = 6
max_stack_height _ = 2
