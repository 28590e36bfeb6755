-- ===== src/Translator/Memory.antt =====
-- tools/translator/instructions/memory.cc: loads and stores.
--
-- `Settings` holds the fields of `config` and of the instruction's method that the code reads. The
-- method of an instruction is found: otherwise the translator stops.
pub mod Index
pub mod Access
pub mod Loads
pub mod Stores
pub mod Parts
pub mod Bytes
use cibyl.Base.{
  ℕ, ◌+◌, ◌-◌, ◌^◌, Bool, true, false, not, ◌&&◌, ◌||◌, List, [], ◌∷◌, ◌++◌, ltb, ◌==◌,
  if◌then◌else◌,
}
use cibyl.Base.Int.{ℤ, pos, negsuc}
use cibyl.Translator.Mips.{r_ra, r_mem}
use cibyl.Translator.Registers.{RegisterAllocator}
use cibyl.Translator.Emit.{
  Insn, iadd, isub, iand, ior, ixor, ishl, iushr, i2b, i2c, i2s, dup2, dup_x2, swap, iaload,
  iastore, comment, Routine, word, memory_read, memory_write, memory_write_pc, memory_read_jsr,
  is_zero, bc_pushconst, bc_pushregister, bc_popregister, bc_pushindex, bc_pushaddress,
}

pub record Settings : Type 0 where
  pub optimize_partial_memory_ops : Bool
  pub optimize_inlines : Bool
  pub trace_stores : Bool
  pub has_multiple_functions : Bool
  pub bytecode_size : ℕ
  -- The method that was warned about last is not this one.
  pub other_warned : Bool

abbrev pub b_v : ℕ → ℕ
b_v word_size = if word_size == 16 then 2 else 3

abbrev pub mask_val : ℕ → ℕ
mask_val word_size = if word_size == 16 then 2 ^ 16 - 1 else 2 ^ 8 - 1

module _ (regalloc : RegisterAllocator) where
  unfoldable pub trace_store : Routine → ℕ → ℕ → ℤ → ℤ → List Insn
  trace_store bc rs rt extra pc =
      bc_pushconst pc
      ++ (bc_pushaddress regalloc rs extra
          ++ (bc_pushregister regalloc rt ++ (memory_write_pc bc ∷ [])))

  -- 8 times 3 less the place of a byte in its word, or 2 less that of a half.
  unfoldable pub push_shift : ℕ → ℕ → ℤ → List Insn
  push_shift b_v rs extra =
      bc_pushconst (pos b_v)
      ++ (bc_pushregister regalloc rs
          ++ ((if is_zero extra then [] else bc_pushconst extra ++ (iadd ∷ []))
              ++ (bc_pushconst (pos b_v)
                  ++ (iand ∷ (isub ∷ (bc_pushconst (pos 3) ++ (ishl ∷ [])))))))

  unfoldable pub convert : ℕ → Bool → List Insn
  convert word_size is_signed =
      if word_size == 8 && is_signed
      then i2b ∷ []
      else if word_size == 16 && not is_signed
      then i2c ∷ []
      else if word_size == 16 && is_signed
      then i2s ∷ []
      else bc_pushconst (pos (mask_val word_size)) ++ (iand ∷ [])

  -- The word on the stack, its shift above it, takes the low digits of a register.
  unfoldable pub replace_part : ℕ → ℕ → List Insn
  replace_part mask rt =
      dup_x2
      ∷ (ishl
          ∷ (bc_pushconst (negsuc 0)
              ++ (ixor
                  ∷ (iand
                      ∷ (swap
                          ∷ (bc_pushregister regalloc rt
                              ++ (bc_pushconst (pos mask)
                                  ++ (iand ∷ (swap ∷ (ishl ∷ (ior ∷ [])))))))))))

module _ (settings : Settings) (regalloc : RegisterAllocator) where
  -- `OP_LWL` and `OP_LWR` never call a subroutine.
  unfoldable pub load_xx_pass2 : Bool → Routine → ℕ → ℕ → ℤ → List Insn
  load_xx_pass2 is_partial_word bc rs rt extra =
      bc_pushaddress regalloc rs extra
      ++ ((if settings.optimize_partial_memory_ops && not is_partial_word
            then memory_read_jsr bc
            else memory_read bc)
          ∷ bc_popregister regalloc rt)

  unfoldable pub store_xx_pass2 : Routine → ℕ → ℕ → ℤ → ℤ → List Insn
  unfolding trace_store
  store_xx_pass2 bc rs rt extra pc =
      (if settings.trace_stores then trace_store regalloc bc rs rt extra pc else [])
      ++ (bc_pushaddress regalloc rs extra
          ++ (bc_pushregister regalloc rt ++ (memory_write bc ∷ [])))

  -- `prefix` is the code of the instruction's prefix.
  unfoldable pub lw_pass2 : List Insn → ℕ → ℕ → ℤ → List Insn
  lw_pass2 prefix rs rt extra =
      if rt == r_ra && not settings.has_multiple_functions
      then []
      else prefix
        ++ (bc_pushregister regalloc r_mem
            ++ (bc_pushindex regalloc rs extra ++ (iaload ∷ bc_popregister regalloc rt)))

  unfoldable pub sw_pass2 : List Insn → ℕ → ℕ → ℤ → ℤ → List Insn
  unfolding trace_store
  sw_pass2 prefix rs rt extra pc =
      if rt == r_ra && not settings.has_multiple_functions
      then []
      else (if settings.trace_stores then trace_store regalloc word rs rt extra pc else [])
        ++ (prefix
            ++ (bc_pushregister regalloc r_mem
                ++ (bc_pushindex regalloc rs extra
                    ++ (bc_pushregister regalloc rt ++ (iastore ∷ [])))))

  -- The warning of a method that is too large.
  abbrev warn : List Insn
  warn = if settings.other_warned then comment ∷ [] else []

  unfoldable pub partial_load_pass2 : List Insn → ℕ → Bool → Routine → ℕ → ℕ → ℤ → List Insn
  unfolding load_xx_pass2 push_shift convert
  partial_load_pass2 prefix word_size is_signed bc rs rt extra =
      if settings.optimize_partial_memory_ops || not settings.optimize_inlines
      then load_xx_pass2 false bc rs rt extra
      else if ltb 32768 settings.bytecode_size
      then warn ++ load_xx_pass2 false bc rs rt extra
      else if rt == r_ra && not settings.has_multiple_functions
      then []
      else prefix
        ++ (bc_pushregister regalloc r_mem
            ++ (bc_pushindex regalloc rs extra
                ++ (iaload
                    ∷ (push_shift regalloc (b_v word_size) rs extra
                        ++ (iushr
                            ∷ (convert regalloc word_size is_signed
                                ++ bc_popregister regalloc rt))))))

  unfoldable pub partial_store_pass2 : List Insn → ℕ → Routine → ℕ → ℕ → ℤ → ℤ → List Insn
  unfolding store_xx_pass2 push_shift replace_part
  partial_store_pass2 prefix word_size bc rs rt extra pc =
      if settings.optimize_partial_memory_ops || not settings.optimize_inlines
      then store_xx_pass2 bc rs rt extra pc
      else if ltb 32768 settings.bytecode_size
      then warn ++ store_xx_pass2 bc rs rt extra pc
      else if rt == r_ra && not settings.has_multiple_functions
      then []
      else prefix
        ++ (bc_pushregister regalloc r_mem
            ++ (bc_pushindex regalloc rs extra
                ++ (dup2
                    ∷ (iaload
                        ∷ (bc_pushconst (pos (mask_val word_size))
                            ++ (push_shift regalloc (b_v word_size) rs extra
                                ++ (replace_part regalloc (mask_val word_size) rt
                                    ++ (iastore ∷ []))))))))
