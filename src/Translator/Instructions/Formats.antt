-- ===== src/Translator/Instructions/Formats.antt =====
-- ifmt.cc, rfmt.cc and muldiv.cc: the code of an instruction stores what the instruction computes.
use cibyl.Base.{
  ℕ, ◌-◌, ◌%◌, ◌^◌, ◌≤◌, ◌<◌, ◌≡◌, ◌≢◌, refl, ◌∙◌, subst, Bool, true, false, ◌&&◌, some, [], ◌∷◌,
  ◌++◌, ◌==◌, arith, ne→==,
}
use native.Mathlib.Nat.{div-le_self}
use cibyl.Base.Masks.{bit_and-fits, bit_or-fits, bit_xor-fits}
use cibyl.Base.Int.{ℤ, pos, negsuc}
use cibyl.Translator.Mips.{r_mem}
use cibyl.Translator.Registers.{RegisterAllocator, at}
use cibyl.Translator.Emit.{
  Insn, iadd, isub, iand, ior, ixor, ishl, ishr, iushr, bc_pushconst, bc_pushregister,
  bc_popregister,
}
use cibyl.Translator.Jvm.{int, Machine, two32, to_word, shift_right, step}
use cibyl.Translator.Run.{Holds, IsInt}
use cibyl.Translator.Writes.{Runs}
use cibyl.Translator.Instructions.{rfmt_pass2, shift_pass2, shift_v_pass2, ifmt_pass2}
use cibyl.Translator.Instructions.Semantics.{operation, is_operation}
use cibyl.Translator.Instructions.Stack.{
  Writable, stacked, run_register, run_const, run_one, Runs-store,
}

pub to_word-small : (z : ℤ) → to_word z < two32
to_word-small (pos n) = omega arith
to_word-small (negsuc n) = omega arith

shift_right-small : (a k : ℕ) → a < two32 → shift_right a k < two32
shift_right-small a k h = ground (arith, div-le_self a (2 ^ k), div-le_self (two32 - 1 - a) (2 ^ k))

-- The Java instruction computes what the operation of MIPS does, within 32 digits.
pub step-operation :
    (i : Insn) (m : Machine) (a b : ℕ)
    → is_operation i ≡ true
    → step i (stacked m (int b ∷ int a ∷ [])) ≡ some (stacked m (int (operation i a b) ∷ []))
unfolding step operation
step-operation iadd m a b e = refl
step-operation isub m a b e = refl
step-operation iand m a b e = refl
step-operation ior m a b e = refl
step-operation ixor m a b e = refl
step-operation ishl m a b e = refl
step-operation ishr m a b e = refl
step-operation iushr m a b e = refl
step-operation _ m a b e = cc

pub operation-small : (i : Insn) (a b : ℕ) → a < two32 → b < two32 → operation i a b < two32
unfolding operation
operation-small iadd a b h k = omega arith
operation-small isub a b h k = omega arith
operation-small iand a b h k = bit_and-fits 32 a b h k
operation-small ior a b h k = bit_or-fits 32 a b h k
operation-small ixor a b h k = bit_xor-fits 32 a b h k
operation-small ishl a b h k = omega arith
operation-small ishr a b h k = shift_right-small a (b % 32) h
operation-small iushr a b h k = omega (arith, div-le_self a (2 ^ (b % 32)))
operation-small _ a b h k = omega arith

pub no_nop : (a b c : Bool) → c ≡ false → (a && b && c) ≡ false
no_nop true true c e = e
no_nop true false c e = refl
no_nop false b c e = refl

module _ (regalloc : RegisterAllocator) (regs : ℕ → ℕ) (limit : ℕ) (m : Machine)
    (h : Holds regalloc regs m.locals) (room : 2 ≤ limit) where
  -- Two registers, an operation and a store.
  pub two_registers :
      (what : Insn) (a b r v : ℕ)
      → a ≢ r_mem
      → b ≢ r_mem
      → Writable regalloc r
      → v < two32
      → step what (stacked m (int (regs b) ∷ int (regs a) ∷ [])) ≡ some (stacked m (int v ∷ []))
      → Runs limit regalloc
          (bc_pushregister regalloc a
            ++ (bc_pushregister regalloc b ++ (what ∷ bc_popregister regalloc r)))
          (stacked m [])
          (at regs r v)
          m.memory
  two_registers what a b r v na nb w small does =
      let last = what ∷ bc_popregister regalloc r in
      Runs-store regalloc regs limit m h _ r v w small (
        run_register regalloc regs limit m h a (bc_pushregister regalloc b ++ last) [] na
          (omega arith)
        ∙ run_register regalloc regs limit m h b last (int (regs a) ∷ []) nb (omega arith)
        ∙ run_one regalloc regs limit m h what (bc_popregister regalloc r)
            (int (regs b) ∷ int (regs a) ∷ []) (int v ∷ []) does (omega arith))

  with_constant :
      (what : Insn) (a : ℕ) (z : ℤ) (r v : ℕ)
      → a ≢ r_mem
      → IsInt z
      → Writable regalloc r
      → v < two32
      → step what (stacked m (int (to_word z) ∷ int (regs a) ∷ [])) ≡ some (stacked m (int v ∷ []))
      → Runs limit regalloc
          (bc_pushregister regalloc a ++ (bc_pushconst z ++ (what ∷ bc_popregister regalloc r)))
          (stacked m [])
          (at regs r v)
          m.memory
  with_constant what a z r v na small_z w small does =
      let last = what ∷ bc_popregister regalloc r in
      Runs-store regalloc regs limit m h _ r v w small (
        run_register regalloc regs limit m h a (bc_pushconst z ++ last) [] na (omega arith)
        ∙ run_const regalloc regs limit m h z last (int (regs a) ∷ []) small_z (omega arith)
        ∙ run_one regalloc regs limit m h what (bc_popregister regalloc r)
            (int (to_word z) ∷ int (regs a) ∷ []) (int v ∷ []) does (omega arith))

  pub one_register :
      (a r : ℕ)
      → a ≢ r_mem
      → Writable regalloc r
      → Runs limit regalloc
          (bc_pushregister regalloc a ++ bc_popregister regalloc r)
          (stacked m [])
          (at regs r (regs a))
          m.memory
  one_register a r na w =
      Runs-store regalloc regs limit m h _ r (regs a) w (h.word_size a)
        (run_register regalloc regs limit m h a (bc_popregister regalloc r) [] na (omega arith))

  pub rfmt_pass2_lem :
      (what : Insn) (rs rt rd : ℕ)
      → is_operation what ≡ true
      → rs ≢ r_mem
      → rt ≢ r_mem
      → Writable regalloc rd
      → Runs limit regalloc
          (rfmt_pass2 regalloc what rs rt rd)
          (stacked m [])
          (at regs rd (operation what (regs rs) (regs rt)))
          m.memory
  unfolding rfmt_pass2
  rfmt_pass2_lem what rs rt rd e ns nt w =
      two_registers what rs rt rd (operation what (regs rs) (regs rt)) ns nt w
        (operation-small what (regs rs) (regs rt) (h.word_size rs) (h.word_size rt))
        (step-operation what m (regs rs) (regs rt) e)

  pub shift_v_pass2_lem :
      (what : Insn) (rs rt rd : ℕ)
      → is_operation what ≡ true
      → rs ≢ r_mem
      → rt ≢ r_mem
      → Writable regalloc rd
      → Runs limit regalloc
          (shift_v_pass2 regalloc what rs rt rd)
          (stacked m [])
          (at regs rd (operation what (regs rt) (regs rs)))
          m.memory
  unfolding shift_v_pass2
  shift_v_pass2_lem what rs rt rd e ns nt w =
      two_registers what rt rs rd (operation what (regs rt) (regs rs)) nt ns w
        (operation-small what (regs rt) (regs rs) (h.word_size rt) (h.word_size rs))
        (step-operation what m (regs rt) (regs rs) e)

  pub ifmt_pass2_lem :
      (what : Insn) (rs rt : ℕ) (extra : ℤ)
      → is_operation what ≡ true
      → IsInt extra
      → rs ≢ r_mem
      → Writable regalloc rt
      → Runs limit regalloc
          (ifmt_pass2 regalloc what rs rt extra)
          (stacked m [])
          (at regs rt (operation what (regs rs) (to_word extra)))
          m.memory
  unfolding ifmt_pass2
  ifmt_pass2_lem what rs rt extra e small ns w =
      with_constant what rs extra rt (operation what (regs rs) (to_word extra)) ns small w
        (operation-small what (regs rs) (to_word extra) (h.word_size rs) (to_word-small extra))
        (step-operation what m (regs rs) (to_word extra) e)

  pub shift_pass2_lem :
      (what : Insn) (rt rd extra : ℕ)
      → is_operation what ≡ true
      → extra < 32
      → rt ≢ r_mem
      → Writable regalloc rd
      → Runs limit regalloc
          (shift_pass2 regalloc what rt rd extra)
          (stacked m [])
          (at regs rd (operation what (regs rt) extra))
          m.memory
  unfolding shift_pass2 ifmt_pass2
  shift_pass2_lem what rt rd extra e small nt w =
      let word : extra % two32 ≡ extra = omega arith in
      let emits = no_nop (rt == 0) (extra == 0) (rd == 0) (ne→== rd 0 w.no_zero) in
      rw emits (
        subst
          (λ (k : ℕ).
            Runs limit regalloc (ifmt_pass2 regalloc what rt rd (pos extra)) (stacked m [])
              (at regs rd (operation what (regs rt) k)) m.memory)
          word (ifmt_pass2_lem what rt rd (pos extra) e (omega arith) nt w))
