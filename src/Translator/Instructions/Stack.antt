-- ===== src/Translator/Instructions/Stack.antt =====
-- Steps of the Java machine from a stack that is written out.
use cibyl.Base.{
  ℕ, ◌+◌, ◌-◌, ◌%◌, ◌≤◌, ◌<◌, ◌≡◌, ◌≢◌, refl, ◌∙◌, true, some, List, [], ◌∷◌, ◌++◌, arith, bit_and,
  ltb,
}
use cibyl.Base.Masks.{bit_and_mask}
use cibyl.Base.Int.{ℤ}
use cibyl.Translator.Mips.{r_zero, r_mem}
use cibyl.Translator.Registers.{RegisterAllocator, at}
use cibyl.Translator.Emit.{
  Insn, bc_pushconst, bc_pushconst_l, bc_pushregister, bc_popregister, ldc2_w, land, i2l,
}
use cibyl.Translator.Jvm.{
  Value, int, long, Machine, two32, two64, to_word, i2l_bits, step, slots, exec,
}
use cibyl.Translator.Run.{Holds, IsInt, exec-one, exec-pushconst, exec-pushregister}
use cibyl.Translator.Writes.{Runs, Runs-popregister, Runs-after}

-- A register that an instruction may write.
pub record Writable (regalloc : RegisterAllocator) (r : ℕ) : Type 0 where
  pub local : ℕ
  pub has_local : regalloc.mips_to_local r ≡ some local
  pub no_zero : r ≢ r_zero
  pub no_mem : r ≢ r_mem

abbrev pub stacked : Machine → List Value → Machine
stacked m s = record m { stack = s }

module _ (regalloc : RegisterAllocator) (regs : ℕ → ℕ) (limit : ℕ) (m : Machine)
    (h : Holds regalloc regs m.locals) where
  pub run_register :
      (r : ℕ) (rest : List Insn) (s : List Value)
      → r ≢ r_mem
      → slots s + 1 ≤ limit
      → exec limit (bc_pushregister regalloc r ++ rest) (stacked m s)
        ≡ exec limit rest (stacked m (int (regs r) ∷ s))
  run_register r rest s no_mem room =
      exec-pushregister regalloc regs limit r rest (stacked m s) h no_mem room

  pub run_const :
      (z : ℤ) (rest : List Insn) (s : List Value)
      → IsInt z
      → slots s + 1 ≤ limit
      → exec limit (bc_pushconst z ++ rest) (stacked m s)
        ≡ exec limit rest (stacked m (int (to_word z) ∷ s))
  run_const z rest s small room = exec-pushconst limit z rest (stacked m s) small room

  pub run_long :
      (n : ℕ) (rest : List Insn) (s : List Value)
      → n < two32
      → slots s + 2 ≤ limit
      → exec limit (bc_pushconst_l n ++ rest) (stacked m s)
        ≡ exec limit rest (stacked m (long n ∷ s))
  unfolding bc_pushconst_l step
  run_long n rest s small room =
      let fits : ltb n two64 ≡ true = ground arith in
      exec-one limit (ldc2_w n) rest (stacked m s) (stacked m (long n ∷ s)) (rw fits refl)
        (omega arith)

  pub run_one :
      (i : Insn) (rest : List Insn) (s s' : List Value)
      → step i (stacked m s) ≡ some (stacked m s')
      → slots s' ≤ limit
      → exec limit (i ∷ rest) (stacked m s) ≡ exec limit rest (stacked m s')
  run_one i rest s s' does room = exec-one limit i rest (stacked m s) (stacked m s') does room

  -- A result is stored.
  pub Runs-store :
      (code : List Insn) (r v : ℕ)
      → Writable regalloc r
      → v < two32
      → exec limit code (stacked m [])
        ≡ exec limit (bc_popregister regalloc r) (stacked m (int v ∷ []))
      → Runs limit regalloc code (stacked m []) (at regs r v) m.memory
  Runs-store code r v w small run = Runs-after run refl (
      Runs-popregister regalloc regs limit r w.local v (stacked m (int v ∷ [])) h w.no_zero w.no_mem
        w.has_local small refl)

  -- The low half of a `long` that an `int` was widened to is the `int` again, without a sign.
  pub run_widen :
      (a : ℕ) (rest : List Insn) (s : List Value)
      → a < two32
      → slots s + 4 ≤ limit
      → exec limit (i2l ∷ (bc_pushconst_l (two32 - 1) ++ (land ∷ rest))) (stacked m (int a ∷ s))
        ≡ exec limit rest (stacked m (long a ∷ s))
  unfolding step
  run_widen a rest s small room =
      let masked : bit_and (i2l_bits a) (two32 - 1) ≡ a = bit_and_mask 32 (i2l_bits a) ∙ low_half in
      run_one i2l (bc_pushconst_l (two32 - 1) ++ (land ∷ rest)) (int a ∷ s) (long (i2l_bits a) ∷ s)
        refl (omega arith)
      ∙ run_long (two32 - 1) (land ∷ rest) (long (i2l_bits a) ∷ s) (omega arith) (omega arith)
      ∙ run_one land rest (long (two32 - 1) ∷ long (i2l_bits a) ∷ s) (long a ∷ s) (rw masked refl)
          (omega arith)
    where
      low_half : i2l_bits a % two32 ≡ a
      low_half = ground arith
