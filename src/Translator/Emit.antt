-- ===== src/Translator/Emit.antt =====
-- tools/translator/emit.cc: the instructions that the translator writes.
--
-- The output is the list of the instructions in it, a name in the assembler being a constructor.
-- The short forms of a load and a store are not told apart from the long ones, and the name of a
-- static variable is a number. A message to the programmer is `comment`.
use cibyl.Base.{
  ℕ, suc, ◌/◌, ◌%◌, Bool, false, not, ◌&&◌, Option, none, some, List, [], ◌∷◌, ◌++◌, leb, ◌==◌,
  if◌then◌else◌,
}
use cibyl.Base.Int.{ℤ, pos, negsuc}
use cibyl.Translator.Mips.{r_zero, r_mem}
use cibyl.Translator.Registers.{RegisterAllocator}

-- The routines of the runtime that the instructions call.
pub data Routine : Type 0 where
  byte byte_unsigned short short_unsigned word word_left : Routine

pub data Insn : Type 0 where
  iconst_m1 : Insn
  iconst : ℕ → Insn
  bipush sipush ldc : ℤ → Insn
  ldc2_w : ℕ → Insn
  iload istore aload astore : ℕ → Insn
  getstatic putstatic : ℕ → Insn
  iinc : ℕ → ℤ → Insn
  iadd isub imul idiv irem ineg iand ior ixor ishl ishr iushr : Insn
  i2l l2i lcmp land lmul lushr i2b i2c i2s : Insn
  dup2 dup_x2 swap iaload iastore : Insn
  memory_read memory_write memory_write_pc memory_read_jsr : Routine → Insn
  comment : Insn
  -- `iinc -1 extra`, which no assembler takes.
  iinc_nowhere : ℤ → Insn

-- The tests of `bc_pushconst`, for a constant that is not negative.
abbrev pub push_natural : ℕ → Insn
push_natural n =
    if leb n 5
    then iconst n
    else if leb n 127
    then bipush (pos n)
    else if leb n 32767
    then sipush (pos n)
    else ldc (pos n)

unfoldable pub bc_pushconst : ℤ → List Insn
bc_pushconst (pos n) = push_natural n ∷ []
bc_pushconst (negsuc n) =
    (if n == 0
      then iconst_m1
      else if leb n 127
      then bipush (negsuc n)
      else if leb n 32767
      then sipush (negsuc n)
      else ldc (negsuc n))
    ∷ []

unfoldable pub bc_pushconst_u : ℕ → List Insn
bc_pushconst_u val = push_natural val ∷ []

unfoldable pub bc_pushconst_l : ℕ → List Insn
bc_pushconst_l val = ldc2_w val ∷ []

-- `regToLocal`, when the register has one.
abbrev load_local : ℕ → Option ℕ → List Insn
load_local reg none = bc_pushconst (pos 0)
load_local reg (some l) =
    if reg == r_zero
    then bc_pushconst (pos 0)
    else if reg == r_mem
    then aload l ∷ []
    else iload l ∷ []

abbrev pub pushregister : ℕ → Option ℕ → Option ℕ → List Insn
pushregister reg (some name) local = getstatic name ∷ []
pushregister reg none local = load_local reg local

unfoldable pub bc_pushregister : RegisterAllocator → ℕ → List Insn
bc_pushregister regalloc reg =
    pushregister reg (regalloc.mips_to_static reg) (regalloc.mips_to_local reg)

-- The branch of an unallocated register only prints an error.
abbrev pub popregister : ℕ → Option ℕ → Option ℕ → List Insn
popregister reg (some name) local = putstatic name ∷ []
popregister reg none none = comment ∷ []
popregister reg none (some l) = if reg == r_mem then astore l ∷ [] else istore l ∷ []

unfoldable pub bc_popregister : RegisterAllocator → ℕ → List Insn
bc_popregister regalloc reg =
    popregister reg (regalloc.mips_to_static reg) (regalloc.mips_to_local reg)

-- `regToLocal` of a register without one is -1.
abbrev increment : Option ℕ → ℤ → List Insn
increment none extra = iinc_nowhere extra ∷ []
increment (some l) extra = iinc l extra ∷ []

unfoldable pub bc_iinc : RegisterAllocator → ℕ → ℤ → List Insn
bc_iinc regalloc reg extra = increment (regalloc.mips_to_local reg) extra

-- `extra % 4 != 0`, and `extra / 4` where it is.
abbrev pub by_four : ℤ → Bool
by_four (pos n) = n % 4 == 0
by_four (negsuc n) = suc n % 4 == 0

abbrev pub quarter : ℤ → ℤ
quarter (pos n) = pos (n / 4)
quarter (negsuc n) = negsuc (n / 4)

abbrev pub is_zero : ℤ → Bool
is_zero (pos n) = n == 0
is_zero (negsuc n) = false

unfoldable pub bc_pushaddress : RegisterAllocator → ℕ → ℤ → List Insn
unfolding bc_pushregister bc_pushconst
bc_pushaddress regalloc reg extra =
    bc_pushregister regalloc reg
    ++ (if is_zero extra then [] else bc_pushconst extra ++ (iadd ∷ []))

unfoldable pub bc_pushindex : RegisterAllocator → ℕ → ℤ → List Insn
unfolding bc_pushregister bc_pushconst
bc_pushindex regalloc reg extra =
    bc_pushregister regalloc reg
    ++ (if not (is_zero extra) && not (by_four extra)
        then bc_pushconst extra ++ (iadd ∷ (bc_pushconst (pos 2) ++ (iushr ∷ [])))
        else bc_pushconst (pos 2)
          ++ (iushr ∷ (if is_zero extra then [] else bc_pushconst (quarter extra) ++ (iadd ∷ []))))
