-- ===== src/Translator/Run.antt =====
-- What the pieces of code that tools/translator/emit.cc writes do on the Java machine.
use cibyl.Base.{
  ℕ, ◌+◌, ◌%◌, ◌^◌, ◌≤◌, ◌<◌, ◌≡◌, ◌≢◌, refl, ap, ◌∙◌, true, false, inl, inr, none, some, List, [],
  ◌∷◌, ◌++◌, ltb, leb, ◌==◌, arith, Bool-cases, Option-cases, ne→==, le→ltb,
}
use cibyl.Base.Int.{ℤ, pos, negsuc}
use cibyl.Translator.Mips.{r_zero, r_mem}
use cibyl.Translator.Registers.{RegisterAllocator}
use cibyl.Translator.Emit.{
  Insn, iconst_m1, iconst, bipush, sipush, ldc, iload, aload, bc_pushconst, bc_pushconst_u,
  bc_pushregister, push_natural,
}
use cibyl.Translator.Jvm.{Value, int, ref, Machine, two32, to_word, push, step, slots, exec}

pub exec-one :
    (limit : ℕ) (i : Insn) (rest : List Insn) (m out : Machine)
    → step i m ≡ some out
    → slots out.stack ≤ limit
    → exec limit (i ∷ rest) m ≡ exec limit rest out
unfolding exec
exec-one limit i rest m out h fits =
    let room : ltb limit (slots out.stack) ≡ false = le→ltb limit (slots out.stack) fits in
    rw (h, room) refl

abbrev pub IsInt : ℤ → Type 0
IsInt (pos n) = n < 2 ^ 31
IsInt (negsuc n) = n < 2 ^ 31

step-push_natural :
    (n : ℕ) (m : Machine) → n < two32 → step (push_natural n) m ≡ some (push m (int n))
unfolding step
step-push_natural n m h =
    let word : n % two32 ≡ n = omega arith in
    elim (Bool-cases (leb n 5)) [
      | inl e ↦ rw (e, e) refl
      | inr e ↦ elim (Bool-cases (leb n 127)) [
        | inl f ↦ let fits : ltb n 128 ≡ true = ground arith in rw (e, f, fits, word) refl
        | inr f ↦ elim (Bool-cases (leb n 32767)) [
          | inl g ↦ let fits : ltb n 32768 ≡ true = ground arith in rw (e, f, g, fits, word) refl
          | inr g ↦ let fits : ltb n two32 ≡ true = ground arith in rw (e, f, g, fits, word) refl
        ]
      ]
    ]

step-pushconst :
    (z : ℤ) (m : Machine)
    → IsInt z
    → (i : Insn) × (bc_pushconst z ≡ i ∷ []) × (step i m ≡ some (push m (int (to_word z))))
unfolding step bc_pushconst
step-pushconst (pos n) m h =
    let word : n % two32 ≡ n = omega arith in
    (push_natural n, refl, rw word (step-push_natural n m (omega arith)))
step-pushconst (negsuc n) m h = elim (Bool-cases (n == 0)) [
  | inl e ↦ let first : n ≡ 0 = ground arith in (iconst_m1, rw e refl, rw first refl)
  | inr e ↦ elim (Bool-cases (leb n 127)) [
    | inl f ↦
        let fits : ltb n 128 ≡ true = ground arith in
        (bipush (negsuc n), rw (e, f) refl, rw fits refl)
    | inr f ↦ elim (Bool-cases (leb n 32767)) [
      | inl g ↦
          let fits : ltb n 32768 ≡ true = ground arith in
          (sipush (negsuc n), rw (e, f, g) refl, rw fits refl)
      | inr g ↦
          let fits : ltb n (2 ^ 31) ≡ true = ground arith in
          (ldc (negsuc n), rw (e, f, g) refl, rw fits refl)
    ]
  ]
]

-- For every `int`, `bc_pushconst` writes an instruction whose operand is in the range that the Java
-- machine allows, and that pushes the number, if the stack has a free place.
pub exec-pushconst :
    (limit : ℕ) (z : ℤ) (rest : List Insn) (m : Machine)
    → IsInt z
    → slots m.stack + 1 ≤ limit
    → exec limit (bc_pushconst z ++ rest) m ≡ exec limit rest (push m (int (to_word z)))
exec-pushconst limit z rest m h room =
    let (i, code, run) = step-pushconst z m h in
    rw code (exec-one limit i rest m (push m (int (to_word z))) run (omega arith))

pub exec-pushconst_u :
    (limit n : ℕ) (rest : List Insn) (m : Machine)
    → n < two32
    → slots m.stack + 1 ≤ limit
    → exec limit (bc_pushconst_u n ++ rest) m ≡ exec limit rest (push m (int n))
unfolding bc_pushconst_u
exec-pushconst_u limit n rest m h room =
    exec-one limit (push_natural n) rest m (push m (int n)) (step-push_natural n m h) (omega arith)

-- The local variables hold these registers: `CRunTime.memory` under `R_MEM`, and a number
-- otherwise. A register that has no local variable is 0, as the register zero is.
pub record Holds (regalloc : RegisterAllocator) (regs : ℕ → ℕ) (locals : ℕ → Value) : Type 0 where
  pub no_static : (r : ℕ) → regalloc.mips_to_static r ≡ none
  pub distinct :
      (r s l : ℕ) → regalloc.mips_to_local r ≡ some l → regalloc.mips_to_local s ≡ some l → r ≡ s
  pub zero_is : regs r_zero ≡ 0
  pub unused : (r : ℕ) → regalloc.mips_to_local r ≡ none → regs r ≡ 0
  pub in_local : (r l : ℕ) → r ≢ r_mem → regalloc.mips_to_local r ≡ some l → locals l ≡ int (regs r)
  pub memory_in : (l : ℕ) → regalloc.mips_to_local r_mem ≡ some l → locals l ≡ ref
  pub word_size : (r : ℕ) → regs r < two32

module _ (regalloc : RegisterAllocator) (regs : ℕ → ℕ) (limit : ℕ) where
  exec-load_zero :
      (r : ℕ) (rest : List Insn) (m : Machine)
      → regs r ≡ 0
      → slots m.stack + 1 ≤ limit
      → exec limit (iconst 0 ∷ rest) m ≡ exec limit rest (push m (int (regs r)))
  unfolding step
  exec-load_zero r rest m e room =
      rw e (exec-one limit (iconst 0) rest m (push m (int 0)) refl (omega arith))

  pub exec-pushregister :
      (r : ℕ) (rest : List Insn) (m : Machine)
      → Holds regalloc regs m.locals
      → r ≢ r_mem
      → slots m.stack + 1 ≤ limit
      → exec limit (bc_pushregister regalloc r ++ rest) m ≡ exec limit rest (push m (int (regs r)))
  unfolding step bc_pushregister bc_pushconst
  exec-pushregister r rest m h no_mem room = elim (Option-cases (regalloc.mips_to_local r)) [
    | inl e ↦ rw (h.no_static r, e) (exec-load_zero r rest m (h.unused r e) room)
    | inr (l, e) ↦ elim (Bool-cases (r == r_zero)) [
      | inl z ↦
          let same : regs r ≡ 0 = ap regs (ground arith) ∙ h.zero_is in
          rw (h.no_static r, e, z) (exec-load_zero r rest m same room)
      | inr z ↦
          let other : (r == r_mem) ≡ false = ne→== r r_mem no_mem in
          let read : step (iload l) m ≡ some (push m (int (regs r))) =
            rw (h.in_local r l no_mem e) refl in
          rw (h.no_static r, e, z, other)
            (exec-one limit (iload l) rest m (push m (int (regs r))) read (omega arith))
    ]
  ]

  pub exec-pushmemory :
      (l : ℕ) (rest : List Insn) (m : Machine)
      → Holds regalloc regs m.locals
      → regalloc.mips_to_local r_mem ≡ some l
      → slots m.stack + 1 ≤ limit
      → exec limit (bc_pushregister regalloc r_mem ++ rest) m ≡ exec limit rest (push m ref)
  unfolding step bc_pushregister bc_pushconst
  exec-pushmemory l rest m h e room =
      let read : step (aload l) m ≡ some (push m ref) = rw (h.memory_in l e) refl in
      rw (h.no_static r_mem, e) (exec-one limit (aload l) rest m (push m ref) read (omega arith))
