-- ===== src/Translator/Instructions/Multiply.antt =====
-- muldiv.cc: `Mult`, with the high part of the product or without it.
use cibyl.Base.{
  ℕ, ◌*◌, ◌/◌, ◌%◌, ◌^◌, ◌≤◌, ◌<◌, ◌≡◌, ◌≢◌, refl, ◌∙◌, Bool, false, not, ◌&&◌, inl, inr, List, [],
  ◌∷◌, ◌++◌, ltb, arith, Bool-cases, ne→==, if◌then◌else◌, ◌==◌,
}
use cibyl.Base.Int.{pos}
use cibyl.Translator.Mips.{r_mem, r_hi, r_lo}
use cibyl.Translator.Registers.{RegisterAllocator, at}
use cibyl.Translator.Emit.{
  Insn, istore, imul, i2l, l2i, lmul, lushr, dup2, bc_pushconst, bc_pushregister, bc_popregister,
}
use cibyl.Translator.Jvm.{Value, int, long, Machine, two32, two64, i2l_bits, step, slots, exec}
use cibyl.Translator.Run.{Holds, exec-one}
use cibyl.Translator.Writes.{Runs, Holds-at, Runs-popregister, Runs-after}
use cibyl.Translator.Instructions.{mult_pass2}
use cibyl.Translator.Instructions.Stack.{
  Writable, stacked, run_register, run_const, run_one, Runs-store,
}

-- The signed product, in 64 digits.
abbrev pub product : ℕ → ℕ → ℕ
product a b = i2l_bits a * i2l_bits b % two64

product-low : (a b : ℕ) → a * b % two32 ≡ product a b % two32
product-low a b = elim (Bool-cases (ltb a (2 ^ 31))) [
  | inl e ↦ elim (Bool-cases (ltb b (2 ^ 31))) [
    | inl f ↦ rw (e, f) (omega arith)
    | inr f ↦ rw (e, f) (grind arith)
  ]
  | inr e ↦ elim (Bool-cases (ltb b (2 ^ 31))) [
    | inl f ↦ rw (e, f) (grind arith)
    | inr f ↦ rw (e, f) (grind arith)
  ]
]

-- The registers after a multiplication: the whole product, or its low half where nothing reads the
-- other.
abbrev pub multiplied : Bool → Bool → (ℕ → ℕ) → ℕ → (ℕ → ℕ)
multiplied using_lo using_hi regs v =
    if using_lo && not using_hi
    then at regs r_lo (v % two32)
    else at (at regs r_hi (v / two32)) r_lo (v % two32)

module _ (regalloc : RegisterAllocator) (regs : ℕ → ℕ) (limit : ℕ) (m : Machine)
    (h : Holds regalloc regs m.locals) where
  -- A register is written in the middle of code.
  pub run_pop :
      (r v : ℕ) (rest : List Insn) (s : List Value) (w : Writable regalloc r)
      → slots s ≤ limit
      → exec limit (bc_popregister regalloc r ++ rest) (stacked m (int v ∷ s))
        ≡ exec limit rest (stacked (record m { locals = at m.locals w.local (int v) }) s)
  unfolding bc_popregister step
  run_pop r v rest s w room =
      let other : (r == r_mem) ≡ false = ne→== r r_mem w.no_mem in
      rw (h.no_static r, w.has_local, other)
        (exec-one limit (istore w.local) rest (stacked m (int v ∷ s))
          (stacked (record m { locals = at m.locals w.local (int v) }) s) refl room)

  -- Both halves of a `long` are stored.
  Runs-halves :
      (code : List Insn) (v : ℕ)
      → 5 ≤ limit
      → v < two64
      → Writable regalloc r_hi
      → Writable regalloc r_lo
      → exec limit code (stacked m [])
        ≡ exec limit
            (dup2
              ∷ (bc_pushconst (pos 32)
                  ++ (lushr
                      ∷ (l2i
                          ∷ (bc_popregister regalloc r_hi
                              ++ (l2i ∷ bc_popregister regalloc r_lo))))))
            (stacked m (long v ∷ []))
      → Runs limit regalloc code
          (stacked m [])
          (at (at regs r_hi (v / two32)) r_lo (v % two32))
          m.memory
  unfolding step
  Runs-halves code v room small hi lo run =
      let high = v / two32 in
      let m' = record m { locals = at m.locals hi.local (int high) } in
      let narrow : v / 2 ^ 32 % two32 ≡ high = omega arith in
      let h' =
        Holds-at regalloc regs m.locals h r_hi hi.local high hi.no_zero hi.no_mem hi.has_local
          (omega arith) in
      let one = run_one regalloc regs limit m h in
      let c3 = l2i ∷ bc_popregister regalloc r_lo in
      let c2 = bc_popregister regalloc r_hi ++ c3 in
      let c1 = bc_pushconst (pos 32) ++ (lushr ∷ (l2i ∷ c2)) in
      let s = long v ∷ [] in
      Runs-after
        (run
          ∙ one dup2 c1 s (long v ∷ s) refl (omega arith)
          ∙ run_const regalloc regs limit m h (pos 32) (lushr ∷ (l2i ∷ c2)) (long v ∷ s)
              (omega arith) (omega arith)
          ∙ one lushr (l2i ∷ c2) (int 32 ∷ long v ∷ s) (long (v / 2 ^ 32) ∷ s) refl (omega arith)
          ∙ one l2i c2 (long (v / 2 ^ 32) ∷ s) (int high ∷ s) (rw narrow refl) (omega arith)
          ∙ run_pop r_hi high c3 s hi (omega arith)
          ∙ run_one regalloc (at regs r_hi high) limit m' h' l2i (bc_popregister regalloc r_lo) s
              (int (v % two32) ∷ []) refl (omega arith))
        refl
        (Runs-popregister regalloc (at regs r_hi high) limit r_lo lo.local (v % two32)
          (stacked m' (int (v % two32) ∷ [])) h' lo.no_zero lo.no_mem lo.has_local (omega arith)
          refl)

-- The code of `Mult` runs within the stack that is declared for it: it leaves the low half of the
-- signed product of the sources in LO where the method reads LO and not HI, and both halves in HI
-- and LO otherwise, all else being as it was. The sources are not the memory's register, and HI and
-- LO have local variables.
pub mult_pass2_lem :
    (regalloc : RegisterAllocator) (regs : ℕ → ℕ) (m : Machine) (using_lo using_hi : Bool)
    (rs rt : ℕ)
    → Holds regalloc regs m.locals
    → rs ≢ r_mem
    → rt ≢ r_mem
    → Writable regalloc r_hi
    → Writable regalloc r_lo
    → Runs 8 regalloc
        (mult_pass2 regalloc using_lo using_hi rs rt)
        (stacked m [])
        (multiplied using_lo using_hi regs (product (regs rs) (regs rt)))
        m.memory
unfolding mult_pass2 step
mult_pass2_lem regalloc regs m using_lo using_hi rs rt h ns nt hi lo =
    let one = run_one regalloc regs 8 m h in
    let a = regs rs in
    let b = regs rt in
    elim (Bool-cases (using_lo && not using_hi)) [
      | inl e ↦
          let last = imul ∷ bc_popregister regalloc r_lo in
          rw e (
            Runs-store regalloc regs 8 m h _ r_lo (product a b % two32) lo (omega arith) (
              run_register regalloc regs 8 m h rs (bc_pushregister regalloc rt ++ last) [] ns
                (omega arith)
              ∙ run_register regalloc regs 8 m h rt last (int a ∷ []) nt (omega arith)
              ∙ one imul (bc_popregister regalloc r_lo) (int b ∷ int a ∷ [])
                  (int (product a b % two32) ∷ []) (rw (product-low a b) refl) (omega arith)))
      | inr e ↦
          let v = product a b in
          let c4 =
            dup2
            ∷ (bc_pushconst (pos 32)
                ++ (lushr
                    ∷ (l2i
                        ∷ (bc_popregister regalloc r_hi
                            ++ (l2i ∷ bc_popregister regalloc r_lo))))) in
          let c2 = bc_pushregister regalloc rt ++ (i2l ∷ (lmul ∷ c4)) in
          let x = long (i2l_bits a) in
          rw e (
            Runs-halves regalloc regs 8 m h _ v (omega arith) (omega arith) hi lo (
              run_register regalloc regs 8 m h rs (i2l ∷ c2) [] ns (omega arith)
              ∙ one i2l c2 (int a ∷ []) (x ∷ []) refl (omega arith)
              ∙ run_register regalloc regs 8 m h rt (i2l ∷ (lmul ∷ c4)) (x ∷ []) nt (omega arith)
              ∙ one i2l (lmul ∷ c4) (int b ∷ x ∷ []) (long (i2l_bits b) ∷ x ∷ []) refl (omega arith)
              ∙ one lmul c4 (long (i2l_bits b) ∷ x ∷ []) (long v ∷ []) refl (omega arith)))
    ]
