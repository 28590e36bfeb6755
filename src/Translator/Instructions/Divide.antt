-- ===== src/Translator/Instructions/Divide.antt =====
-- muldiv.cc: `Div`, with the quotient, the remainder, or both.
use native.Mathlib.Nat.{div-le_self, mod-le}
use cibyl.Base.{
  ℕ, ◌/◌, ◌%◌, ◌^◌, ◌≤◌, ◌<◌, ◌≡◌, ◌≢◌, refl, ◌∙◌, Bool, false, not, ◌&&◌, inl, inr, List, [], ◌∷◌,
  ◌++◌, arith, Bool-cases, ne→==, if◌then◌else◌, ◌==◌,
}
use cibyl.Translator.Mips.{r_mem, r_hi, r_lo}
use cibyl.Translator.Registers.{RegisterAllocator, at}
use cibyl.Translator.Emit.{Insn, idiv, irem, dup2, bc_pushregister, bc_popregister}
use cibyl.Translator.Jvm.{
  int, Machine, two32, is_negative, magnitude, same_sign, signed_quotient, signed_remainder, step,
}
use cibyl.Translator.Run.{Holds}
use cibyl.Translator.Writes.{Runs, Holds-at, Runs-popregister, Runs-after}
use cibyl.Translator.Instructions.{div_pass2}
use cibyl.Translator.Instructions.Stack.{Writable, stacked, run_register, run_one, Runs-store}
use cibyl.Translator.Instructions.Multiply.{run_pop}

magnitude-small : (a : ℕ) → a < two32 → magnitude a ≤ 2 ^ 31
magnitude-small a h = ground arith

signed_quotient-small : (a b : ℕ) → a < two32 → signed_quotient a b < two32
signed_quotient-small a b h =
    let q : magnitude a / magnitude b ≤ 2 ^ 31 =
      omega (arith, div-le_self (magnitude a) (magnitude b), magnitude-small a h) in
    elim (Bool-cases (same_sign a b)) [ inl e ↦ rw e (omega arith) | inr e ↦ rw e (omega arith) ]

signed_remainder-small : (a b : ℕ) → a < two32 → signed_remainder a b < two32
signed_remainder-small a b h =
    let r : magnitude a % magnitude b ≤ 2 ^ 31 =
      omega (arith, mod-le (magnitude a) (magnitude b), magnitude-small a h) in
    elim (Bool-cases (is_negative a)) [ inl e ↦ rw e (omega arith) | inr e ↦ rw e (omega arith) ]

-- The registers after a division: the parts that the method reads.
abbrev pub divided : Bool → Bool → (ℕ → ℕ) → ℕ → ℕ → (ℕ → ℕ)
divided using_lo using_hi regs q r =
    if using_lo && not using_hi
    then at regs r_lo q
    else if not using_lo && using_hi
    then at regs r_hi r
    else at (at regs r_lo q) r_hi r

-- The code of `Div` runs within the stack that is declared for it: it leaves the signed quotient in
-- LO and the remainder in HI, or the one of them that alone is read, all else being as it was. The
-- divisor is not 0, the sources are not the memory's register, and HI and LO have local variables.
pub div_pass2_lem :
    (regalloc : RegisterAllocator) (regs : ℕ → ℕ) (m : Machine) (using_lo using_hi : Bool)
    (rs rt : ℕ)
    → Holds regalloc regs m.locals
    → rs ≢ r_mem
    → rt ≢ r_mem
    → regs rt ≢ 0
    → Writable regalloc r_hi
    → Writable regalloc r_lo
    → Runs 8 regalloc
        (div_pass2 regalloc using_lo using_hi rs rt)
        (stacked m [])
        (divided using_lo using_hi regs
          (signed_quotient (regs rs) (regs rt))
          (signed_remainder (regs rs) (regs rt)))
        m.memory
unfolding div_pass2 step
div_pass2_lem regalloc regs m using_lo using_hi rs rt h ns nt nz hi lo =
    let a = regs rs in
    let b = regs rt in
    let q = signed_quotient a b in
    let r = signed_remainder a b in
    let whole : (b == 0) ≡ false = ne→== b 0 nz in
    let s = int b ∷ int a ∷ [] in
    let push_both = λ (rest : List Insn).
      run_register regalloc regs 8 m h rs (bc_pushregister regalloc rt ++ rest) [] ns (omega arith)
      ∙ run_register regalloc regs 8 m h rt rest (int a ∷ []) nt (omega arith) in
    let one = run_one regalloc regs 8 m h in
    elim (Bool-cases (using_lo && not using_hi)) [
      | inl e ↦ rw e (
          Runs-store regalloc regs 8 m h _ r_lo q lo (signed_quotient-small a b (h.word_size rs)) (
            push_both (idiv ∷ bc_popregister regalloc r_lo)
            ∙ one idiv (bc_popregister regalloc r_lo) s (int q ∷ []) (rw whole refl) (omega arith)))
      | inr e ↦ elim (Bool-cases (not using_lo && using_hi)) [
        | inl f ↦
            rw (e, f)
              (Runs-store regalloc regs 8 m h _ r_hi r hi
                (signed_remainder-small a b (h.word_size rs))
                (push_both (irem ∷ bc_popregister regalloc r_hi)
                  ∙ one irem (bc_popregister regalloc r_hi) s (int r ∷ []) (rw whole refl)
                      (omega arith)))
        | inr f ↦
            let m' = record m { locals = at m.locals lo.local (int q) } in
            let h' =
              Holds-at regalloc regs m.locals h r_lo lo.local q lo.no_zero lo.no_mem lo.has_local
                (signed_quotient-small a b (h.word_size rs)) in
            let last = irem ∷ bc_popregister regalloc r_hi in
            let middle = bc_popregister regalloc r_lo ++ last in
            rw (e, f)
              (Runs-after
                (push_both (dup2 ∷ (idiv ∷ middle))
                  ∙ one dup2 (idiv ∷ middle) s (int b ∷ int a ∷ s) refl (omega arith)
                  ∙ one idiv middle (int b ∷ int a ∷ s) (int q ∷ s) (rw whole refl) (omega arith)
                  ∙ run_pop regalloc regs 8 m h r_lo q last s lo (omega arith)
                  ∙ run_one regalloc (at regs r_lo q) 8 m' h' irem (bc_popregister regalloc r_hi) s
                      (int r ∷ []) (rw whole refl) (omega arith))
                refl
                (Runs-popregister regalloc (at regs r_lo q) 8 r_hi hi.local r
                  (stacked m' (int r ∷ [])) h' hi.no_zero hi.no_mem hi.has_local
                  (signed_remainder-small a b (h.word_size rs)) refl))
      ]
    ]
