-- ===== src/Translator/Jumps/Overflow.antt =====
-- The places of the stack that a method declares, and a comparison in the delay slot of a
-- conditional jump.
use cibyl.Base.{
  ℕ, ◌+◌, ◌≤◌, ◌<◌, ◌≡◌, ◌≢◌, refl, ◌∙◌, true, false, none, some, List, [], ◌∷◌, ◌++◌, map, ◌==◌,
  arith, ne→==, lt→ltb, ltb, Bool-cases, Option-cases, inl, inr,
}
use cibyl.Base.Int.{ℤ}
use cibyl.Translator.Mips.{r_mem, r_zero}
use cibyl.Translator.Registers.{RegisterAllocator}
use cibyl.Translator.Emit.{Insn, bc_pushconst, bc_pushregister, iload, iconst, i2l}
use cibyl.Translator.Jvm.{Value, int, long, Machine, slots, step, exec, i2l_bits}
use cibyl.Translator.Run.{Holds}
use cibyl.Translator.Instructions.{slt, slt_pass2, pass2}
use cibyl.Translator.Instructions.Stack.{stacked, run_register, run_one}
use cibyl.Translator.Decode.{Condition}
use cibyl.Translator.Jumps.{
  Op, insn, condbranch, two_register_pass2, branch_target, branch_max_stack_height,
}
use cibyl.Translator.Jumps.Taken.{run}
use cibyl.Translator.Jumps.Slots.{with_slot, run-pushregister}

run-fails :
    (limit : ℕ) (code : List Insn) (ops : List Op) (m : Machine)
    → exec limit code m ≡ none
    → run limit (map insn code ++ ops) m ≡ none
unfolding run exec
run-fails limit [] ops m h = cc
run-fails limit (i ∷ code) ops m h = elim (Option-cases (step i m)) [
  | inl e ↦ rw e refl
  | inr (n, e) ↦ elim (Bool-cases (ltb limit (slots n.stack))) [
    | inl b ↦ rw (e, b) refl
    | inr b ↦ rw (e, b) (run-fails limit code ops n (rw (e, b) at h))
  ]
]

too_full :
    (limit : ℕ) (i : Insn) (rest : List Insn) (m out : Machine)
    → step i m ≡ some out
    → limit < slots out.stack
    → exec limit (i ∷ rest) m ≡ none
unfolding exec
too_full limit i rest m out h over =
    let no_room : ltb limit (slots out.stack) ≡ true = lt→ltb limit (slots out.stack) over in
    rw (h, no_room) refl

module _ (regalloc : RegisterAllocator) (regs : ℕ → ℕ) (m : Machine)
    (h : Holds regalloc regs m.locals) where
  full :
      (limit r : ℕ) (rest : List Insn) (s : List Value)
      → r ≢ r_mem
      → limit ≤ slots s
      → exec limit (bc_pushregister regalloc r ++ rest) (stacked m s) ≡ none
  unfolding step bc_pushregister bc_pushconst
  full limit r rest s no_mem room =
      let zero_full : exec limit (iconst 0 ∷ rest) (stacked m s) ≡ none =
        too_full limit (iconst 0) rest (stacked m s) (stacked m (int 0 ∷ s)) refl (omega arith) in
      elim (Option-cases (regalloc.mips_to_local r)) [
        | inl e ↦ rw (h.no_static r, e) zero_full
        | inr (l, e) ↦ elim (Bool-cases (r == r_zero)) [
          | inl z ↦ rw (h.no_static r, e, z) zero_full
          | inr z ↦
              let other : (r == r_mem) ≡ false = ne→== r r_mem no_mem in
              let read : step (iload l) (stacked m s) ≡ some (stacked m (int (regs r) ∷ s)) =
                rw (h.in_local r l no_mem e) refl in
              rw (h.no_static r, e, z, other)
                (too_full limit (iload l) rest (stacked m s) (stacked m (int (regs r) ∷ s)) read
                  (omega arith))
        ]
      ]

  -- In a method whose highest instruction is a comparison `slt` in the delay slot of a jump that
  -- compares two registers, when the local variables hold the registers and none of the four is the
  -- translator's own register for memory, the code of the jump needs more places of the stack than
  -- the method declares.
  pub two_register_pass2-slt :
      (bc : Condition) (address rs rt a b d : ℕ) (extra : ℤ) (height : ℕ)
      → rs ≢ r_mem
      → rt ≢ r_mem
      → a ≢ r_mem
      → b ≢ r_mem
      → branch_max_stack_height (with_slot address (slt a b d)) ≡ some height
      → run
          (height + 2)
          (two_register_pass2 regalloc bc (with_slot address (slt a b d)) rs rt extra)
          (stacked m [])
        ≡ none
  unfolding two_register_pass2 slt_pass2 step
  two_register_pass2-slt bc address rs rt a b d extra height ns nt na nb e =
      let two : height ≡ 2 = cc in
      let code = pass2 regalloc (slt a b d) in
      let ops = condbranch bc (branch_target (with_slot address (slt a b d)) extra) ∷ [] in
      let operands = int (regs rt) ∷ int (regs rs) ∷ [] in
      let fails : exec 4 code (stacked m operands) ≡ none =
        run_register regalloc regs 4 m h b _ operands nb (omega arith)
        ∙ run_one regalloc regs 4 m h i2l _ (int (regs b) ∷ operands)
            (long (i2l_bits (regs b)) ∷ operands) refl (omega arith)
        ∙ full 4 a _ (long (i2l_bits (regs b)) ∷ operands) na (omega arith) in
      rw two (
        run-pushregister regalloc regs 4 m h rs
          (map insn (bc_pushregister regalloc rt) ++ (map insn code ++ ops)) [] ns (omega arith)
        ∙ run-pushregister regalloc regs 4 m h rt (map insn code ++ ops) (int (regs rs) ∷ []) nt
            (omega arith)
        ∙ run-fails 4 code ops (stacked m operands) fails)
