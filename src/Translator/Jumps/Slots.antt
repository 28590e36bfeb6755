-- ===== src/Translator/Jumps/Slots.antt =====
-- Conditional jumps and `jr` with the instruction in their delay slot: it runs before control goes
-- on, and the condition is that of the registers before it.
use cibyl.Base.{
  ℕ, ◌+◌, ◌≤◌, ◌≡◌, ◌≢◌, refl, sym, ap, ◌∙◌, Bool, false, not, some, List, [], ◌∷◌, ◌++◌, map, ◌==◌,
  if◌then◌else◌, arith, append-nil, Bool-cases, inl, inr,
}
use cibyl.Base.Int.{ℤ}
use cibyl.Translator.Mips.{r_mem, r_ra}
use cibyl.Translator.Registers.{RegisterAllocator, at}
use cibyl.Translator.Emit.{bc_pushregister}
use cibyl.Translator.Jvm.{Value, int, Machine, slots, exec}
use cibyl.Translator.Run.{Holds, exec-pushregister}
use cibyl.Translator.Writes.{Runs}
use cibyl.Translator.Frame.{exec-above}
use cibyl.Translator.Instructions.{Arithmetic, pass2}
use cibyl.Translator.Instructions.Semantics.{destination, result}
use cibyl.Translator.Instructions.Stack.{Writable, stacked}
use cibyl.Translator.Instructions.Results.{IsProper, required, pass2-runs}
use cibyl.Translator.Decode.{Condition, if_icmpeq, if_icmpne}
use cibyl.Translator.Jumps.{
  Op, insn, goto_function_return, goto_local_jumptab, condbranch, Branch, branch_target, jr_pass2,
  two_register_pass2, one_register_pass2,
}
use cibyl.Translator.Jumps.Taken.{Next, falls, to, returns, looks_up, holds, run, run-insns}

-- A branch whose delay slot holds `i`.
abbrev pub with_slot : ℕ → Arithmetic → Branch
with_slot address i = record { address = address; delayed = some i }

-- The code runs from an empty stack to an empty one, control goes to `next`, and these registers
-- and this memory are left.
pub record Branches (limit : ℕ) (regalloc : RegisterAllocator) (ops : List Op) (m : Machine)
    (regs memory : ℕ → ℕ) (next : Next) : Type 0 where
  pub out : Machine
  pub runs : run limit ops m ≡ some (out, next)
  pub registers : Holds regalloc regs out.locals
  pub in_memory : out.memory ≡ memory
  pub same_size : out.size ≡ m.size
  pub emptied : out.stack ≡ []

module _ (regalloc : RegisterAllocator) (regs : ℕ → ℕ) (limit : ℕ) (m : Machine)
    (h : Holds regalloc regs m.locals) where
  pub run-pushregister :
      (r : ℕ) (ops : List Op) (s : List Value)
      → r ≢ r_mem
      → slots s + 1 ≤ limit
      → run limit (map insn (bc_pushregister regalloc r) ++ ops) (stacked m s)
        ≡ run limit ops (stacked m (int (regs r) ∷ s))
  unfolding exec
  run-pushregister r ops s no_mem room =
      run-insns limit (bc_pushregister regalloc r) ops (stacked m s) _ (
        ap (λ code. exec limit code (stacked m s)) (sym (append-nil (bc_pushregister regalloc r)))
        ∙ exec-pushregister regalloc regs limit r [] (stacked m s) h no_mem room)

  -- The instruction in the slot, above the operands of the branch.
  module _ (i : Arithmetic) (proper : IsProper i) (w : Writable regalloc (destination i)) where
    abbrev slot_regs : ℕ → ℕ
    slot_regs = at regs (destination i) (result regs i)

    slot : Runs (required i) regalloc (pass2 regalloc i) (stacked m []) slot_regs m.memory
    slot = pass2-runs (required i) regalloc regs m i h (omega arith) proper w

    run-slot :
        (ops : List Op) (s : List Value)
        → required i + slots s ≤ limit
        → run limit (map insn (pass2 regalloc i) ++ ops) (stacked m s)
          ≡ run limit ops (stacked slot.out s)
    run-slot ops s room =
        run-insns limit (pass2 regalloc i) ops (stacked m s) (stacked slot.out s) (
          exec-above (required i) (pass2 regalloc i) (stacked m []) slot.out s limit room slot.runs
          ∙ ap (λ t. some (stacked slot.out (t ++ s))) slot.emptied)

    -- The operands are gone when control goes on.
    done :
        (ops : List Op) (next : Next)
        → run limit ops (stacked m []) ≡ some (stacked slot.out [], next)
        → Branches limit regalloc ops (stacked m []) slot_regs m.memory next
    done ops next runs = record {
      out = stacked slot.out [];
      runs = runs;
      registers = slot.registers;
      in_memory = slot.in_memory;
      same_size = slot.same_size;
      emptied = refl;
    }

-- What the conditional jumps with two registers compare.
abbrev pub IsComparison : Condition → Type 0
IsComparison if_icmpeq = Unit
IsComparison if_icmpne = Unit
IsComparison _ = ⊥

abbrev pub compares : Condition → ℕ → ℕ → Bool
compares if_icmpeq a b = a == b
compares if_icmpne a b = not (a == b)
compares _ a b = false

run-condbranch :
    (limit : ℕ) (bc : Condition) (dst : ℕ) (m : Machine) (a b : ℕ)
    → IsComparison bc
    → run limit (condbranch bc dst ∷ []) (stacked m (int b ∷ int a ∷ []))
      ≡ some (stacked m [], if compares bc a b then to dst else falls)
unfolding run
run-condbranch limit if_icmpeq dst m a b h = elim (Bool-cases (a == b)) [
  | inl e ↦ rw e refl
  | inr e ↦ rw e refl
]
run-condbranch limit if_icmpne dst m a b h = elim (Bool-cases (a == b)) [
  | inl e ↦ rw e refl
  | inr e ↦ rw e refl
]
run-condbranch limit bc dst m a b h = absurd h

run-sign :
    (limit : ℕ) (bc : Condition) (dst : ℕ) (m : Machine) (a : ℕ)
    → (IsComparison bc → ⊥)
    → run limit (condbranch bc dst ∷ []) (stacked m (int a ∷ []))
      ≡ some (stacked m [], if holds bc a then to dst else falls)
unfolding run
run-sign limit if_icmpeq dst m a h = absurd (h tt)
run-sign limit if_icmpne dst m a h = absurd (h tt)
run-sign limit bc dst m a h = elim (Bool-cases (holds bc a)) [
  | inl e ↦ rw e refl
  | inr e ↦ rw e refl
]

module _ (regalloc : RegisterAllocator) (regs : ℕ → ℕ) (limit : ℕ) (m : Machine)
    (h : Holds regalloc regs m.locals) (address : ℕ) (i : Arithmetic) where
  -- A conditional jump that compares two registers, with an instruction that computes in its delay
  -- slot, when the registers of the jump are not the translator's own register for memory, the
  -- local variables hold the registers and the instruction writes a register that has a local
  -- variable: the code runs without an error in a stack with two places more than the instruction
  -- needs, the jump is taken just when the registers compare so before the instruction, to the
  -- address in the branch's field, and the registers are left as the instruction leaves them,
  -- memory as it was.
  pub two_register_pass2_lem :
      (bc : Condition) (rs rt : ℕ) (extra : ℤ)
      → IsComparison bc
      → rs ≢ r_mem
      → rt ≢ r_mem
      → IsProper i
      → Writable regalloc (destination i)
      → required i + 2 ≤ limit
      → Branches limit regalloc
          (two_register_pass2 regalloc bc (with_slot address i) rs rt extra)
          (stacked m [])
          (at regs (destination i) (result regs i))
          m.memory
          (if compares bc (regs rs) (regs rt)
            then to (branch_target (with_slot address i) extra)
            else falls)
  unfolding two_register_pass2
  two_register_pass2_lem bc rs rt extra two ns nt proper w room =
      let dst = branch_target (with_slot address i) extra in
      let ops = map insn (pass2 regalloc i) ++ (condbranch bc dst ∷ []) in
      done regalloc regs limit m h i proper w _ _ (
        run-pushregister regalloc regs limit m h rs (map insn (bc_pushregister regalloc rt) ++ ops)
          [] ns (omega arith)
        ∙ run-pushregister regalloc regs limit m h rt ops (int (regs rs) ∷ []) nt (omega arith)
        ∙ run-slot regalloc regs limit m h i proper w (condbranch bc dst ∷ [])
            (int (regs rt) ∷ int (regs rs) ∷ []) (omega arith)
        ∙ run-condbranch limit bc dst (slot regalloc regs limit m h i proper w).out (regs rs)
            (regs rt) two)

  -- A conditional jump on the sign of one register, with an instruction that computes in its delay
  -- slot: the code runs without an error in a stack with one place more than the instruction needs,
  -- the jump is taken just when the condition holds of the register before the instruction, to the
  -- address in the branch's field, and the registers are left as the instruction leaves them,
  -- memory as it was. The register is a number, and the instruction writes a register that has a
  -- local variable.
  pub one_register_pass2_lem :
      (bc : Condition) (rs : ℕ) (extra : ℤ)
      → (IsComparison bc → ⊥)
      → rs ≢ r_mem
      → IsProper i
      → Writable regalloc (destination i)
      → required i + 1 ≤ limit
      → Branches limit regalloc
          (one_register_pass2 regalloc bc (with_slot address i) rs extra)
          (stacked m [])
          (at regs (destination i) (result regs i))
          m.memory
          (if holds bc (regs rs) then to (branch_target (with_slot address i) extra) else falls)
  unfolding one_register_pass2
  one_register_pass2_lem bc rs extra one ns proper w room =
      let dst = branch_target (with_slot address i) extra in
      let ops = map insn (pass2 regalloc i) ++ (condbranch bc dst ∷ []) in
      done regalloc regs limit m h i proper w _ _ (
        run-pushregister regalloc regs limit m h rs ops [] ns (omega arith)
        ∙ run-slot regalloc regs limit m h i proper w (condbranch bc dst ∷ []) (int (regs rs) ∷ [])
            (omega arith)
        ∙ run-sign limit bc dst (slot regalloc regs limit m h i proper w).out (regs rs) one)

  -- `jr` with an instruction that computes in its delay slot, in a stack with one place more than
  -- the instruction needs, when the local variables hold the registers, the jump's is not the
  -- translator's own register for memory and the instruction writes a register that has a local
  -- variable: through the register ra it returns, and through another register it goes to the table
  -- of labels with what the register held before.
  pub jr_pass2_lem :
      (rs : ℕ)
      → rs ≢ r_mem
      → IsProper i
      → Writable regalloc (destination i)
      → required i + 1 ≤ limit
      → Branches limit regalloc
          (jr_pass2 regalloc (with_slot address i) rs)
          (stacked m [])
          (at regs (destination i) (result regs i))
          m.memory
          (if rs == r_ra then returns else looks_up (regs rs))
  unfolding jr_pass2 run
  jr_pass2_lem rs ns proper w room = elim (Bool-cases (rs == r_ra)) [
    | inl e ↦ rw e (
        done regalloc regs limit m h i proper w _ _ (
          run-slot regalloc regs limit m h i proper w (goto_function_return ∷ []) [] (omega arith)))
    | inr e ↦ rw e (
        done regalloc regs limit m h i proper w _ _ (
          run-pushregister regalloc regs limit m h rs
            (map insn (pass2 regalloc i) ++ (goto_local_jumptab ∷ [])) [] ns (omega arith)
          ∙ run-slot regalloc regs limit m h i proper w (goto_local_jumptab ∷ [])
              (int (regs rs) ∷ []) (omega arith)))
  ]
