-- ===== src/Translator/Tests/Methods.antt =====
-- Witnesses: a method of three instructions.
use cibyl.Base.{
  ℕ, ◌<◌, ◌≡◌, true, subst, inl, inr, ◌==◌, Bool-cases, if◌then◌else◌, refl, sym, ap, ◌∙◌, false,
  none, some, List, [], ◌∷◌, arith,
}
use cibyl.Translator.Mips.{r_mem}
use cibyl.Translator.Registers.{RegisterAllocator, new_allocator, set_allocation, at}
use cibyl.Translator.Registers.Allocate.{set_allocation-IsAllocated}
use cibyl.Translator.Jvm.{int, Machine}
use cibyl.Translator.Writes.{Runs}
use cibyl.Translator.Instructions.{nor, pass2}
use cibyl.Translator.Instructions.Semantics.{result}
use cibyl.Translator.Instructions.Stack.{stacked}
use cibyl.Translator.Usage.{
  Placed, computing, other, listed_destinations, listed_sources, register_usage,
}
use cibyl.Translator.Usage.Counted.{Stands}
use cibyl.Translator.Usage.Methods.{Started, held, register_usage-pass2}
use cibyl.Translator.Tests.{machine}

-- A jump with the instruction in its delay slot, and another one that writes v0.
abbrev jump_with_slot : Placed
jump_with_slot = record {
  insn = other [] (8 ∷ 9 ∷ []);
  delayed = some (computing (nor 8 9 10));
  prefix = none;
}

abbrev call : Placed
call = record { insn = other (2 ∷ []) []; delayed = none; prefix = none }

abbrev method : List (List (List Placed))
method = ((call ∷ jump_with_slot ∷ []) ∷ []) ∷ []

method-Stands : Stands method (nor 8 9 10)
method-Stands = record {
  bbs = (call ∷ jump_with_slot ∷ []) ∷ [];
  insns = call ∷ jump_with_slot ∷ [];
  placed = jump_with_slot;
  f = 0;
  b = 0;
  k = 1;
  in_method = refl;
  in_function = refl;
  in_block = refl;
  is = inr (inl refl);
}

-- Every register but the register zero is 5.
abbrev fives : ℕ → ℕ
fives r = if r == 0 then 0 else 5

abbrev fives_machine : Machine
fives_machine = record machine { locals = λ l. int 5 }

allocator_inj : (a b : RegisterAllocator) → some a ≡ some b → a ≡ b
allocator_inj a b e = cc

fives-Started :
    (regalloc : RegisterAllocator)
    → set_allocation (register_usage false method) new_allocator ≡ some regalloc
    → Started regalloc fives fives_machine.locals
unfolding listed_destinations listed_sources
fives-Started regalloc e =
    let (out, same, ok, statics) =
      set_allocation-IsAllocated (register_usage false method) new_allocator in
    let one : out ≡ regalloc = allocator_inj out regalloc (sym same ∙ e) in
    let local = λ (r l : ℕ) (h : regalloc.mips_to_local r ≡ some l).
      ok.only_used r l (ap (λ (a : RegisterAllocator). a.mips_to_local r) one ∙ h) in
    record {
      zero_is = refl;
      in_local = λ r l n h. elim (Bool-cases (r == 0)) [
        | inl z ↦
            let none_used : 0 < register_usage false method 0 =
              subst (λ (k : ℕ). 0 < register_usage false method k) (eq_of r z) (local r l h).0 in
            absurd (omega (arith, none_used))
        | inr z ↦ rw z refl
      ];
      memory_in = λ l h. absurd (omega (arith, (local r_mem l h).0));
      word_size = λ r. ground arith;
    }
  where
    eq_of : (r : ℕ) → (r == 0) ≡ true → r ≡ 0
    eq_of r z = ground arith

register_usage-pass2_example :
    (regalloc : RegisterAllocator) × (set_allocation (register_usage false method) new_allocator
      ≡ some regalloc)
    × Runs 4 regalloc
        (pass2 regalloc (nor 8 9 10))
        (stacked fives_machine [])
        (at (held regalloc fives) 10 (result fives (nor 8 9 10)))
        fives_machine.memory
register_usage-pass2_example =
    register_usage-pass2 false method (nor 8 9 10) method-Stands tt (omega arith, omega arith)
      (omega arith) (omega arith) (omega arith) (omega arith) fives fives_machine fives-Started
