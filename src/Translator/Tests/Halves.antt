-- ===== src/Translator/Tests/Halves.antt =====
-- Witnesses: a method that multiplies and divides.
use cibyl.Base.{
  ℕ, zero, suc, ◌<◌, ◌≡◌, refl, sym, ap, ◌∙◌, true, inl, inr, none, [], ◌==◌, arith, Bool-cases,
}
use cibyl.Translator.Mips.{r_hi, r_lo}
use cibyl.Translator.Registers.{RegisterAllocator, at}
use cibyl.Translator.Jvm.{int, Machine, two32}
use cibyl.Translator.Run.{Holds}
use cibyl.Translator.Writes.{at_apart, Runs}
use cibyl.Translator.Instructions.Multiply.{multiplied, mult_pass2_lem}
use cibyl.Translator.Instructions.Divide.{divided, div_pass2_lem}
use cibyl.Translator.Instructions.{mult_pass2, div_pass2}
use cibyl.Translator.Instructions.Stack.{Writable, stacked}
use cibyl.Translator.Tests.{three, machine, owner, three-owner, no_local}

-- Register 8 with HI and LO.
abbrev with_halves : RegisterAllocator
with_halves = record { mips_to_local = three 8 r_hi r_lo; mips_to_static = λ r. none; n_locals = 3 }

abbrev seven : ℕ → ℕ
seven = at (λ r. 0) 8 7

abbrev seven_machine : Machine
seven_machine = record machine { locals = at (λ l. int 0) 0 (int 7) }

seven_unused : (r : ℕ) → with_halves.mips_to_local r ≡ none → seven r ≡ 0
seven_unused r e = elim (Bool-cases (r == 8)) [
  | inl c ↦
      let here : r ≡ 8 = ground arith in
      absurd (no_local 0 (sym e ∙ ap with_halves.mips_to_local here))
  | inr c ↦ rw c refl
]

seven_held : (r l : ℕ) → r ≡ owner 8 r_hi r_lo l → seven_machine.locals l ≡ int (seven r)
seven_held r zero same = ap (λ (k : ℕ). int (seven k)) (sym same)
seven_held r (suc zero) same = ap (λ (k : ℕ). int (seven k)) (sym same)
seven_held r (suc (suc l)) same =
    at_apart (λ (k : ℕ). int 0) 0 (suc (suc l)) (int 7) (omega arith)
    ∙ ap (λ (k : ℕ). int (seven k)) (sym same)

small_seven : (r : ℕ) → seven r < two32
small_seven r = elim (Bool-cases (r == 8)) [
  | inl c ↦ rw c (omega arith)
  | inr c ↦ rw c (omega arith)
]

seven-Holds : Holds with_halves seven seven_machine.locals
seven-Holds = record {
  no_static = λ r. refl;
  distinct = λ r s l h k. three-owner 8 r_hi r_lo r l h ∙ sym (three-owner 8 r_hi r_lo s l k);
  zero_is = refl;
  unused = seven_unused;
  in_local = λ r l n h. seven_held r l (three-owner 8 r_hi r_lo r l h);
  memory_in = λ l h. absurd (no_local l h);
  word_size = small_seven;
}

hi-Writable : Writable with_halves r_hi
hi-Writable = record { local = 1; has_local = refl; no_zero = omega arith; no_mem = omega arith }

lo-Writable : Writable with_halves r_lo
lo-Writable = record { local = 2; has_local = refl; no_zero = omega arith; no_mem = omega arith }

mult_pass2_lem_example :
    Runs 8 with_halves
      (mult_pass2 with_halves true true 8 8)
      (stacked seven_machine [])
      (multiplied true true seven 49)
      seven_machine.memory
mult_pass2_lem_example =
    mult_pass2_lem with_halves seven seven_machine true true 8 8 seven-Holds (omega arith)
      (omega arith) hi-Writable lo-Writable

div_pass2_lem_example :
    Runs 8 with_halves
      (div_pass2 with_halves true true 8 8)
      (stacked seven_machine [])
      (divided true true seven 1 0)
      seven_machine.memory
div_pass2_lem_example =
    div_pass2_lem with_halves seven seven_machine true true 8 8 seven-Holds (omega arith)
      (omega arith) (omega arith) hi-Writable lo-Writable
