-- ===== src/Translator/Tests.antt =====
-- Witnesses: a method with two registers and the memory.
mod Accesses
mod Methods
mod Halves
mod Branches
mod Calls
mod Tables
use cibyl.Base.{
  Option, ℕ, zero, suc, ◌+◌, ◌<◌, ◌≡◌, ◌≢◌, refl, sym, ap, ◌∙◌, true, false, inl, inr, none, some,
  List, [], ◌∷◌, ◌++◌, ◌==◌, arith, Bool-cases,
}
use cibyl.Base.Int.{pos, negsuc}
use cibyl.Translator.Mips.{r_hi, r_lo, r_mem}
use cibyl.Translator.Registers.{RegisterAllocator, new_allocator, set_allocation, at}
use cibyl.Translator.Registers.Allocate.{IsAllocated, set_allocation-IsAllocated}
use cibyl.Translator.Emit.{byte, short, bc_pushconst}
use cibyl.Translator.Jvm.{Value, int, ref, Machine, two32, push, exec}
use cibyl.Translator.Run.{Holds, exec-pushconst}
use cibyl.Translator.Writes.{at_apart, Runs}
use cibyl.Translator.Instructions.Multiply.{multiplied, mult_pass2_lem}
use cibyl.Translator.Instructions.Divide.{divided, div_pass2_lem}
use cibyl.Translator.Instructions.{mult_pass2, div_pass2, Arithmetic, nor, pass2, max_stack_height}
use cibyl.Translator.Instructions.Semantics.{result}
use cibyl.Translator.Instructions.Stack.{Writable, stacked}
use cibyl.Translator.Memory.{Settings, lw_pass2, sw_pass2, partial_load_pass2, partial_store_pass2}
use cibyl.Translator.Memory.Loads.{lw_pass2_lem, partial_load_pass2-byte, partial_load_pass2-half}
use cibyl.Translator.Memory.Access.{Accessible, Inlines, byte_at, half_at, extended}
use cibyl.Translator.Memory.Stores.{sw_pass2_lem}
use cibyl.Translator.Memory.Parts.{store_half, partial_store_pass2-half}
use cibyl.Translator.Memory.Bytes.{partial_store_pass2-byte_at}
use cibyl.Translator.Decode.{arithmetic, create}
use cibyl.Translator.Assembly.{Assembly, immediate, addiu_i, encode, class}
use cibyl.Translator.Assembly.Decoding.{create-encode}
use cibyl.Translator.Assembly.Values.{value}
use cibyl.Translator.Assembly.Translated.{create-pass2}
use cibyl.Translator.Usage.{Placed, fill_destinations, fill_sources, register_usage}
use cibyl.Translator.Usage.Counted.{Stands}
use cibyl.Translator.Usage.Methods.{Started, register_usage-pass2}

-- Three registers in the first three local variables.
abbrev three : (a b c : ℕ) → ℕ → Option ℕ
three a b c = at (at (at (λ r. none) a (some 0)) b (some 1)) c (some 2)

abbrev two_registers : RegisterAllocator
two_registers = record { mips_to_local = three 8 9 r_mem; mips_to_static = λ r. none; n_locals = 3 }

abbrev registers : ℕ → ℕ
registers = at (at (λ r. 0) 8 300) 9 70000

abbrev variables : ℕ → Value
variables = at (at (λ l. int 70000) 0 (int 300)) 2 ref

abbrev machine : Machine
machine = record {
  locals = variables;
  statics = λ name. 0;
  memory = λ i. 305419896;
  size = 1000;
  stack = [];
}

abbrev owner : (a b c : ℕ) → ℕ → ℕ
owner a b c zero = a
owner a b c (suc zero) = b
owner a b c _ = c

some_inj : (a b : ℕ) → some a ≡ some b → a ≡ b
some_inj a b e = cc

three-owner : (a b c r l : ℕ) → three a b c r ≡ some l → r ≡ owner a b c l
three-owner a b c r l e = elim (Bool-cases (r == c)) [
  | inl p ↦
      let place : three a b c r ≡ some 2 = rw p refl in
      let here : r ≡ c = ground arith in here ∙ ap (owner a b c) (some_inj 2 l (sym place ∙ e))
  | inr p ↦ elim (Bool-cases (r == b)) [
    | inl q ↦
        let place : three a b c r ≡ some 1 = rw (p, q) refl in
        let here : r ≡ b = ground arith in here ∙ ap (owner a b c) (some_inj 1 l (sym place ∙ e))
    | inr q ↦ elim (Bool-cases (r == a)) [
      | inl t ↦
          let place : three a b c r ≡ some 0 = rw (p, q, t) refl in
          let here : r ≡ a = ground arith in here ∙ ap (owner a b c) (some_inj 0 l (sym place ∙ e))
      | inr t ↦
          let place : three a b c r ≡ none = rw (p, q, t) refl in absurd (clash (sym place ∙ e))
    ]
  ]
]
  where
    clash : none ≢ some l
    clash z = cc

no_local : (v : ℕ) → none ≢ some v
no_local v c = cc

-- Another register has no local variable, and holds 0.
unused_is : (r : ℕ) → two_registers.mips_to_local r ≡ none → registers r ≡ 0
unused_is r e = elim (Bool-cases (r == 9)) [
  | inl b ↦
      let here : r ≡ 9 = ground arith in
      absurd (no_local 1 (sym e ∙ ap two_registers.mips_to_local here))
  | inr b ↦ elim (Bool-cases (r == 8)) [
    | inl c ↦
        let here : r ≡ 8 = ground arith in
        absurd (no_local 0 (sym e ∙ ap two_registers.mips_to_local here))
    | inr c ↦ rw (b, c) refl
  ]
]

held : (r l : ℕ) → r ≢ r_mem → r ≡ owner 8 9 r_mem l → machine.locals l ≡ int (registers r)
held r zero n same = ap (λ (k : ℕ). int (registers k)) (sym same)
held r (suc zero) n same = ap (λ (k : ℕ). int (registers k)) (sym same)
held r (suc (suc l)) n same = absurd (n same)

small_registers : (r : ℕ) → registers r < two32
small_registers r = elim (Bool-cases (r == 9)) [
  | inl b ↦ rw b (omega arith)
  | inr b ↦ elim (Bool-cases (r == 8)) [
    | inl c ↦ rw (b, c) (omega arith)
    | inr c ↦ rw (b, c) (omega arith)
  ]
]

machine-Holds : Holds two_registers registers machine.locals
machine-Holds = record {
  no_static = λ r. refl;
  distinct = λ r s l h k. three-owner 8 9 r_mem r l h ∙ sym (three-owner 8 9 r_mem s l k);
  zero_is = refl;
  unused = unused_is;
  in_local = λ r l n h. held r l n (three-owner 8 9 r_mem r l h);
  memory_in = λ l h. ap variables (sym (some_inj 2 l h));
  word_size = small_registers;
}

nine-Writable : Writable two_registers 9
nine-Writable = record { local = 1; has_local = refl; no_zero = omega arith; no_mem = omega arith }

abbrev add_three : Assembly
add_three = immediate addiu_i 8 9 65533

create-encode_example : create (encode add_three) ≡ some (class add_three)
create-encode_example = create-encode add_three (omega arith, omega arith, omega arith)

create-pass2_example :
    (i : Arithmetic) × (create (encode add_three) ≡ some (arithmetic i))
    × Runs
        (max_stack_height i + 2)
        two_registers
        (pass2 two_registers i)
        (stacked machine [])
        (at registers 9 (value registers add_three))
        machine.memory
create-pass2_example =
    create-pass2 two_registers registers machine add_three tt
      (omega arith, omega arith, omega arith) machine-Holds nine-Writable

set_allocation-IsAllocated_example :
    (out : RegisterAllocator) × (set_allocation registers new_allocator ≡ some out)
    × IsAllocated registers out
    × (out.mips_to_static ≡ new_allocator.mips_to_static)
set_allocation-IsAllocated_example = set_allocation-IsAllocated registers new_allocator

exec-pushconst_example :
    exec 1 (bc_pushconst (negsuc 40000) ++ []) machine ≡ exec 1 [] (push machine (int 4294927295))
exec-pushconst_example = exec-pushconst 1 (negsuc 40000) [] machine (omega arith) (omega arith)
