-- ===== src/Translator/Tests/Accesses.antt =====
-- Witnesses: loads and stores.
use cibyl.Base.{ℕ, ◌<◌, ◌≡◌, refl, true, false, [], arith}
use cibyl.Base.Int.{pos}
use cibyl.Translator.Registers.{at}
use cibyl.Translator.Emit.{byte}
use cibyl.Translator.Writes.{Runs}
use cibyl.Translator.Instructions.Stack.{stacked}
use cibyl.Translator.Memory.{Settings, partial_load_pass2, partial_store_pass2}
use cibyl.Translator.Memory.Loads.{partial_load_pass2-byte}
use cibyl.Translator.Memory.Access.{Accessible, Inlines, byte_at, extended}
use cibyl.Translator.Memory.Bytes.{partial_store_pass2-byte_at}
use cibyl.Translator.Tests.{two_registers, registers, machine, machine-Holds, nine-Writable}

eight-Accessible : (n : ℕ) → n < 1000 → Accessible two_registers registers machine 8 (pos n)
eight-Accessible n h = record {
  holds = machine-Holds;
  source = omega arith;
  small = omega arith;
  in_space = omega arith;
  in_memory = omega arith;
  words = λ i. omega arith;
  memory_local = 2;
  has_memory = refl;
}

abbrev inline : Settings
inline = record {
  optimize_partial_memory_ops = false;
  optimize_inlines = true;
  trace_stores = false;
  has_multiple_functions = false;
  bytecode_size = 100;
  other_warned = false;
}

inline-Inlines : Inlines inline 9
inline-Inlines = record { no_subroutines = refl; inlines = refl; fits = refl; kept = refl }

partial_load_pass2-byte_example :
    Runs 7 two_registers
      (partial_load_pass2 inline two_registers [] 8 true byte 8 9 (pos 21))
      (stacked machine [])
      (at registers 9 (extended true 8 (byte_at machine.memory 321)))
      machine.memory
partial_load_pass2-byte_example =
    partial_load_pass2-byte two_registers registers 7 machine 8 (pos 21)
      (eight-Accessible 21 (omega arith)) inline true byte 9 (omega arith) nine-Writable
      inline-Inlines

partial_store_pass2-byte_at_example :
    (memory : ℕ → ℕ) × Runs 10 two_registers
      (partial_store_pass2 inline two_registers [] 8 byte 8 9 (pos 21) (pos 4096))
      (stacked machine [])
      registers
      memory
    × ((b : ℕ) → byte_at memory b ≡ at (byte_at machine.memory) 321 112 b)
partial_store_pass2-byte_at_example =
    partial_store_pass2-byte_at two_registers registers machine inline byte 8 9 (pos 21) (pos 4096)
      (eight-Accessible 21 (omega arith)) (omega arith) inline-Inlines
