-- ===== src/Translator/Instructions/Increment.antt =====
-- `Addi`, which may increment a local variable in place.
use cibyl.Base.{
  ℕ, ◌+◌, ◌-◌, ◌%◌, ◌^◌, ◌≤◌, ◌<◌, ◌≡◌, ◌≢◌, refl, sym, true, false, inl, inr, [], ltb, ◌==◌, arith,
  Bool-cases,
}
use cibyl.Base.Int.{ℤ, pos, negsuc}
use cibyl.Translator.Mips.{r_zero, r_mem}
use cibyl.Translator.Registers.{RegisterAllocator, at}
use cibyl.Translator.Emit.{iadd, bc_iinc, bc_popregister}
use cibyl.Translator.Jvm.{int, Machine, two32, in_range, to_word, step, exec}
use cibyl.Translator.Run.{Holds, IsInt}
use cibyl.Translator.Writes.{Runs, Holds-at}
use cibyl.Translator.Instructions.{int_in, signext_16, addi_pass2, ifmt_pass2}
use cibyl.Translator.Instructions.Semantics.{operation}
use cibyl.Translator.Instructions.Stack.{Writable, stacked, run_const, Runs-store}
use cibyl.Translator.Instructions.Formats.{to_word-small, ifmt_pass2_lem}
use cibyl.Translator.Instructions.Special.{zero_register}

-- The constants of an instruction: the source extends their sign.
abbrev pub IsHalf : ℤ → Type 0
IsHalf (pos n) = n < 2 ^ 15
IsHalf (negsuc n) = n < 2 ^ 15

pub signext_16-IsHalf : (z : ℤ) → IsHalf z → (signext_16 z ≡ z) × (int_in 32768 z ≡ true) × IsInt z
signext_16-IsHalf (pos n) h =
    let low : n % 2 ^ 32 % 2 ^ 16 ≡ n = omega arith in
    let sign : ltb n (2 ^ 15) ≡ true = ground arith in (rw (low, sign) refl, sign, omega arith)
signext_16-IsHalf (negsuc n) h =
    let low : (2 ^ 32 - 1 - n % 2 ^ 32) % 2 ^ 16 ≡ 2 ^ 16 - 1 - n = omega arith in
    let sign : ltb (2 ^ 16 - 1 - n) (2 ^ 15) ≡ false = ground arith in
    let same : 2 ^ 16 - 1 - (2 ^ 16 - 1 - n) ≡ n = omega arith in
    let fits : ltb n (2 ^ 15) ≡ true = ground arith in
    (rw (low, sign, same) refl, fits, omega arith)

in_range-half : (z : ℤ) → int_in 32768 z ≡ true → in_range 32768 32768 z ≡ true
in_range-half (pos n) e = e
in_range-half (negsuc n) e = e

module _ (regalloc : RegisterAllocator) (regs : ℕ → ℕ) (limit : ℕ) (m : Machine)
    (h : Holds regalloc regs m.locals) (room : 2 ≤ limit) where
  Runs-iinc :
      (r : ℕ) (extra : ℤ)
      → Writable regalloc r
      → int_in 32768 extra ≡ true
      → Runs limit regalloc
          (bc_iinc regalloc r extra)
          (stacked m [])
          (at regs r ((regs r + to_word extra) % two32))
          m.memory
  unfolding bc_iinc step exec
  Runs-iinc r extra w fits =
      let sum = (regs r + to_word extra) % two32 in
      record {
        out = record m { locals = at m.locals w.local (int sum); stack = [] };
        runs =
            let empty : ltb limit 0 ≡ false = ground arith in
            rw
              (
                w.has_local,
                in_range-half extra fits,
                h.in_local r w.local w.no_mem w.has_local,
                empty,
              )
              refl;
        registers =
            Holds-at regalloc regs m.locals h r w.local sum w.no_zero w.no_mem w.has_local
              (omega arith);
        in_memory = refl;
        same_size = refl;
        emptied = refl;
      }

  pub addi_pass2_lem :
      (rs rt : ℕ) (extra : ℤ)
      → IsHalf extra
      → rs ≢ r_mem
      → Writable regalloc rt
      → Runs limit regalloc
          (addi_pass2 regalloc rs rt extra)
          (stacked m [])
          (at regs rt ((regs rs + to_word extra) % two32))
          m.memory
  unfolding addi_pass2 ifmt_pass2 operation
  addi_pass2_lem rs rt extra half ns w =
      let (same, fits, small) = signext_16-IsHalf extra half in
      elim (Bool-cases (rs == r_zero)) [
        | inl s ↦
            let none : regs rs ≡ 0 = zero_register regalloc regs limit m h room rs (ground arith) in
            let word : (0 + to_word extra) % two32 ≡ to_word extra =
              omega (arith, to_word-small extra) in
            rw (s, none, word)
              (Runs-store regalloc regs limit m h _ rt (to_word extra) w (to_word-small extra) (
                run_const regalloc regs limit m h extra (bc_popregister regalloc rt) [] small
                  (omega arith)))
        | inr s ↦ elim (Bool-cases (rt == rs)) [
          | inl t ↦
              let one : rs ≡ rt = sym (ground arith) in
              rw (s, t, same, fits, h.no_static rt, one) (Runs-iinc rt extra w fits)
          | inr t ↦
              rw (s, t)
                (ifmt_pass2_lem regalloc regs limit m h room iadd rs rt extra refl small ns w)
        ]
      ]
