-- ===== src/Translator/Instructions/Special.antt =====
-- Instructions whose code depends on the registers: a constant 0 is not computed with.
use cibyl.Base.{
  ℕ, ◌+◌, ◌-◌, ◌*◌, ◌%◌, ◌^◌, ◌≤◌, ◌<◌, ◌≡◌, ◌≢◌, refl, ap, ◌∙◌, inl, inr, List, [], ◌∷◌, ◌++◌,
  ◌==◌, arith, Bool-cases, ne→==, bit_or,
}
use cibyl.Base.Bits.{zero-bit_or}
use cibyl.Base.Masks.{bit_or-fits, bit_xor_mask, bit_or-zero}
use cibyl.Base.Int.{negsuc}
use cibyl.Translator.Mips.{r_zero, r_mem}
use cibyl.Translator.Registers.{RegisterAllocator, at}
use cibyl.Translator.Emit.{
  Insn, iadd, isub, ineg, ior, ixor, bc_pushconst, bc_pushregister, bc_popregister,
}
use cibyl.Translator.Jvm.{int, Machine, two32, step, exec}
use cibyl.Translator.Run.{Holds, exec-pushconst_u}
use cibyl.Translator.Writes.{Runs}
use cibyl.Translator.Instructions.{rfmt_pass2, addu_pass2, subu_pass2, nor_pass2, lui_pass2}
use cibyl.Translator.Instructions.Semantics.{operation}
use cibyl.Translator.Instructions.Stack.{
  Writable, stacked, run_register, run_const, run_one, Runs-store,
}
use cibyl.Translator.Instructions.Formats.{no_nop, one_register, rfmt_pass2_lem}

module _ (regalloc : RegisterAllocator) (regs : ℕ → ℕ) (limit : ℕ) (m : Machine)
    (h : Holds regalloc regs m.locals) (room : 2 ≤ limit) where
  pub zero_register : (r : ℕ) → r ≡ 0 → regs r ≡ 0
  zero_register r e = ap regs e ∙ h.zero_is

  pub addu_pass2_lem :
      (rs rt rd : ℕ)
      → rs ≢ r_mem
      → rt ≢ r_mem
      → Writable regalloc rd
      → Runs limit regalloc
          (addu_pass2 regalloc rs rt rd)
          (stacked m [])
          (at regs rd ((regs rs + regs rt) % two32))
          m.memory
  unfolding addu_pass2 rfmt_pass2 operation
  addu_pass2_lem rs rt rd ns nt w =
      let emits = no_nop (rt == 0) (rs == 0) (rd == 0) (ne→== rd 0 w.no_zero) in
      elim (Bool-cases (rt == 0)) [
        | inl t ↦
            let none : regs rt ≡ 0 = zero_register rt (ground arith) in
            let same : (regs rs + regs rt) % two32 ≡ regs rs = omega (arith, h.word_size rs) in
            rw (emits, t, same) (one_register regalloc regs limit m h room rs rd ns w)
        | inr t ↦ elim (Bool-cases (rs == 0)) [
          | inl s ↦
              let none : regs rs ≡ 0 = zero_register rs (ground arith) in
              let same : (regs rs + regs rt) % two32 ≡ regs rt = omega (arith, h.word_size rt) in
              rw (emits, t, s, same) (one_register regalloc regs limit m h room rt rd nt w)
          | inr s ↦
              rw (emits, t, s)
                (rfmt_pass2_lem regalloc regs limit m h room iadd rs rt rd refl ns nt w)
        ]
      ]

  pub subu_pass2_lem :
      (rs rt rd : ℕ)
      → rs ≢ r_mem
      → rt ≢ r_mem
      → Writable regalloc rd
      → Runs limit regalloc
          (subu_pass2 regalloc rs rt rd)
          (stacked m [])
          (at regs rd ((regs rs + two32 - regs rt) % two32))
          m.memory
  unfolding subu_pass2 rfmt_pass2 operation step
  subu_pass2_lem rs rt rd ns nt w = elim (Bool-cases (rs == r_zero)) [
    | inl s ↦
        let none : regs rs ≡ 0 = zero_register rs (ground arith) in
        rw (s, none)
          (Runs-store regalloc regs limit m h _ rd ((two32 - regs rt) % two32) w (omega arith) (
            run_register regalloc regs limit m h rt (ineg ∷ bc_popregister regalloc rd) [] nt
              (omega arith)
            ∙ run_one regalloc regs limit m h ineg (bc_popregister regalloc rd) (int (regs rt) ∷ [])
                (int ((two32 - regs rt) % two32) ∷ []) refl (omega arith)))
    | inr s ↦ rw s (rfmt_pass2_lem regalloc regs limit m h room isub rs rt rd refl ns nt w)
  ]

  -- A value on the stack is complemented and stored.
  run_invert :
      (v : ℕ) (rest : List Insn)
      → v < two32
      → exec limit (bc_pushconst (negsuc 0) ++ (ixor ∷ rest)) (stacked m (int v ∷ []))
        ≡ exec limit rest (stacked m (int (two32 - 1 - v) ∷ []))
  unfolding step
  run_invert v rest small =
      run_const regalloc regs limit m h (negsuc 0) (ixor ∷ rest) (int v ∷ []) (omega arith)
        (omega arith)
      ∙ run_one regalloc regs limit m h ixor rest (int (two32 - 1) ∷ int v ∷ [])
          (int (two32 - 1 - v) ∷ []) (rw (bit_xor_mask 32 v small) refl) (omega arith)

  pub nor_pass2_lem :
      (rs rt rd : ℕ)
      → rs ≢ r_mem
      → rt ≢ r_mem
      → Writable regalloc rd
      → Runs limit regalloc
          (nor_pass2 regalloc rs rt rd)
          (stacked m [])
          (at regs rd (two32 - 1 - bit_or (regs rs) (regs rt)))
          m.memory
  unfolding nor_pass2 step
  nor_pass2_lem rs rt rd ns nt w =
      let invert = bc_pushconst (negsuc 0) ++ (ixor ∷ bc_popregister regalloc rd) in
      elim (Bool-cases (rs == r_zero)) [
        | inl s ↦
            let none : regs rs ≡ 0 = zero_register rs (ground arith) in
            elim (Bool-cases (rt == r_zero)) [
              | inl t ↦
                  let none' : regs rt ≡ 0 = zero_register rt (ground arith) in
                  rw (s, t, none, none', zero-bit_or 0)
                    (Runs-store regalloc regs limit m h _ rd (two32 - 1) w (omega arith) (
                      run_const regalloc regs limit m h (negsuc 0) (bc_popregister regalloc rd) []
                        (omega arith) (omega arith)))
              | inr t ↦
                  rw (s, t, none, zero-bit_or (regs rt))
                    (Runs-store regalloc regs limit m h _ rd (two32 - 1 - regs rt) w (omega arith) (
                      run_register regalloc regs limit m h rt invert [] nt (omega arith)
                      ∙ run_invert (regs rt) (bc_popregister regalloc rd) (h.word_size rt)))
            ]
        | inr s ↦ elim (Bool-cases (rt == r_zero)) [
          | inl t ↦
              let none' : regs rt ≡ 0 = zero_register rt (ground arith) in
              rw (s, t, none', bit_or-zero (regs rs))
                (Runs-store regalloc regs limit m h _ rd (two32 - 1 - regs rs) w (omega arith) (
                  run_register regalloc regs limit m h rs invert [] ns (omega arith)
                  ∙ run_invert (regs rs) (bc_popregister regalloc rd) (h.word_size rs)))
          | inr t ↦
              let both = bit_or (regs rs) (regs rt) in
              rw (s, t)
                (Runs-store regalloc regs limit m h _ rd (two32 - 1 - both) w (omega arith) (
                  run_register regalloc regs limit m h rs
                    (bc_pushregister regalloc rt ++ (ior ∷ invert)) [] ns (omega arith)
                  ∙ run_register regalloc regs limit m h rt (ior ∷ invert) (int (regs rs) ∷ []) nt
                      (omega arith)
                  ∙ run_one regalloc regs limit m h ior invert (int (regs rt) ∷ int (regs rs) ∷ [])
                      (int both ∷ []) refl (omega arith)
                  ∙ run_invert both (bc_popregister regalloc rd)
                      (bit_or-fits 32 (regs rs) (regs rt) (h.word_size rs) (h.word_size rt))))
        ]
      ]

  pub lui_pass2_lem :
      (rt extra : ℕ)
      → Writable regalloc rt
      → Runs limit regalloc
          (lui_pass2 regalloc rt extra)
          (stacked m [])
          (at regs rt (extra % 2 ^ 16 * 2 ^ 16))
          m.memory
  unfolding lui_pass2
  lui_pass2_lem rt extra w =
      let v = extra % 2 ^ 16 * 2 ^ 16 in
      let same : v % 2 ^ 32 ≡ v = omega arith in
      rw same (
        Runs-store regalloc regs limit m h _ rt v w (omega arith) (
          exec-pushconst_u limit v (bc_popregister regalloc rt) (stacked m []) (omega arith)
            (omega arith)))
