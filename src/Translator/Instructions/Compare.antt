-- ===== src/Translator/Instructions/Compare.antt =====
-- set.cc: comparisons by `lcmp` on `long`s.
use cibyl.Base.{
  ℕ, ◌+◌, ◌-◌, ◌%◌, ◌^◌, ◌≤◌, ◌<◌, ◌≡◌, ◌≢◌, refl, ap, ◌∙◌, Bool, List, [], ◌∷◌, ◌++◌, ltb, arith,
}
use cibyl.Base.Int.{ℤ, pos}
use cibyl.Translator.Mips.{r_mem}
use cibyl.Translator.Registers.{RegisterAllocator, at}
use cibyl.Translator.Emit.{
  Insn, iadd, ishr, i2l, land, lcmp, bc_pushconst, bc_pushconst_l, bc_pushregister, bc_popregister,
}
use cibyl.Translator.Jvm.{
  Value, int, long, Machine, two32, two64, compare_long, i2l_bits, to_word, shift_right, step,
  slots, exec,
}
use cibyl.Translator.Run.{Holds, IsInt}
use cibyl.Translator.Writes.{Runs}
use cibyl.Translator.Instructions.{is_above, slt_pass2, sltu_pass2, slti_pass2, sltiu_pass2}
use cibyl.Translator.Instructions.Semantics.{less_signed, bit}
use cibyl.Translator.Instructions.Stack.{
  Writable, stacked, run_register, run_const, run_one, run_widen, run_long, Runs-store,
}
use cibyl.Translator.Instructions.Formats.{to_word-small}

-- The number that the end of the tests leaves on the stack.
abbrev left_by : ℕ → ℕ
left_by c = shift_right ((c + 1) % two32) (1 % 32)

above :
    (a b : ℕ) → left_by (compare_long a b) ≡ bit (ltb ((b + 2 ^ 63) % two64) ((a + 2 ^ 63) % two64))
above a b = ground arith

above-unsigned : (a b : ℕ) → a < two32 → b < two32 → left_by (compare_long a b) ≡ bit (ltb b a)
above-unsigned a b h k = above a b ∙ ground arith

above-signed :
    (a b : ℕ)
    → a < two32
    → b < two32
    → left_by (compare_long (i2l_bits a) (i2l_bits b)) ≡ bit (less_signed b a)
above-signed a b h k = above (i2l_bits a) (i2l_bits b) ∙ ground arith

bit-small : (b : Bool) → bit b < two32
bit-small b = ground arith

module _ (regalloc : RegisterAllocator) (regs : ℕ → ℕ) (limit : ℕ) (m : Machine)
    (h : Holds regalloc regs m.locals) (room : 4 ≤ limit) where
  run_above :
      (a b rd : ℕ)
      → exec limit (is_above regalloc rd) (stacked m (long b ∷ long a ∷ []))
        ≡ exec limit
            (bc_popregister regalloc rd)
            (stacked m (int (left_by (compare_long a b)) ∷ []))
  unfolding is_above step
  run_above a b rd =
      let c = compare_long a b in
      let last = bc_popregister regalloc rd in
      let halve = bc_pushconst (pos 1) ++ (ishr ∷ last) in
      run_one regalloc regs limit m h lcmp (bc_pushconst (pos 1) ++ (iadd ∷ halve))
        (long b ∷ long a ∷ []) (int c ∷ []) refl (omega arith)
      ∙ run_const regalloc regs limit m h (pos 1) (iadd ∷ halve) (int c ∷ []) (omega arith)
          (omega arith)
      ∙ run_one regalloc regs limit m h iadd halve (int 1 ∷ int c ∷ []) (int ((c + 1) % two32) ∷ [])
          refl (omega arith)
      ∙ run_const regalloc regs limit m h (pos 1) (ishr ∷ last) (int ((c + 1) % two32) ∷ [])
          (omega arith) (omega arith)
      ∙ run_one regalloc regs limit m h ishr last (int 1 ∷ int ((c + 1) % two32) ∷ [])
          (int (left_by c) ∷ []) refl (omega arith)

  -- A comparison of two `long`s is stored.
  Runs-above :
      (code : List Insn) (a b rd : ℕ) (t : Bool)
      → Writable regalloc rd
      → left_by (compare_long a b) ≡ bit t
      → exec limit code (stacked m [])
        ≡ exec limit (is_above regalloc rd) (stacked m (long b ∷ long a ∷ []))
      → Runs limit regalloc code (stacked m []) (at regs rd (bit t)) m.memory
  Runs-above code a b rd t w e run =
      Runs-store regalloc regs limit m h code rd (bit t) w (bit-small t) (
        run
        ∙ run_above a b rd
        ∙ ap (λ (v : ℕ). exec limit (bc_popregister regalloc rd) (stacked m (int v ∷ []))) e)

  run_signed :
      (a : ℕ) (rest : List Insn) (s : List Value)
      → slots s + 2 ≤ limit
      → exec limit (i2l ∷ rest) (stacked m (int a ∷ s))
        ≡ exec limit rest (stacked m (long (i2l_bits a) ∷ s))
  unfolding step
  run_signed a rest s fits =
      run_one regalloc regs limit m h i2l rest (int a ∷ s) (long (i2l_bits a) ∷ s) refl
        (omega arith)

  pub slt_pass2_lem :
      (rs rt rd : ℕ)
      → rs ≢ r_mem
      → rt ≢ r_mem
      → Writable regalloc rd
      → Runs limit regalloc
          (slt_pass2 regalloc rs rt rd)
          (stacked m [])
          (at regs rd (bit (less_signed (regs rs) (regs rt))))
          m.memory
  unfolding slt_pass2
  slt_pass2_lem rs rt rd ns nt w =
      let a = i2l_bits (regs rt) in
      let b = i2l_bits (regs rs) in
      let tail = i2l ∷ is_above regalloc rd in
      Runs-above _ a b rd (less_signed (regs rs) (regs rt)) w
        (above-signed (regs rt) (regs rs) (h.word_size rt) (h.word_size rs))
        (run_register regalloc regs limit m h rt (i2l ∷ (bc_pushregister regalloc rs ++ tail)) [] nt
            (omega arith)
          ∙ run_signed (regs rt) (bc_pushregister regalloc rs ++ tail) [] (omega arith)
          ∙ run_register regalloc regs limit m h rs tail (long a ∷ []) ns (omega arith)
          ∙ run_signed (regs rs) (is_above regalloc rd) (long a ∷ []) (omega arith))

  pub slti_pass2_lem :
      (rs rt : ℕ) (extra : ℤ)
      → IsInt extra
      → rs ≢ r_mem
      → Writable regalloc rt
      → Runs limit regalloc
          (slti_pass2 regalloc rs rt extra)
          (stacked m [])
          (at regs rt (bit (less_signed (regs rs) (to_word extra))))
          m.memory
  unfolding slti_pass2
  slti_pass2_lem rs rt extra small ns w =
      let k = to_word extra in
      let a = i2l_bits k in
      let tail = i2l ∷ is_above regalloc rt in
      Runs-above _ a (i2l_bits (regs rs)) rt (less_signed (regs rs) k) w
        (above-signed k (regs rs) (to_word-small extra) (h.word_size rs))
        (run_const regalloc regs limit m h extra (i2l ∷ (bc_pushregister regalloc rs ++ tail)) []
            small (omega arith)
          ∙ run_signed k (bc_pushregister regalloc rs ++ tail) [] (omega arith)
          ∙ run_register regalloc regs limit m h rs tail (long a ∷ []) ns (omega arith)
          ∙ run_signed (regs rs) (is_above regalloc rt) (long a ∷ []) (omega arith))

module _ (regalloc : RegisterAllocator) (regs : ℕ → ℕ) (limit : ℕ) (m : Machine)
    (h : Holds regalloc regs m.locals) (room : 6 ≤ limit) where
  pub sltu_pass2_lem :
      (rs rt rd : ℕ)
      → rs ≢ r_mem
      → rt ≢ r_mem
      → Writable regalloc rd
      → Runs limit regalloc
          (sltu_pass2 regalloc rs rt rd)
          (stacked m [])
          (at regs rd (bit (ltb (regs rs) (regs rt))))
          m.memory
  unfolding sltu_pass2
  sltu_pass2_lem rs rt rd ns nt w =
      let widen = λ (rest : List Insn). i2l ∷ (bc_pushconst_l (two32 - 1) ++ (land ∷ rest)) in
      let last = is_above regalloc rd in
      let second = bc_pushregister regalloc rs ++ widen last in
      Runs-above regalloc regs limit m h (omega arith) _ (regs rt) (regs rs) rd
        (ltb (regs rs) (regs rt)) w
        (above-unsigned (regs rt) (regs rs) (h.word_size rt) (h.word_size rs))
        (run_register regalloc regs limit m h rt (widen second) [] nt (omega arith)
          ∙ run_widen regalloc regs limit m h (regs rt) second [] (h.word_size rt) (omega arith)
          ∙ run_register regalloc regs limit m h rs (widen last) (long (regs rt) ∷ []) ns
              (omega arith)
          ∙ run_widen regalloc regs limit m h (regs rs) last (long (regs rt) ∷ []) (h.word_size rs)
              (omega arith))

  pub sltiu_pass2_lem :
      (rs rt : ℕ) (extra : ℤ)
      → rs ≢ r_mem
      → Writable regalloc rt
      → Runs limit regalloc
          (sltiu_pass2 regalloc rs rt extra)
          (stacked m [])
          (at regs rt (bit (ltb (regs rs) (to_word extra))))
          m.memory
  unfolding sltiu_pass2
  sltiu_pass2_lem rs rt extra ns w =
      let k = to_word extra in
      let widen = λ (rest : List Insn). i2l ∷ (bc_pushconst_l (two32 - 1) ++ (land ∷ rest)) in
      let last = is_above regalloc rt in
      Runs-above regalloc regs limit m h (omega arith) _ k (regs rs) rt (ltb (regs rs) k) w
        (above-unsigned k (regs rs) (to_word-small extra) (h.word_size rs))
        (run_long regalloc regs limit m h k (bc_pushregister regalloc rs ++ widen last) []
            (to_word-small extra) (omega arith)
          ∙ run_register regalloc regs limit m h rs (widen last) (long k ∷ []) ns (omega arith)
          ∙ run_widen regalloc regs limit m h (regs rs) last (long k ∷ []) (h.word_size rs)
              (omega arith))
