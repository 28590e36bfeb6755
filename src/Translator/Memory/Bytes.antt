-- ===== src/Translator/Memory/Bytes.antt =====
-- The words of the memory as bytes: what a store of a byte leaves.
use cibyl.Base.{
  ℕ, zero, suc, ◌-◌, ◌*◌, ◌/◌, ◌%◌, ◌^◌, ◌<◌, ◌≡◌, ◌≢◌, sym, ap, [], ◌∙◌, inl, inr, ◌==◌, arith,
  Bool-cases, if◌then◌else◌,
}
use cibyl.Base.Fields.{with_part}
use cibyl.Base.Int.{ℤ}
use cibyl.Translator.Mips.{r_mem}
use cibyl.Translator.Registers.{RegisterAllocator, at}
use cibyl.Translator.Emit.{Routine}
use cibyl.Translator.Jvm.{two32, Machine}
use cibyl.Translator.Writes.{Runs, at_here, at_apart}
use cibyl.Translator.Memory.{Settings, partial_store_pass2}
use cibyl.Translator.Memory.Index.{address}
use cibyl.Translator.Memory.Access.{Accessible, Inlines, byte_at}
use cibyl.Translator.Memory.Parts.{store_byte, partial_store_pass2-byte}
use cibyl.Translator.Instructions.Stack.{stacked}

-- A byte of a word in which a byte was replaced.
pick :
    (p q w v : ℕ)
    → w < two32
    → v < 2 ^ 8
    → p < 4
    → q < 4
    → with_part ((3 - p) * 8) 8 w v / 2 ^ (8 * (3 - q)) % 2 ^ 8
      ≡ (if q == p then v else w / 2 ^ (8 * (3 - q)) % 2 ^ 8)
pick zero zero w v h g l k = omega arith
pick zero (suc zero) w v h g l k = omega arith
pick zero (suc (suc zero)) w v h g l k = omega arith
pick zero (suc (suc (suc zero))) w v h g l k = omega arith
pick zero (suc (suc (suc (suc q)))) w v h g l k = absurd (omega arith)
pick (suc zero) zero w v h g l k = omega arith
pick (suc zero) (suc zero) w v h g l k = omega arith
pick (suc zero) (suc (suc zero)) w v h g l k = omega arith
pick (suc zero) (suc (suc (suc zero))) w v h g l k = omega arith
pick (suc zero) (suc (suc (suc (suc q)))) w v h g l k = absurd (omega arith)
pick (suc (suc zero)) zero w v h g l k = omega arith
pick (suc (suc zero)) (suc zero) w v h g l k = omega arith
pick (suc (suc zero)) (suc (suc zero)) w v h g l k = omega arith
pick (suc (suc zero)) (suc (suc (suc zero))) w v h g l k = omega arith
pick (suc (suc zero)) (suc (suc (suc (suc q)))) w v h g l k = absurd (omega arith)
pick (suc (suc (suc zero))) zero w v h g l k = omega arith
pick (suc (suc (suc zero))) (suc zero) w v h g l k = omega arith
pick (suc (suc (suc zero))) (suc (suc zero)) w v h g l k = omega arith
pick (suc (suc (suc zero))) (suc (suc (suc zero))) w v h g l k = omega arith
pick (suc (suc (suc zero))) (suc (suc (suc (suc q)))) w v h g l k = absurd (omega arith)
pick (suc (suc (suc (suc p)))) q w v h g l k = absurd (omega arith)

-- A byte is found where it was stored, and every other byte is as it was.
pub byte_at-store :
    (memory : ℕ → ℕ) (a v b : ℕ)
    → memory (a / 4) < two32
    → v < 2 ^ 8
    → byte_at (store_byte memory a v) b ≡ at (byte_at memory) a v b
byte_at-store memory a v b h g = elim (Bool-cases (b / 4 == a / 4)) [
  | inl same ↦
      let word : b / 4 ≡ a / 4 = ground arith in
      let new = with_part ((3 - a % 4) * 8) 8 (memory (a / 4)) v in
      ap (λ (t : ℕ). t / 2 ^ (8 * (3 - b % 4)) % 2 ^ 8) (at_here memory (a / 4) (b / 4) new word)
      ∙ pick (a % 4) (b % 4) (memory (a / 4)) v h g (omega arith) (omega arith)
      ∙ same_word word
  | inr apart ↦
      let other : b / 4 ≢ a / 4 = ground arith in
      let far : b ≢ a = λ e. other (ap (λ (t : ℕ). t / 4) e) in
      ap (λ (t : ℕ). t / 2 ^ (8 * (3 - b % 4)) % 2 ^ 8) (at_apart memory (a / 4) (b / 4) _ other)
      ∙ sym (at_apart (byte_at memory) a b v far)
]
  where
    same_word :
        b / 4 ≡ a / 4
        → (if b % 4 == a % 4 then v else memory (a / 4) / 2 ^ (8 * (3 - b % 4)) % 2 ^ 8)
          ≡ at (byte_at memory) a v b
    same_word word = elim (Bool-cases (b % 4 == a % 4)) [
      | inl e ↦ let here : b ≡ a = ground arith in rw e (sym (at_here (byte_at memory) a b v here))
      | inr n ↦
          let off : b % 4 ≢ a % 4 = ground arith in
          let far : b ≢ a = λ e. off (ap (λ (t : ℕ). t % 4) e) in
          rw n (
            ap (λ (t : ℕ). memory t / 2 ^ (8 * (3 - b % 4)) % 2 ^ 8) (sym word)
            ∙ sym (at_apart (byte_at memory) a b v far))
    ]

-- The code of a store of a byte, where it is inline, runs within the stack that is declared for it,
-- and leaves a memory whose big-endian byte at the address is the low byte of the register and
-- whose other bytes are as they were, as the registers are, for an access that the program may
-- make.
pub partial_store_pass2-byte_at :
    (regalloc : RegisterAllocator) (regs : ℕ → ℕ) (m : Machine) (settings : Settings) (bc : Routine)
    (rs rt : ℕ) (extra pc : ℤ)
    → Accessible regalloc regs m rs extra
    → rt ≢ r_mem
    → Inlines settings rt
    → (memory : ℕ → ℕ) × Runs 10 regalloc
        (partial_store_pass2 settings regalloc [] 8 bc rs rt extra pc)
        (stacked m [])
        regs
        memory
      × ((b : ℕ)
          → byte_at memory b ≡ at (byte_at m.memory) (address (regs rs) extra) (regs rt % 2 ^ 8) b)
partial_store_pass2-byte_at regalloc regs m settings bc rs rt extra pc ok nt inl_ok =
    let a = address (regs rs) extra in
    let v = regs rt % 2 ^ 8 in
    (
      store_byte m.memory a v,
      partial_store_pass2-byte regalloc regs 10 m rs extra ok settings bc rt pc (omega arith) nt
          inl_ok,
      λ b. byte_at-store m.memory a v b (ok.words (a / 4)) (omega arith),
    )
