-- ===== src/Translator/Memory/Parts.antt =====
-- Stores of a byte or a half: `PartialStore`.
use cibyl.Base.{
  ℕ, zero, suc, ◌+◌, ◌-◌, ◌*◌, ◌/◌, ◌%◌, ◌^◌, ◌≤◌, ◌<◌, ◌≡◌, ◌≢◌, refl, sym, ap, ◌∙◌, true, [], ◌∷◌,
  ◌++◌, ltb, arith, bit_and,
}
use cibyl.Base.Bits.{bit_and_three}
use cibyl.Base.Masks.{bit_and_two}
use cibyl.Base.Fields.{with_part, cleared}
use cibyl.Base.Int.{ℤ, pos}
use cibyl.Translator.Mips.{r_mem}
use cibyl.Translator.Registers.{RegisterAllocator, at}
use cibyl.Translator.Emit.{
  Routine, dup2, iaload, iastore, bc_pushconst, bc_pushregister, bc_pushindex,
}
use cibyl.Translator.Jvm.{int, ref, Machine, two32, step, exec}
use cibyl.Translator.Writes.{Runs}
use cibyl.Translator.Memory.{Settings, partial_store_pass2, push_shift, replace_part}
use cibyl.Translator.Memory.Index.{address, run_shift, run_piece}
use cibyl.Translator.Memory.Access.{Accessible, Inlines}
use cibyl.Translator.Memory.Stores.{Part, run_place, Runs-iastore, run_replace}
use cibyl.Translator.Instructions.Stack.{stacked, run_const, run_one}

part :
    (k n c w v : ℕ)
    → k < 32
    → 2 ^ n - 1 < 2 ^ 16
    → two32 - 1 - (2 ^ n - 1) * 2 ^ k % two32 ≡ 2 ^ k - 1 + (0 + (2 ^ c - 1) * 2 ^ n) * 2 ^ k
    → w / 2 ^ k / 2 ^ n < 2 ^ c
    → v * 2 ^ k < two32
    → v < 2 ^ n
    → Part k n w v
part k n c w v low narrow mask high fits value = record {
  low = low;
  narrow = narrow;
  clear = ap (λ (t : ℕ). bit_and w t) mask ∙ cleared k n c w high;
  fits = fits;
  value = value;
}

byte-Part : (q w v : ℕ) → w < two32 → v < 2 ^ 8 → q < 4 → Part ((3 - q) * 8) 8 w v
byte-Part zero w v h g l =
    part 24 8 0 w v (omega arith) (omega arith) refl (omega arith) (omega arith) g
byte-Part (suc zero) w v h g l =
    part 16 8 8 w v (omega arith) (omega arith) refl (omega arith) (omega arith) g
byte-Part (suc (suc zero)) w v h g l =
    part 8 8 16 w v (omega arith) (omega arith) refl (omega arith) (omega arith) g
byte-Part (suc (suc (suc zero))) w v h g l =
    part 0 8 24 w v (omega arith) (omega arith) refl (omega arith) (omega arith) g
byte-Part (suc (suc (suc (suc q)))) w v h g l = absurd (omega arith)

half-Part : (q w v : ℕ) → w < two32 → v < 2 ^ 16 → q < 2 → Part ((2 - q * 2) * 8) 16 w v
half-Part zero w v h g l =
    part 16 16 0 w v (omega arith) (omega arith) refl (omega arith) (omega arith) g
half-Part (suc zero) w v h g l =
    part 0 16 16 w v (omega arith) (omega arith) refl (omega arith) (omega arith) g
half-Part (suc (suc q)) w v h g l = absurd (omega arith)

-- Memory with another byte, or another half, at an address.
abbrev pub store_byte : (ℕ → ℕ) → ℕ → ℕ → ℕ → ℕ
store_byte memory a v = at memory (a / 4) (with_part ((3 - a % 4) * 8) 8 (memory (a / 4)) v)

abbrev pub store_half : (ℕ → ℕ) → ℕ → ℕ → ℕ → ℕ
store_half memory a v = at memory (a / 4) (with_part ((2 - a % 4) * 8) 16 (memory (a / 4)) v)

module _ (regalloc : RegisterAllocator) (regs : ℕ → ℕ) (limit : ℕ) (m : Machine) (rs : ℕ)
    (extra : ℤ) (ok : Accessible regalloc regs m rs extra) where
  Runs-replace :
      (b n k rt : ℕ)
      → 7 ≤ limit
      → rt ≢ r_mem
      → b < 4
      → bit_and (address (regs rs) extra) b ≤ b
      → (b - bit_and (address (regs rs) extra) b) * 8 ≡ k
      → Part k n (m.memory (address (regs rs) extra / 4)) (regs rt % 2 ^ n)
      → Runs limit regalloc
          (bc_pushregister regalloc r_mem
            ++ (bc_pushindex regalloc rs extra
                ++ (dup2
                    ∷ (iaload
                        ∷ (bc_pushconst (pos (2 ^ n - 1))
                            ++ (push_shift regalloc b rs extra
                                ++ (replace_part regalloc (2 ^ n - 1) rt ++ (iastore ∷ []))))))))
          (stacked m [])
          regs
          (at m.memory
            (address (regs rs) extra / 4)
            (with_part k n (m.memory (address (regs rs) extra / 4)) (regs rt % 2 ^ n)))
  unfolding step
  Runs-replace b n k rt room nt low below shift p =
      let i = address (regs rs) extra / 4 in
      let w = m.memory i in
      let mask = 2 ^ n - 1 in
      let narrow = p.narrow in
      let inside : ltb i m.size ≡ true = ground (arith, ok.in_memory) in
      let word : mask % two32 ≡ mask = omega arith in
      let one = run_one regalloc regs limit m ok.holds in
      let s = int i ∷ ref ∷ [] in
      let c4 = replace_part regalloc mask rt ++ (iastore ∷ []) in
      let c3 = push_shift regalloc b rs extra ++ c4 in
      let c2 = bc_pushconst (pos mask) ++ c3 in
      let below_shift = int mask ∷ int w ∷ s in
      Runs-iastore regalloc regs limit m rs extra ok _ (with_part k n w (regs rt % 2 ^ n)) (
        run_place regalloc regs limit m rs extra ok (dup2 ∷ (iaload ∷ c2)) (omega arith)
        ∙ one dup2 (iaload ∷ c2) s (int i ∷ ref ∷ s) refl (omega arith)
        ∙ one iaload c2 (int i ∷ ref ∷ s) (int w ∷ s) (rw inside refl) (omega arith)
        ∙ run_const regalloc regs limit m ok.holds (pos mask) c3 (int w ∷ s) (omega arith)
            (omega arith)
        ∙ ap (λ (t : ℕ). exec limit c3 (stacked m (int t ∷ int w ∷ s))) word
        ∙ run_piece limit (push_shift regalloc b rs extra) c4 (stacked m below_shift)
            (stacked m (int ((b - bit_and (address (regs rs) extra) b) * 8) ∷ below_shift))
            (run_shift regalloc regs limit m ok.holds b rs extra below_shift ok.source ok.small
              ok.in_space low below (omega arith))
        ∙ ap (λ (t : ℕ). exec limit c4 (stacked m (int t ∷ below_shift))) shift
        ∙ run_piece limit (replace_part regalloc mask rt) (iastore ∷ [])
            (stacked m (int k ∷ below_shift))
            (stacked m (int (with_part k n w (regs rt % 2 ^ n)) ∷ s))
            (run_replace regalloc regs limit m rs extra ok k n w rt s nt (omega arith) p))

  pub partial_store_pass2-byte :
      (settings : Settings) (bc : Routine) (rt : ℕ) (pc : ℤ)
      → 7 ≤ limit
      → rt ≢ r_mem
      → Inlines settings rt
      → Runs limit regalloc
          (partial_store_pass2 settings regalloc [] 8 bc rs rt extra pc)
          (stacked m [])
          regs
          (store_byte m.memory (address (regs rs) extra) (regs rt % 2 ^ 8))
  unfolding partial_store_pass2
  partial_store_pass2-byte settings bc rt pc room nt inl_ok =
      let a = address (regs rs) extra in
      let place = bit_and_three a in
      rw (inl_ok.no_subroutines, inl_ok.inlines, inl_ok.fits, inl_ok.kept)
        (Runs-replace 3 8 ((3 - a % 4) * 8) rt room nt (omega arith) (omega (arith, place))
          (omega (arith, place))
          (byte-Part (a % 4) (m.memory (a / 4)) (regs rt % 2 ^ 8) (ok.words (a / 4)) (omega arith)
            (omega arith)))

  -- The code of a store of a half, where it is inline, runs within seven places of the stack and
  -- replaces the two bytes at an even address by the low half of the register, the registers and
  -- the rest of the memory being as they were, for an access that the program may make.
  pub partial_store_pass2-half :
      (settings : Settings) (bc : Routine) (rt : ℕ) (pc : ℤ)
      → 7 ≤ limit
      → rt ≢ r_mem
      → Inlines settings rt
      → address (regs rs) extra % 2 ≡ 0
      → Runs limit regalloc
          (partial_store_pass2 settings regalloc [] 16 bc rs rt extra pc)
          (stacked m [])
          regs
          (store_half m.memory (address (regs rs) extra) (regs rt % 2 ^ 16))
  unfolding partial_store_pass2
  partial_store_pass2-half settings bc rt pc room nt inl_ok even =
      let a = address (regs rs) extra in
      let place = bit_and_two a in
      let half : (2 - a % 4 / 2 * 2) * 8 ≡ (2 - a % 4) * 8 = omega arith in
      rw (inl_ok.no_subroutines, inl_ok.inlines, inl_ok.fits, inl_ok.kept)
        (Runs-replace 2 16 ((2 - a % 4) * 8) rt room nt (omega arith) (omega (arith, place))
          (omega (arith, place))
          (rw (sym half) (
            half-Part (a % 4 / 2) (m.memory (a / 4)) (regs rt % 2 ^ 16) (ok.words (a / 4))
              (omega arith) (omega arith))))
