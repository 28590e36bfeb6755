-- ===== src/Translator/Memory/Stores.antt =====
-- Stores: the code of a store changes the word, the byte or the half that the address names.
use cibyl.Base.{
  ℕ, ◌+◌, ◌-◌, ◌*◌, ◌/◌, ◌%◌, ◌^◌, ◌≤◌, ◌<◌, ◌≡◌, ◌≢◌, refl, ◌∙◌, true, false, not, ◌&&◌, some,
  List, [], ◌∷◌, ◌++◌, ltb, ◌==◌, arith, bit_and,
}
use cibyl.Base.Masks.{bit_and_mask, bit_xor_mask}
use cibyl.Base.Fields.{with_part, filled}
use cibyl.Base.Int.{ℤ, pos, negsuc}
use cibyl.Translator.Mips.{r_ra, r_mem}
use cibyl.Translator.Registers.{RegisterAllocator, at}
use cibyl.Translator.Emit.{
  Insn, iand, ior, ixor, ishl, swap, dup_x2, iastore, bc_pushconst, bc_pushregister, bc_pushindex,
}
use cibyl.Translator.Jvm.{Value, int, ref, Machine, two32, step, slots, exec}
use cibyl.Translator.Run.{exec-pushmemory}
use cibyl.Translator.Writes.{Runs}
use cibyl.Translator.Memory.{Settings, sw_pass2, replace_part}
use cibyl.Translator.Memory.Index.{address, run_index, run_piece}
use cibyl.Translator.Memory.Access.{Accessible}
use cibyl.Translator.Instructions.Stack.{stacked, run_register, run_const, run_one}

-- A field of a word, `n` digits above `k`, and a value for it.
pub record Part (k n w v : ℕ) : Type 0 where
  pub low : k < 32
  pub narrow : 2 ^ n - 1 < 2 ^ 16
  pub clear : bit_and w (two32 - 1 - (2 ^ n - 1) * 2 ^ k % two32) ≡ with_part k n w 0
  pub fits : v * 2 ^ k < two32
  pub value : v < 2 ^ n

module _ (regalloc : RegisterAllocator) (regs : ℕ → ℕ) (limit : ℕ) (m : Machine) (rs : ℕ)
    (extra : ℤ) (ok : Accessible regalloc regs m rs extra) where
  -- The array and the index of the word.
  pub run_place :
      (rest : List Insn)
      → 3 ≤ limit
      → exec limit
          (bc_pushregister regalloc r_mem ++ (bc_pushindex regalloc rs extra ++ rest))
          (stacked m [])
        ≡ exec limit rest (stacked m (int (address (regs rs) extra / 4) ∷ ref ∷ []))
  run_place rest room =
      let i = address (regs rs) extra / 4 in
      exec-pushmemory regalloc regs limit ok.memory_local (bc_pushindex regalloc rs extra ++ rest)
        (stacked m []) ok.holds ok.has_memory (omega arith)
      ∙ run_piece limit (bc_pushindex regalloc rs extra) rest (stacked m (ref ∷ []))
          (stacked m (int i ∷ ref ∷ []))
          (run_index regalloc regs limit m ok.holds rs extra (ref ∷ []) ok.source ok.small
            ok.in_space (omega arith))

  -- A word is stored, and the code ends.
  pub Runs-iastore :
      (code : List Insn) (v : ℕ)
      → exec limit code (stacked m [])
        ≡ exec limit
            (iastore ∷ [])
            (stacked m (int v ∷ int (address (regs rs) extra / 4) ∷ ref ∷ []))
      → Runs limit regalloc code (stacked m []) regs (at m.memory (address (regs rs) extra / 4) v)
  unfolding step exec
  Runs-iastore code v run = record {
    out = record m { memory = at m.memory (address (regs rs) extra / 4) v; stack = [] };
    runs =
        let inside : ltb (address (regs rs) extra / 4) m.size ≡ true =
          ground (arith, ok.in_memory) in
        let empty : ltb limit 0 ≡ false = ground arith in run ∙ rw (inside, empty) refl;
    registers = ok.holds;
    in_memory = refl;
    same_size = refl;
    emptied = refl;
  }

  -- The code of `Sw` runs within three places of the stack and puts the register into the word that
  -- the address names, the registers and the rest of the memory being as they were, where the
  -- access is one that the program may make, stores are not traced, and the instruction does not
  -- save the return address of a single function.
  pub sw_pass2_lem :
      (settings : Settings) (rt : ℕ) (pc : ℤ)
      → 3 ≤ limit
      → rt ≢ r_mem
      → settings.trace_stores ≡ false
      → (rt == r_ra && not settings.has_multiple_functions) ≡ false
      → Runs limit regalloc
          (sw_pass2 settings regalloc [] rs rt extra pc)
          (stacked m [])
          regs
          (at m.memory (address (regs rs) extra / 4) (regs rt))
  unfolding sw_pass2
  sw_pass2_lem settings rt pc room nt silent kept =
      let i = address (regs rs) extra / 4 in
      rw (kept, silent)
        (Runs-iastore _ (regs rt) (
          run_place (bc_pushregister regalloc rt ++ (iastore ∷ [])) room
          ∙ run_register regalloc regs limit m ok.holds rt (iastore ∷ []) (int i ∷ ref ∷ []) nt
              (omega arith)))

  -- The part of the word on the stack.
  pub run_replace :
      (k n w rt : ℕ) (s : List Value)
      → rt ≢ r_mem
      → slots s + 4 ≤ limit
      → Part k n w (regs rt % 2 ^ n)
      → exec limit
          (replace_part regalloc (2 ^ n - 1) rt)
          (stacked m (int k ∷ int (2 ^ n - 1) ∷ int w ∷ s))
        ≡ some (stacked m (int (with_part k n w (regs rt % 2 ^ n)) ∷ s))
  unfolding replace_part step exec
  run_replace k n w rt s nt room part =
      let low = part.low in
      let narrow = part.narrow in
      let fits = part.fits in
      let mask = 2 ^ n - 1 in
      let v = regs rt % 2 ^ n in
      let shifted = mask * 2 ^ k % two32 in
      let hole = with_part k n w 0 in
      let small : k % 32 ≡ k = omega arith in
      let whole : v * 2 ^ k % two32 ≡ v * 2 ^ k = omega arith in
      let word : mask % two32 ≡ mask = omega arith in
      let one = run_one regalloc regs limit m ok.holds in
      let c6 = swap ∷ (ishl ∷ (ior ∷ [])) in
      let c5 = bc_pushconst (pos mask) ++ (iand ∷ c6) in
      let c4 = swap ∷ (bc_pushregister regalloc rt ++ c5) in
      let c3 = bc_pushconst (negsuc 0) ++ (ixor ∷ (iand ∷ c4)) in
      one dup_x2 (ishl ∷ c3) (int k ∷ int mask ∷ int w ∷ s) (int k ∷ int mask ∷ int w ∷ int k ∷ s)
        refl (omega arith)
      ∙ one ishl c3 (int k ∷ int mask ∷ int w ∷ int k ∷ s) (int shifted ∷ int w ∷ int k ∷ s)
          (rw small refl) (omega arith)
      ∙ run_const regalloc regs limit m ok.holds (negsuc 0) (ixor ∷ (iand ∷ c4))
          (int shifted ∷ int w ∷ int k ∷ s) (omega arith) (omega arith)
      ∙ one ixor (iand ∷ c4) (int (two32 - 1) ∷ int shifted ∷ int w ∷ int k ∷ s)
          (int (two32 - 1 - shifted) ∷ int w ∷ int k ∷ s)
          (rw (bit_xor_mask 32 shifted (omega arith)) refl) (omega arith)
      ∙ one iand c4 (int (two32 - 1 - shifted) ∷ int w ∷ int k ∷ s) (int hole ∷ int k ∷ s)
          (rw part.clear refl) (omega arith)
      ∙ one swap (bc_pushregister regalloc rt ++ c5) (int hole ∷ int k ∷ s) (int k ∷ int hole ∷ s)
          refl (omega arith)
      ∙ run_register regalloc regs limit m ok.holds rt c5 (int k ∷ int hole ∷ s) nt (omega arith)
      ∙ run_const regalloc regs limit m ok.holds (pos mask) (iand ∷ c6)
          (int (regs rt) ∷ int k ∷ int hole ∷ s) (omega arith) (omega arith)
      ∙ one iand c6 (int (mask % two32) ∷ int (regs rt) ∷ int k ∷ int hole ∷ s)
          (int v ∷ int k ∷ int hole ∷ s) (rw (word, bit_and_mask n (regs rt)) refl) (omega arith)
      ∙ one swap (ishl ∷ (ior ∷ [])) (int v ∷ int k ∷ int hole ∷ s) (int k ∷ int v ∷ int hole ∷ s)
          refl (omega arith)
      ∙ one ishl (ior ∷ []) (int k ∷ int v ∷ int hole ∷ s) (int (v * 2 ^ k) ∷ int hole ∷ s)
          (rw (small, whole) refl) (omega arith)
      ∙ one ior [] (int (v * 2 ^ k) ∷ int hole ∷ s) (int (with_part k n w v) ∷ s)
          (rw (filled k n w v part.value) refl) (omega arith)
