-- ===== src/Translator/Memory/Loads.antt =====
-- Loads: the code of a load reads the word, the byte or the half that the address names.
use cibyl.Base.{
  ℕ, ◌-◌, ◌*◌, ◌/◌, ◌%◌, ◌^◌, ◌≤◌, ◌<◌, ◌≡◌, refl, ◌∙◌, Bool, true, false, not, ◌&&◌, List, [], ◌∷◌,
  ◌++◌, ltb, ◌==◌, arith, bit_and,
}
use cibyl.Base.Bits.{bit_and_three}
use cibyl.Base.Masks.{bit_and_mask, bit_and_two}
use cibyl.Base.Int.{ℤ, pos}
use cibyl.Translator.Mips.{r_ra, r_mem}
use cibyl.Translator.Registers.{RegisterAllocator, at}
use cibyl.Translator.Emit.{
  Insn, Routine, iand, iushr, i2b, i2c, i2s, iaload, bc_pushconst, bc_pushregister, bc_popregister,
  bc_pushindex,
}
use cibyl.Translator.Jvm.{int, ref, Machine, two32, sign_extend, step, exec}
use cibyl.Translator.Run.{exec-pushmemory}
use cibyl.Translator.Writes.{Runs}
use cibyl.Translator.Memory.{Settings, lw_pass2, partial_load_pass2, push_shift, convert}
use cibyl.Translator.Memory.Index.{address, run_index, run_shift, run_piece}
use cibyl.Translator.Instructions.Stack.{Writable, stacked, run_const, run_one, Runs-store}
use cibyl.Translator.Memory.Access.{Accessible, byte_at, half_at, Inlines, extended}

sign_extend-mod :
    (x : ℕ)
    → (sign_extend 8 x ≡ sign_extend 8 (x % 2 ^ 8))
      × (sign_extend 16 x ≡ sign_extend 16 (x % 2 ^ 16))
sign_extend-mod x =
    let byte : x % 2 ^ 8 % 2 ^ 8 ≡ x % 2 ^ 8 = omega arith in
    let half : x % 2 ^ 16 % 2 ^ 16 ≡ x % 2 ^ 16 = omega arith in (rw byte refl, rw half refl)

byte-small : (is_signed : Bool) (x : ℕ) → extended is_signed 8 (x % 2 ^ 8) < two32
byte-small true x = ground arith
byte-small false x = omega arith

half-small : (is_signed : Bool) (x : ℕ) → extended is_signed 16 (x % 2 ^ 16) < two32
half-small true x = ground arith
half-small false x = omega arith

module _ (regalloc : RegisterAllocator) (regs : ℕ → ℕ) (limit : ℕ) (m : Machine) (rs : ℕ)
    (extra : ℤ) (ok : Accessible regalloc regs m rs extra) where
  -- The word that holds the address is loaded.
  run_load :
      (rest : List Insn)
      → 3 ≤ limit
      → exec limit
          (bc_pushregister regalloc r_mem ++ (bc_pushindex regalloc rs extra ++ (iaload ∷ rest)))
          (stacked m [])
        ≡ exec limit rest (stacked m (int (m.memory (address (regs rs) extra / 4)) ∷ []))
  unfolding step
  run_load rest room =
      let i = address (regs rs) extra / 4 in
      let inside : ltb i m.size ≡ true = ground (arith, ok.in_memory) in
      exec-pushmemory regalloc regs limit ok.memory_local
        (bc_pushindex regalloc rs extra ++ (iaload ∷ rest)) (stacked m []) ok.holds ok.has_memory
        (omega arith)
      ∙ run_piece limit (bc_pushindex regalloc rs extra) (iaload ∷ rest) (stacked m (ref ∷ []))
          (stacked m (int i ∷ ref ∷ []))
          (run_index regalloc regs limit m ok.holds rs extra (ref ∷ []) ok.source ok.small
            ok.in_space (omega arith))
      ∙ run_one regalloc regs limit m ok.holds iaload rest (int i ∷ ref ∷ [])
          (int (m.memory i) ∷ []) (rw inside refl) (omega arith)

  -- The code of `Lw` runs within three places of the stack and leaves the word that the address
  -- names in the register, all else being as it was, where the access is one that the program may
  -- make, the register may be written, and the instruction does not restore the return address of a
  -- single function.
  pub lw_pass2_lem :
      (settings : Settings) (rt : ℕ)
      → 3 ≤ limit
      → Writable regalloc rt
      → (rt == r_ra && not settings.has_multiple_functions) ≡ false
      → Runs limit regalloc
          (lw_pass2 settings regalloc [] rs rt extra)
          (stacked m [])
          (at regs rt (m.memory (address (regs rs) extra / 4)))
          m.memory
  unfolding lw_pass2
  lw_pass2_lem settings rt room w kept =
      let v = m.memory (address (regs rs) extra / 4) in
      rw kept (
        Runs-store regalloc regs limit m ok.holds _ rt v w (ok.words (address (regs rs) extra / 4))
          (run_load (bc_popregister regalloc rt) room))

  -- A part of the word is moved down, converted and stored.
  Runs-part :
      (b rt v : ℕ) (fix : List Insn)
      → 6 ≤ limit
      → Writable regalloc rt
      → v < two32
      → b < 4
      → bit_and (address (regs rs) extra) b ≤ b
      → exec limit (fix ++ bc_popregister regalloc rt) (
          stacked m (
            int (
              m.memory (address (regs rs) extra / 4)
              / 2 ^ ((b - bit_and (address (regs rs) extra) b) * 8 % 32))
            ∷ []))
        ≡ exec limit (bc_popregister regalloc rt) (stacked m (int v ∷ []))
      → Runs limit regalloc
          (bc_pushregister regalloc r_mem
            ++ (bc_pushindex regalloc rs extra
                ++ (iaload
                    ∷ (push_shift regalloc b rs extra
                        ++ (iushr ∷ (fix ++ bc_popregister regalloc rt))))))
          (stacked m [])
          (at regs rt v)
          m.memory
  unfolding step
  Runs-part b rt v fix room w small low below fixed =
      let word = m.memory (address (regs rs) extra / 4) in
      let k = (b - bit_and (address (regs rs) extra) b) * 8 in
      let last = fix ++ bc_popregister regalloc rt in
      Runs-store regalloc regs limit m ok.holds _ rt v w small (
        run_load (push_shift regalloc b rs extra ++ (iushr ∷ last)) (omega arith)
        ∙ run_piece limit (push_shift regalloc b rs extra) (iushr ∷ last)
            (stacked m (int word ∷ [])) (stacked m (int k ∷ int word ∷ []))
            (run_shift regalloc regs limit m ok.holds b rs extra (int word ∷ []) ok.source ok.small
              ok.in_space low below (omega arith))
        ∙ run_one regalloc regs limit m ok.holds iushr last (int k ∷ int word ∷ [])
            (int (word / 2 ^ (k % 32)) ∷ []) refl (omega arith)
        ∙ fixed)

  run_convert_byte :
      (is_signed : Bool) (x : ℕ) (rest : List Insn)
      → 2 ≤ limit
      → exec limit (convert regalloc 8 is_signed ++ rest) (stacked m (int x ∷ []))
        ≡ exec limit rest (stacked m (int (extended is_signed 8 (x % 2 ^ 8)) ∷ []))
  unfolding step convert bc_pushconst
  run_convert_byte true x rest room =
      let (same, _) = sign_extend-mod x in
      run_one regalloc regs limit m ok.holds i2b rest (int x ∷ [])
        (int (sign_extend 8 (x % 2 ^ 8)) ∷ []) (rw same refl) (omega arith)
  run_convert_byte false x rest room =
      run_const regalloc regs limit m ok.holds (pos 255) (iand ∷ rest) (int x ∷ []) (omega arith)
        (omega arith)
      ∙ run_one regalloc regs limit m ok.holds iand rest (int 255 ∷ int x ∷ [])
          (int (x % 2 ^ 8) ∷ []) (rw (bit_and_mask 8 x) refl) (omega arith)

  run_convert_half :
      (is_signed : Bool) (x : ℕ) (rest : List Insn)
      → 2 ≤ limit
      → exec limit (convert regalloc 16 is_signed ++ rest) (stacked m (int x ∷ []))
        ≡ exec limit rest (stacked m (int (extended is_signed 16 (x % 2 ^ 16)) ∷ []))
  unfolding step convert
  run_convert_half true x rest room =
      let (_, same) = sign_extend-mod x in
      run_one regalloc regs limit m ok.holds i2s rest (int x ∷ [])
        (int (sign_extend 16 (x % 2 ^ 16)) ∷ []) (rw same refl) (omega arith)
  run_convert_half false x rest room =
      run_one regalloc regs limit m ok.holds i2c rest (int x ∷ []) (int (x % 2 ^ 16) ∷ []) refl
        (omega arith)

  -- The code of a load of a byte, where it is inline, runs within six places of the stack and
  -- leaves the big-endian byte at the address in the register, with or without its sign, all else
  -- being as it was, for an access that the program may make and a register that may be written.
  pub partial_load_pass2-byte :
      (settings : Settings) (is_signed : Bool) (bc : Routine) (rt : ℕ)
      → 6 ≤ limit
      → Writable regalloc rt
      → Inlines settings rt
      → Runs limit regalloc
          (partial_load_pass2 settings regalloc [] 8 is_signed bc rs rt extra)
          (stacked m [])
          (at regs rt (extended is_signed 8 (byte_at m.memory (address (regs rs) extra))))
          m.memory
  unfolding partial_load_pass2
  partial_load_pass2-byte settings is_signed bc rt room w inl_ok =
      let a = address (regs rs) extra in
      let place = bit_and_three a in
      let k : (3 - bit_and a 3) * 8 % 32 ≡ 8 * (3 - a % 4) = omega (arith, place) in
      let moved = m.memory (a / 4) / 2 ^ (8 * (3 - a % 4)) in
      rw (inl_ok.no_subroutines, inl_ok.inlines, inl_ok.fits, inl_ok.kept)
        (Runs-part 3 rt (extended is_signed 8 (byte_at m.memory a)) (convert regalloc 8 is_signed)
          room w (byte-small is_signed moved) (omega arith) (omega (arith, place))
          (rw k (run_convert_byte is_signed moved (bc_popregister regalloc rt) (omega arith))))

  -- The code of a load of a half, where it is inline, runs within six places of the stack and
  -- leaves the big-endian half at an even address in the register, with or without its sign, all
  -- else being as it was, for an access that the program may make and a register that may be
  -- written.
  pub partial_load_pass2-half :
      (settings : Settings) (is_signed : Bool) (bc : Routine) (rt : ℕ)
      → 6 ≤ limit
      → Writable regalloc rt
      → Inlines settings rt
      → address (regs rs) extra % 2 ≡ 0
      → Runs limit regalloc
          (partial_load_pass2 settings regalloc [] 16 is_signed bc rs rt extra)
          (stacked m [])
          (at regs rt (extended is_signed 16 (half_at m.memory (address (regs rs) extra))))
          m.memory
  unfolding partial_load_pass2
  partial_load_pass2-half settings is_signed bc rt room w inl_ok even =
      let a = address (regs rs) extra in
      let place = bit_and_two a in
      let k : (2 - bit_and a 2) * 8 % 32 ≡ 8 * (2 - a % 4) = omega (arith, place) in
      let moved = m.memory (a / 4) / 2 ^ (8 * (2 - a % 4)) in
      rw (inl_ok.no_subroutines, inl_ok.inlines, inl_ok.fits, inl_ok.kept)
        (Runs-part 2 rt (extended is_signed 16 (half_at m.memory a)) (convert regalloc 16 is_signed)
          room w (half-small is_signed moved) (omega arith) (omega (arith, place))
          (rw k (run_convert_half is_signed moved (bc_popregister regalloc rt) (omega arith))))
