-- ===== src/Translator/Blocks/Partition.antt =====
-- How the basic blocks of a function divide the instructions that its constructor is given.
use cibyl.Base.{
  ℕ, suc, ◌+◌, ◌*◌, ◌≤◌, ◌<◌, ◌≡◌, ◌≢◌, refl, ap, ◌∙◌, true, false, List, [], ◌∷◌, some, none,
  get_elem?, ◌==◌, arith, length, Bool-cases, inl, inr, subst, ◌⊎◌,
}
use native.Mathlib.Decide.{dec_lt}
use cibyl.Translator.Blocks.{
  BlockInsn, has_delay_slot, BlockType, prologue, normal, BasicBlock, ends_block, new_block,
  next_type, create_blocks, total_size, function_blocks, function_size,
}

module _ (address first_insn : ℕ) (insns : List BlockInsn) where
  -- An instruction that ends a block is the last of its block, or the last but one with its delay
  -- slot behind it.
  abbrev pub IsStraight : ℕ → ℕ → Type 0
  IsStraight first last =
      (i : ℕ) (insn : BlockInsn)
      → first ≤ i
      → i < last
      → get_elem? insns i ≡ some insn
      → ends_block address first_insn insn ≡ true
      → (i + 1 ≡ last) ⊎ ((i + 2 ≡ last) × (has_delay_slot insn ≡ true))

  -- The first instruction that ends its block and has a delay slot has it in the block, which ends
  -- behind it, if there is one more instruction.
  abbrev pub IsSlotted : ℕ → ℕ → Type 0
  IsSlotted first last =
      (i : ℕ) (insn slot : BlockInsn)
      → first ≤ i
      → i < last
      → get_elem? insns i ≡ some insn
      → get_elem? insns (i + 1) ≡ some slot
      → ends_block address first_insn insn ≡ true
      → has_delay_slot insn ≡ true
      → ((j : ℕ) (other : BlockInsn)
          → first ≤ j
          → j < i
          → get_elem? insns j ≡ some other
          → ends_block address first_insn other ≡ false)
      → i + 2 ≡ last

  -- Blocks that follow on each other, from one place of the list to another, and none is empty.
  pub data IsPartition : ℕ → ℕ → List BasicBlock → Type 0 where
    all_done : (first last : ℕ) → first ≡ last → IsPartition first last []
    more :
        (bb : BasicBlock) (first middle last : ℕ) (bbs : List BasicBlock)
        → bb.first ≡ first_insn + first
        → bb.last ≡ first_insn + middle
        → first < middle
        → IsStraight first middle
        → IsSlotted first middle
        → IsPartition middle last bbs
        → IsPartition first last (bb ∷ bbs)

  -- No instruction between these places ends a block.
  abbrev IsOpen : ℕ → ℕ → Type 0
  IsOpen first last =
      (i : ℕ) (insn : BlockInsn)
      → first ≤ i
      → i < last
      → get_elem? insns i ≡ some insn
      → ends_block address first_insn insn ≡ false

  new_block-IsPartition :
      (type : BlockType) (first middle last : ℕ) (bbs : List BasicBlock)
      → first ≤ middle
      → IsStraight first middle
      → IsSlotted first middle
      → IsPartition middle last bbs
      → IsPartition first last (new_block address first_insn type first middle bbs)
  new_block-IsPartition type first middle last bbs le straight slotted rest =
      elim (Bool-cases (middle == first)) [
        | inl e ↦
            let same : middle ≡ first = ground arith in
            rw e (subst (λ (n : ℕ). IsPartition n last bbs) same rest)
        | inr e ↦ rw e (more _ first middle last bbs refl refl (ground arith) straight slotted rest)
      ]

  -- The instruction behind an quiet part may end the block.
  one_more-IsStraight : (first pos : ℕ) → IsOpen first pos → IsStraight first (pos + 1)
  one_more-IsStraight first pos quiet i insn lo hi found ends = elim (dec_lt i pos) [
    | yes p ↦ let no_end = quiet i insn lo p found in cc
    | no p ↦ inl (omega arith)
  ]

  with_slot-IsStraight :
      (first pos : ℕ) (branch : BlockInsn)
      → IsOpen first pos
      → get_elem? insns pos ≡ some branch
      → has_delay_slot branch ≡ true
      → IsStraight first (pos + 2)
  with_slot-IsStraight first pos branch quiet here slot i insn lo hi found ends =
      elim (dec_lt i pos) [
        | yes p ↦ let no_end = quiet i insn lo p found in cc
        | no p ↦ elim (Bool-cases (i == pos)) [
          | inl e ↦
              let at_pos : i ≡ pos = ground arith in
              let same = rw at_pos at found in
              let is_branch : insn ≡ branch = cc in
              inr (omega arith, ap has_delay_slot is_branch ∙ slot)
          | inr e ↦ let apart : i ≢ pos = ground arith in inl (omega arith)
        ]
      ]

  IsOpen-IsSlotted : (first pos : ℕ) → IsOpen first pos → IsSlotted first pos
  IsOpen-IsSlotted first pos quiet i insn slot lo hi found next ends d before =
      let no_end = quiet i insn lo hi found in cc

  -- The last instruction has no delay slot, or none that is left.
  one_more-IsSlotted :
      (first pos : ℕ) (insn : BlockInsn)
      → IsOpen first pos
      → get_elem? insns pos ≡ some insn
      → (has_delay_slot insn ≡ false) ⊎ (get_elem? insns (pos + 1) ≡ none)
      → IsSlotted first (pos + 1)
  one_more-IsSlotted first pos last quiet here out i insn slot lo hi found next ends d before =
      elim (dec_lt i pos) [
        | yes p ↦ let no_end = quiet i insn lo p found in cc
        | no p ↦
            let at_pos : i ≡ pos = omega arith in
            let same = rw at_pos at found in
            let is_last : insn ≡ last = cc in
            elim out [
              | inl e ↦ let e' = ap has_delay_slot is_last ∙ e in cc
              | inr e ↦ let next' = rw at_pos at next in cc
            ]
      ]

  with_slot-IsSlotted :
      (first pos : ℕ) (branch : BlockInsn)
      → first ≤ pos
      → IsOpen first pos
      → get_elem? insns pos ≡ some branch
      → ends_block address first_insn branch ≡ true
      → IsSlotted first (pos + 2)
  with_slot-IsSlotted first pos branch le quiet here b i insn slot lo hi found next ends d before =
      elim (dec_lt i pos) [
        | yes p ↦ let no_end = quiet i insn lo p found in cc
        | no p ↦ elim (dec_lt pos i) [
          | yes q ↦ let no_end = before pos branch le q here in cc
          | no q ↦ omega arith
        ]
      ]

  one_more-IsOpen :
      (first pos : ℕ) (next : BlockInsn)
      → IsOpen first pos
      → get_elem? insns pos ≡ some next
      → ends_block address first_insn next ≡ false
      → IsOpen first (pos + 1)
  one_more-IsOpen first pos next quiet here no_end i insn lo hi found = elim (dec_lt i pos) [
    | yes p ↦ quiet i insn lo p found
    | no p ↦
        let at_pos : i ≡ pos = omega arith in
        let same = rw at_pos at found in
        let is_next : insn ≡ next = cc in ap (ends_block address first_insn) is_next ∙ no_end
  ]

  nothing-IsOpen : (pos : ℕ) → IsOpen pos pos
  nothing-IsOpen pos i insn lo hi found = absurd (omega arith)

  IsOpen-IsStraight : (first pos : ℕ) → IsOpen first pos → IsStraight first pos
  IsOpen-IsStraight first pos quiet i insn lo hi found ends =
      let no_end = quiet i insn lo hi found in cc

  -- What is left of the list.
  abbrev IsRest : ℕ → List BlockInsn → Type 0
  IsRest pos l = (k : ℕ) → get_elem? insns (pos + k) ≡ get_elem? l k

  tail-IsRest :
      (pos : ℕ) (insn : BlockInsn) (l : List BlockInsn) → IsRest pos (insn ∷ l) → IsRest (pos + 1) l
  tail-IsRest pos insn l rest k =
      ap (get_elem? insns) {x = pos + 1 + k} {y = pos + suc k} (omega arith) ∙ rest (suc k)

  create_blocks-IsPartition :
      (type : BlockType) (first pos last : ℕ) (l : List BlockInsn)
      → first ≤ pos
      → IsOpen first pos
      → IsRest pos l
      → last ≡ pos + length l
      → IsPartition first last (create_blocks address first_insn type first pos l)
  unfolding create_blocks
  create_blocks-IsPartition type first pos last [] le quiet rest e =
      new_block-IsPartition normal first pos last [] le (IsOpen-IsStraight first pos quiet)
        (IsOpen-IsSlotted first pos quiet) (all_done pos last (omega arith))
  create_blocks-IsPartition type first pos last (insn ∷ []) le quiet rest e =
      let done = all_done (pos + 1) last (omega arith) in
      let here : get_elem? insns pos ≡ some insn =
        ap (get_elem? insns) {x = pos} {y = pos + 0} (omega arith) ∙ rest 0 in
      let alone = one_more-IsSlotted first pos insn quiet here (inr (rest 1)) in
      elim (Bool-cases (ends_block address first_insn insn)) [
        | inl b ↦ rw b (
            new_block-IsPartition (next_type address first_insn insn type) first (pos + 1) last []
              (omega arith) (one_more-IsStraight first pos quiet) alone done)
        | inr b ↦ rw b (
            new_block-IsPartition normal first (pos + 1) last [] (omega arith)
              (one_more-IsStraight first pos quiet) alone done)
      ]
  create_blocks-IsPartition type first pos last (insn ∷ slot ∷ others) le quiet rest e =
      let here : get_elem? insns pos ≡ some insn =
        ap (get_elem? insns) {x = pos} {y = pos + 0} (omega arith) ∙ rest 0 in
      let one = tail-IsRest pos insn (slot ∷ others) rest in
      let type' = next_type address first_insn insn type in
      elim (Bool-cases (ends_block address first_insn insn)) [
        | inl b ↦ elim (Bool-cases (has_delay_slot insn)) [
          | inl d ↦
              let two : IsRest (pos + 2) others =
                subst (λ (n : ℕ). IsRest n others) (omega arith)
                  (tail-IsRest (pos + 1) slot others one) in
              rw (b, d)
                (new_block-IsPartition type' first (pos + 2) last _ (omega arith)
                  (with_slot-IsStraight first pos insn quiet here d)
                  (with_slot-IsSlotted first pos insn le quiet here b)
                  (create_blocks-IsPartition normal (pos + 2) (pos + 2) last others (omega arith)
                    (nothing-IsOpen (pos + 2)) two (omega arith)))
          | inr d ↦
              rw (b, d)
                (new_block-IsPartition type' first (pos + 1) last _ (omega arith)
                  (one_more-IsStraight first pos quiet)
                  (one_more-IsSlotted first pos insn quiet here (inl d))
                  (create_blocks-IsPartition normal (pos + 1) (pos + 1) last (slot ∷ others)
                    (omega arith) (nothing-IsOpen (pos + 1)) one (omega arith)))
        ]
        | inr b ↦ rw b (
            create_blocks-IsPartition type' first (pos + 1) last (slot ∷ others) (omega arith)
              (one_more-IsOpen first pos insn quiet here b) one (omega arith))
      ]

pub function_blocks-IsPartition :
    (address first_insn : ℕ) (insns : List BlockInsn)
    → IsPartition address first_insn insns 0
        (length insns)
        (function_blocks address first_insn insns)
unfolding function_blocks
function_blocks-IsPartition address first_insn insns =
    create_blocks-IsPartition address first_insn insns prologue 0 0 (length insns) insns
      (omega arith) (nothing-IsOpen address first_insn insns 0)
      (λ k. ap (get_elem? insns) {x = 0 + k} {y = k} (omega arith)) (omega arith)

IsPartition-size :
    (address first_insn : ℕ) (insns : List BlockInsn) (first last : ℕ) (bbs : List BasicBlock)
    → IsPartition address first_insn insns first last bbs
    → total_size bbs + first * 4 ≡ last * 4
IsPartition-size address first_insn insns first last _ (all_done a b e) = omega arith
IsPartition-size address first_insn insns first last _ (more bb a middle b bbs f l lt st sl rest) =
    omega (arith, IsPartition-size address first_insn insns middle last bbs rest)

-- The size of a function is four bytes for each instruction of the range.
pub function_size_lem :
    (address first_insn : ℕ) (insns : List BlockInsn)
    → function_size address first_insn insns ≡ length insns * 4
unfolding function_size
function_size_lem address first_insn insns = omega (
  arith,
  IsPartition-size address first_insn insns 0 (length insns) _
      (function_blocks-IsPartition address first_insn insns),
)
