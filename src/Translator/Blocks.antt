-- ===== src/Translator/Blocks.antt =====
-- tools/translator/function.cc: the basic blocks of a function.
--
-- The list is the instructions of the range that the constructor is given, from `first_insn` on;
-- `last` is the place of the next one. The callers in controller.cc end the range before the last
-- instruction of the function. What the constructor notes of the opcodes that are used is left out.
pub mod Partition
use cibyl.Base.{
  ℕ, ◌+◌, ◌-◌, ◌*◌, Bool, true, false, not, ◌&&◌, ◌||◌, List, [], ◌∷◌, ◌==◌, if◌then◌else◌,
}

-- What the constructor asks of an instruction. A branch is what has a delay slot.
pub record BlockInsn : Type 0 where
  pub address : ℕ
  pub is_branch : Bool
  pub is_branch_target : Bool
  pub is_return_jump : Bool

abbrev pub has_delay_slot : BlockInsn → Bool
has_delay_slot insn = insn.is_branch

pub data BlockType : Type 0 where
  prologue normal epilogue : BlockType

-- The arguments that a basic block is constructed with.
pub record BasicBlock : Type 0 where
  pub type : BlockType
  pub first : ℕ
  pub last : ℕ

-- `this->size` of a basic block.
abbrev pub block_size : BasicBlock → ℕ
block_size bb = (bb.last - bb.first) * 4

module _ (address first_insn : ℕ) where
  -- The test for the end of a block.
  abbrev pub ends_block : BlockInsn → Bool
  ends_block insn = (insn.is_branch || insn.is_branch_target) && not (insn.address == address)

  abbrev pub new_block : BlockType → ℕ → ℕ → List BasicBlock → List BasicBlock
  new_block type first last bbs =
      if last == first
      then bbs
      else record { type = type; first = first_insn + first; last = first_insn + last } ∷ bbs

  abbrev pub next_type : BlockInsn → BlockType → BlockType
  next_type insn type = if insn.is_return_jump then epilogue else type

  -- The loop, and the last block after it. After a block, the new one begins with its end.
  unfoldable pub create_blocks : BlockType → ℕ → ℕ → List BlockInsn → List BasicBlock
  create_blocks type first last [] = new_block normal first last []
  create_blocks type first last (insn ∷ []) =
      if ends_block insn
      then new_block (next_type insn type) first (last + 1) []
      else new_block normal first (last + 1) []
  create_blocks type first last (insn ∷ slot ∷ rest) =
      let with_slot = create_blocks normal (last + 2) (last + 2) rest in
      let without_slot = create_blocks normal (last + 1) (last + 1) (slot ∷ rest) in
      let later = create_blocks (next_type insn type) first (last + 1) (slot ∷ rest) in
      if ends_block insn
      then (if has_delay_slot insn
          then new_block (next_type insn type) first (last + 2) with_slot
          else new_block (next_type insn type) first (last + 1) without_slot)
      else later

abbrev pub total_size : List BasicBlock → ℕ
total_size [] = 0
total_size (bb ∷ bbs) = block_size bb + total_size bbs

-- The blocks of a function at `address`, and its size.
unfoldable pub function_blocks : ℕ → ℕ → List BlockInsn → List BasicBlock
unfolding create_blocks
function_blocks address first_insn insns = create_blocks address first_insn prologue 0 0 insns

pub function_size : ℕ → ℕ → List BlockInsn → ℕ
unfolding function_blocks
function_size address first_insn insns = total_size (function_blocks address first_insn insns)
