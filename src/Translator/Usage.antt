-- ===== src/Translator/Usage.antt =====
-- How often an instruction, a basic block, a function and a method use each register:
-- `fillDestinations` and `fillSources`, in tools/translator/instructions/, basicblock.cc,
-- function.cc and javamethod.cc.
--
-- An instruction of `Arithmetic` counts what its class says; one of another class (a jump, a call,
-- a load, a store, a multiplication) is known by the registers that its two functions add. The
-- counts that the functions return are left out.
pub mod Counted
pub mod Sources
pub mod Methods
use cibyl.Base.{ℕ, ◌+◌, Bool, Option, none, some, List, [], ◌∷◌, ◌==◌, if◌then◌else◌}
use cibyl.Translator.Mips.{r_fna}
use cibyl.Translator.Registers.{at}
use cibyl.Translator.Instructions.{
  Arithmetic, rfmt, shift_v, addu, subu, nor, slt, sltu, shift, ifmt, addi, slti, sltiu, lui, mfxx,
  mtxx,
}

abbrev pub Counts : Type 0
Counts = ℕ → ℕ

abbrev pub add_to_register_usage : ℕ → Counts → Counts
add_to_register_usage reg p = if reg == 0 then p else at p reg (p reg + 1)

abbrev two_sources : ℕ → ℕ → Counts → Counts
two_sources rs rt p = add_to_register_usage rt (add_to_register_usage rs p)

unfoldable pub fill_destinations : Arithmetic → Counts → Counts
fill_destinations (rfmt what rs rt rd) p = add_to_register_usage rd p
fill_destinations (shift_v what rs rt rd) p = add_to_register_usage rd p
fill_destinations (addu rs rt rd) p = add_to_register_usage rd p
fill_destinations (subu rs rt rd) p = add_to_register_usage rd p
fill_destinations (nor rs rt rd) p = add_to_register_usage rd p
fill_destinations (slt rs rt rd) p = add_to_register_usage rd p
fill_destinations (sltu rs rt rd) p = add_to_register_usage rd p
fill_destinations (shift what rs rt rd extra) p = add_to_register_usage rd p
fill_destinations (ifmt what rs rt rd extra) p = add_to_register_usage rt p
fill_destinations (addi rs rt rd extra) p = add_to_register_usage rt p
fill_destinations (slti rs rt extra) p = add_to_register_usage rt p
fill_destinations (sltiu rs rt extra) p = add_to_register_usage rt p
fill_destinations (lui rt extra) p = add_to_register_usage rt p
fill_destinations (mfxx rd src) p = add_to_register_usage rd p
fill_destinations (mtxx rs dst) p = add_to_register_usage 0 p

unfoldable pub fill_sources : Arithmetic → Counts → Counts
fill_sources (rfmt what rs rt rd) p = two_sources rs rt p
fill_sources (shift_v what rs rt rd) p = two_sources rs rt p
fill_sources (addu rs rt rd) p = two_sources rs rt p
fill_sources (subu rs rt rd) p = two_sources rs rt p
fill_sources (nor rs rt rd) p = two_sources rs rt p
fill_sources (slt rs rt rd) p = two_sources rs rt p
fill_sources (sltu rs rt rd) p = two_sources rs rt p
fill_sources (shift what rs rt rd extra) p = add_to_register_usage rt p
fill_sources (ifmt what rs rt rd extra) p = add_to_register_usage rs p
fill_sources (addi rs rt rd extra) p = add_to_register_usage rs p
fill_sources (slti rs rt extra) p = add_to_register_usage rs p
fill_sources (sltiu rs rt extra) p = add_to_register_usage rs p
fill_sources (lui rt extra) p = p
fill_sources (mfxx rd src) p = add_to_register_usage src p
fill_sources (mtxx rs dst) p = add_to_register_usage dst p

-- A loop over an array that adds to the counts.
abbrev pub fill_all {ℓ} : {A : Type ℓ} → (A → Counts → Counts) → List A → Counts → Counts
fill_all fill [] p = p
fill_all fill (x ∷ xs) p = fill_all fill xs (fill x p)

-- An instruction of a method. Those of the other classes are given by what `fillDestinations` and
-- `fillSources` hand to `addToRegisterUsage`.
pub data Listed : Type 0 where
  computing : Arithmetic → Listed
  other : (destinations sources : List ℕ) → Listed

unfoldable pub listed_destinations : Listed → Counts → Counts
unfolding fill_destinations
listed_destinations (computing i) p = fill_destinations i p
listed_destinations (other destinations sources) p = fill_all add_to_register_usage destinations p

unfoldable pub listed_sources : Listed → Counts → Counts
unfolding fill_sources
listed_sources (computing i) p = fill_sources i p
listed_sources (other destinations sources) p = fill_all add_to_register_usage sources p

-- An instruction with the one in its delay slot and its prefix.
pub record Placed : Type 0 where
  pub insn : Listed
  pub delayed : Option Listed
  pub prefix : Option Listed

abbrev pub if_there : (Listed → Counts → Counts) → Option Listed → Counts → Counts
if_there fill none p = p
if_there fill (some insn) p = fill insn p

abbrev pub fill_placed : (Listed → Counts → Counts) → Placed → Counts → Counts
fill_placed fill i p = if_there fill i.prefix (if_there fill i.delayed (fill i.insn p))

abbrev pub block_destinations : List Placed → Counts → Counts
block_destinations insns p = fill_all (fill_placed listed_destinations) insns p

abbrev pub block_sources : List Placed → Counts → Counts
block_sources insns p = fill_all (fill_placed listed_sources) insns p

-- `registerDestinations` and `registerSources`, after the first pass of a function.
abbrev pub register_destinations : List (List Placed) → Counts
register_destinations bbs = fill_all block_destinations bbs (λ r. 0)

abbrev pub register_sources : List (List Placed) → Counts
register_sources bbs = fill_all block_sources bbs (λ r. 0)

abbrev pub function_destinations : List (List Placed) → Counts → Counts
function_destinations bbs p = λ i. p i + register_destinations bbs i

abbrev pub function_sources : List (List Placed) → Counts → Counts
function_sources bbs p = λ i. p i + register_sources bbs i

abbrev pub function_usage : List (List Placed) → Counts → Counts
function_usage bbs p = function_sources bbs (function_destinations bbs p)

-- `registerUsage`, after the first pass of a method; a method with several functions uses `R_FNA`.
abbrev pub register_usage : Bool → List (List (List Placed)) → Counts
register_usage multiple functions =
    let usage = fill_all function_usage functions (λ r. 0) in
    if multiple then at usage r_fna (usage r_fna + 1) else usage
