-- ===== src/Translator/Calls.antt =====
-- tools/translator/javamethod.cc: the functions of a Java method, the registers that a call of it
-- passes, and the ones that it initialises.
--
-- A reading of an array behind its end is `none`, as are a panic and a pointer that is NULL. What
-- `functions[i]` is asked for is its address and its size.
pub mod Passing
pub mod Agreement
pub mod Initialised
pub mod Lookup
use cibyl.Base.{
  ℕ, zero, suc, ◌+◌, ◌-◌, ◌%◌, ◌^◌, Bool, true, false, not, ◌&&◌, ◌||◌, Option, none, some, List,
  [], ◌∷◌, ◌++◌, ltb, leb, ◌==◌, if◌then◌else◌, ◌>>=◌, drop, set, length, max,
}
use cibyl.Base.Int.{ℤ, pos, negsuc}
use cibyl.Translator.Mips.{r_zero, r_sp, r_fna, r_a0, r_a1, r_a2, r_a3, r_ra, r_mem, n_regs}

pub record Function : Type 0 where
  pub address : ℕ
  pub size : ℕ

-- The address and the size that the constructor computes.
abbrev pub method_address : List Function → ℕ → ℕ
method_address [] address = address
method_address (f ∷ fs) address =
    method_address fs (if ltb address f.address then f.address else address)

abbrev pub method_size : List Function → ℕ
method_size [] = 0
method_size (f ∷ fs) = f.size + method_size fs

abbrev pub has_multiple_functions : List Function → Bool
has_multiple_functions fs = ltb 1 (length fs)

-- The test of the two functions that look an address up.
abbrev pub is_inside : ℕ → Function → Bool
is_inside addr f = leb f.address addr && leb addr ((f.address + f.size) % 2 ^ 32)

pub get_function_by_address : List Function → ℕ → Option Function
get_function_by_address [] addr = none
get_function_by_address (f ∷ fs) addr =
    let rest = get_function_by_address fs addr in if is_inside addr f then some f else rest

-- The loop from `i` on; -1 is `none`.
pub function_index : List Function → ℕ → ℕ → Option ℕ
function_index [] addr i = none
function_index (f ∷ fs) addr i =
    let rest = function_index fs addr (i + 1) in if is_inside addr f then some i else rest

pub get_function_index_by_address : List Function → ℕ → Option ℕ
unfolding function_index
get_function_index_by_address fs addr = function_index fs addr 0

-- `m_possibleArguments`, a list that ends with the register zero.
abbrev pub possible_arguments : List ℕ
possible_arguments = r_sp ∷ r_fna ∷ r_a0 ∷ r_a1 ∷ r_a2 ∷ r_a3 ∷ r_zero ∷ []

-- The changes of `pass1` for a function whose number of arguments is known.
abbrev pub limit_arguments : ℕ → List ℕ → List ℕ
limit_arguments n_args args =
    let three = if leb n_args 3 then set args 5 r_zero else args in
    let two = if leb n_args 2 then set three 4 r_zero else three in
    let one = if leb n_args 1 then set two 3 r_zero else two in
    if n_args == 0 then set one 2 r_zero else one

module _ (register_usage : ℕ → ℕ) where
  abbrev pub clobbers_reg : ℕ → Bool
  clobbers_reg reg = ltb 0 (register_usage reg)

  -- The loop of `getNextRegisterToPass` from the place `it` on: the register, and the place behind
  -- it.
  pub next_from : List ℕ → ℕ → Option (ℕ × ℕ)
  next_from [] it = none
  next_from (reg ∷ args) it =
      let rest = next_from args (it + 1) in
      if not (reg == r_zero) && not (clobbers_reg reg) then rest else some (reg, it + 1)

  pub get_next_register_to_pass : List ℕ → ℕ → Option (ℕ × ℕ)
  unfolding next_from
  get_next_register_to_pass args it = next_from (drop it args) it

  -- The loops `for (reg = getFirstRegisterToPass(&it); reg != R_ZERO; reg =
  -- getNextRegisterToPass(&it))`: the registers that their body is run with. `none` is exhausted
  -- fuel as well.
  pub registers_from : ℕ → List ℕ → ℕ → Option (List ℕ)
  unfolding get_next_register_to_pass
  registers_from zero args it = none
  registers_from (suc fuel) args it = do
    (reg, next) ← get_next_register_to_pass args it
    (let rest = registers_from fuel args next in
        if reg == r_zero then some [] else rest >>= λ regs. some (reg ∷ regs))

  -- Each round but the last moves behind a register of the list.
  pub registers_to_pass : List ℕ → Option (List ℕ)
  unfolding registers_from
  registers_to_pass args = registers_from (length args) args 0

-- `registerIsArgument`
pub register_is_argument : List ℕ → ℕ → Option Bool
register_is_argument [] reg = none
register_is_argument (arg ∷ args) reg =
    let rest = register_is_argument args reg in
    if arg == r_zero then some false else if arg == reg then some true else rest

-- What a register is initialised with: a number, or the array `CRunTime.memory`.
pub data Initial : Type 0 where
  number : ℤ → Initial
  the_memory : Initial

abbrev pub initial_value : Bool → ℕ → Initial
initial_value multiple i =
    if multiple && (i == r_ra)
    then number (negsuc 0)
    else if i == r_mem
    then the_memory
    else number (pos 0)

-- The loop of `pass2` that initialises the registers, from `i` on, with `left` registers to go.
pub zero_registers : (ℕ → ℕ) → List ℕ → Bool → ℕ → ℕ → Option (List (ℕ × Initial))
unfolding register_is_argument
zero_registers usage args multiple zero i = some []
zero_registers usage args multiple (suc left) i =
    let rest = zero_registers usage args multiple left (i + 1) in
    if (i == r_fna) && ltb 0 (usage i) && not multiple then none else do
      is_argument ← register_is_argument args i
      l ← rest
      some (if not is_argument && ltb 0 (usage i) then (i, initial_value multiple i) ∷ l else l)

pub initialised : (ℕ → ℕ) → List ℕ → Bool → Option (List (ℕ × Initial))
unfolding zero_registers
initialised usage args multiple = zero_registers usage args multiple n_regs 0
