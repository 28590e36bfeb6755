-- ===== src/Translator/CallTable.antt =====
-- tools/translator/calltablemethod.cc: the functions of the table for calls through a register; and
-- tools/translator/codeblock.cc: the labels that a jump through a register may go to.
--
-- A function is its address. `m_function_table` is the test whether an address has been added; its
-- functions are not NULL.
pub mod Sorted
use cibyl.Base.{
  ℕ, zero, suc, ◌+◌, Bool, true, false, List, [], ◌∷◌, ◌++◌, ltb, ◌==◌, if◌then◌else◌, get_elem?,
  take, drop,
}

pub record CallTable : Type 0 where
  pub functions : List ℕ
  pub function_table : ℕ → Bool

abbrev pub empty_table : CallTable
empty_table = record { functions = []; function_table = λ addr. false }

-- The first loop, from `i` on: the place of the first function behind the address.
pub find_place : List ℕ → ℕ → ℕ → ℕ
find_place [] addr i = i
find_place (f ∷ functions) addr i =
    let rest = find_place functions addr (i + 1) in if ltb addr f then i else rest

-- The second loop and the write: those from place `i` on move up by one.
abbrev pub insert_at : List ℕ → ℕ → ℕ → List ℕ
insert_at functions i addr = take i functions ++ (addr ∷ drop i functions)

pub add_function : CallTable → ℕ → CallTable
unfolding find_place
add_function t addr = if t.function_table addr then t else record {
  functions = insert_at t.functions (find_place t.functions addr 0) addr;
  function_table = λ a. if a == addr then true else t.function_table a;
}

-- `addJumptabLabel`: the loop, and the label at the end.
pub add_jumptab_label : List ℕ → ℕ → List ℕ
add_jumptab_label [] addr = addr ∷ []
add_jumptab_label (l ∷ labels) addr =
    let rest = add_jumptab_label labels addr in if l == addr then l ∷ labels else l ∷ rest
