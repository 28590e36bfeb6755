-- ===== src/Translator/Tests/Tables.antt =====
-- Witnesses: the table for calls through a register.
use cibyl.Base.{ℕ, ◌≡◌, refl, true, [], ◌∷◌, ◌==◌, if◌then◌else◌, arith}
use cibyl.Translator.Registers.Assign.{member}
use cibyl.Translator.CallTable.{CallTable, add_function}
use cibyl.Translator.CallTable.Sorted.{IsTable, add_function-IsTable}

abbrev two_functions : CallTable
two_functions = record {
  functions = 4096 ∷ 8192 ∷ [];
  function_table = λ a. member a (4096 ∷ 8192 ∷ []);
}

two_functions-IsTable : IsTable two_functions
two_functions-IsTable = record { sorted = (omega arith, tt); agrees = λ a. refl }

add_function-IsTable_example :
    IsTable (add_function two_functions 5000)
    × ((a : ℕ)
        → member a (add_function two_functions 5000).functions
          ≡ (if 5000 == a then true else member a two_functions.functions))
add_function-IsTable_example = add_function-IsTable two_functions 5000 two_functions-IsTable
