-- ===== src/Translator/Calls/Lookup.antt =====
-- The look-up of a function of a method by an address.
--
-- The last instruction of a function is in none of its blocks, so it begins at the address of the
-- function and its size.
use cibyl.Base.{ℕ, ◌+◌, ◌<◌}
use cibyl.Translator.Calls.{Function}

-- The last instruction of `g` is below the address.
abbrev pub IsBelow : ℕ → Function → Type 0
IsBelow addr g = g.address + g.size < addr
