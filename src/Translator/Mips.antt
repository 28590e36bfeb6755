-- ===== src/Translator/Mips.antt =====
-- tools/translator/include/mips.hh: the numbers of the registers that the translator names.
use cibyl.Base.{ℕ}

-- `MIPS_register_t`
abbrev pub r_zero : ℕ
r_zero = 0

abbrev pub r_a0 : ℕ
r_a0 = 4

abbrev pub r_a1 : ℕ
r_a1 = 5

abbrev pub r_a2 : ℕ
r_a2 = 6

abbrev pub r_a3 : ℕ
r_a3 = 7

abbrev pub r_sp : ℕ
r_sp = 29

abbrev pub r_ra : ℕ
r_ra = 31

abbrev pub r_hi : ℕ
r_hi = 32

abbrev pub r_lo : ℕ
r_lo = 33

abbrev pub r_fna : ℕ
r_fna = 84

abbrev pub r_mem : ℕ
r_mem = 85

abbrev pub n_regs : ℕ
n_regs = 86

abbrev pub r_f0 : ℕ
r_f0 = 40
