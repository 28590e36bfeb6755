-- ===== src/Translator/Usage/Sources.antt =====
-- The registers that an instruction reads, and those that `fillSources` counts.
use cibyl.Base.{
  ℕ, ◌+◌, ◌%◌, ◌-◌, ◌<◌, ◌≡◌, ◌≢◌, refl, ap, ap₂, List, [], ◌∷◌, All, ltb, bit_or, arith,
}
use cibyl.Translator.Mips.{r_zero}
use cibyl.Translator.Jvm.{two32, to_word}
use cibyl.Translator.Instructions.{
  Arithmetic, rfmt, shift_v, addu, subu, nor, slt, sltu, shift, ifmt, addi, slti, sltiu, lui, mfxx,
  mtxx,
}
use cibyl.Translator.Instructions.Semantics.{operation, less_signed, bit, result}
use cibyl.Translator.Usage.{Counts, add_to_register_usage, fill_sources}
use cibyl.Translator.Usage.Counted.{IsCounted, add-grows, add-counts}

abbrev pub sources : Arithmetic → List ℕ
sources (rfmt what rs rt rd) = rs ∷ rt ∷ []
sources (shift_v what rs rt rd) = rs ∷ rt ∷ []
sources (addu rs rt rd) = rs ∷ rt ∷ []
sources (subu rs rt rd) = rs ∷ rt ∷ []
sources (nor rs rt rd) = rs ∷ rt ∷ []
sources (slt rs rt rd) = rs ∷ rt ∷ []
sources (sltu rs rt rd) = rs ∷ rt ∷ []
sources (shift what rs rt rd extra) = rt ∷ []
sources (ifmt what rs rt rd extra) = rs ∷ []
sources (addi rs rt rd extra) = rs ∷ []
sources (slti rs rt extra) = rs ∷ []
sources (sltiu rs rt extra) = rs ∷ []
sources (lui rt extra) = []
sources (mfxx rd src) = src ∷ []
sources (mtxx rs dst) = rs ∷ []

-- The result depends on these registers only.
pub result-sources :
    (a b : ℕ → ℕ) (i : Arithmetic) → All (λ r. a r ≡ b r) (sources i) → result a i ≡ result b i
unfolding result
result-sources a b (rfmt what rs rt rd) (x, (y, _)) = ap₂ (operation what) x y
result-sources a b (shift_v what rs rt rd) (x, (y, _)) = ap₂ (operation what) y x
result-sources a b (addu rs rt rd) (x, (y, _)) = ap₂ (λ m n. (m + n) % two32) x y
result-sources a b (subu rs rt rd) (x, (y, _)) = ap₂ (λ m n. (m + two32 - n) % two32) x y
result-sources a b (nor rs rt rd) (x, (y, _)) = ap₂ (λ m n. two32 - 1 - bit_or m n) x y
result-sources a b (slt rs rt rd) (x, (y, _)) = ap₂ (λ m n. bit (less_signed m n)) x y
result-sources a b (sltu rs rt rd) (x, (y, _)) = ap₂ (λ m n. bit (ltb m n)) x y
result-sources a b (shift what rs rt rd extra) (x, _) = ap (λ m. operation what m extra) x
result-sources a b (ifmt what rs rt rd extra) (x, _) = ap (λ m. operation what m (to_word extra)) x
result-sources a b (addi rs rt rd extra) (x, _) = ap (λ m. (m + to_word extra) % two32) x
result-sources a b (slti rs rt extra) (x, _) = ap (λ m. bit (less_signed m (to_word extra))) x
result-sources a b (sltiu rs rt extra) (x, _) = ap (λ m. bit (ltb m (to_word extra))) x
result-sources a b (lui rt extra) _ = refl
result-sources a b (mfxx rd src) (x, _) = x
result-sources a b (mtxx rs dst) (x, _) = x

abbrev pub IsAdded : (Counts → Counts) → ℕ → Type 0
IsAdded fill r = r ≢ r_zero → (q : Counts) → 0 < fill q r

one-counts : (r : ℕ) → IsAdded (add_to_register_usage r) r
one-counts r n q = add-counts r q n

two-counts :
    (rs rt : ℕ)
    → All (IsAdded (λ q. add_to_register_usage rt (add_to_register_usage rs q))) (rs ∷ rt ∷ [])
two-counts rs rt = (
  λ n q. omega (arith, add-counts rs q n, add-grows rt (add_to_register_usage rs q) rs),
  (λ n q. add-counts rt (add_to_register_usage rs q) n, tt),
)

-- Every class but `Mtxx` counts the registers that it reads.
pub fill_sources-counts :
    (i : Arithmetic) → IsCounted i → All (IsAdded (fill_sources i)) (sources i)
unfolding fill_sources
fill_sources-counts (rfmt what rs rt rd) c = two-counts rs rt
fill_sources-counts (shift_v what rs rt rd) c = two-counts rs rt
fill_sources-counts (addu rs rt rd) c = two-counts rs rt
fill_sources-counts (subu rs rt rd) c = two-counts rs rt
fill_sources-counts (nor rs rt rd) c = two-counts rs rt
fill_sources-counts (slt rs rt rd) c = two-counts rs rt
fill_sources-counts (sltu rs rt rd) c = two-counts rs rt
fill_sources-counts (shift what rs rt rd extra) c = (one-counts rt, tt)
fill_sources-counts (ifmt what rs rt rd extra) c = (one-counts rs, tt)
fill_sources-counts (addi rs rt rd extra) c = (one-counts rs, tt)
fill_sources-counts (slti rs rt extra) c = (one-counts rs, tt)
fill_sources-counts (sltiu rs rt extra) c = (one-counts rs, tt)
fill_sources-counts (lui rt extra) c = tt
fill_sources-counts (mfxx rd src) c = (one-counts src, tt)
fill_sources-counts (mtxx rs dst) c = elim c [ ]
