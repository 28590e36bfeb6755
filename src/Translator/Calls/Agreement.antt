-- ===== src/Translator/Calls/Agreement.antt =====
-- The caller and the called method agree on the registers: what is passed is found in the local
-- variables of the arguments, and what is not passed is initialised.
use cibyl.Base.{
  ℕ, zero, suc, ◌≡◌, refl, sym, ap, ◌∙◌, subst, true, false, some, List, [], ◌∷◌, ◌++◌, ◌==◌, arith,
  Bool-cases, inl, inr, get_elem?, if◌then◌else◌,
}
use cibyl.Translator.Mips.{r_zero}
use cibyl.Translator.Registers.{RegisterAllocator, set_allocation}
use cibyl.Translator.Registers.Assign.{member}
use cibyl.Translator.Registers.Arguments.{used_of, argument_registers, set_allocation-argument}
use cibyl.Translator.Calls.{possible_arguments, limit_arguments, registers_to_pass}
use cibyl.Translator.Calls.Passing.{wanted, has_zero, registers_to_pass_lem}

-- What `m_possibleArguments` can be: the table, or the table cut for a number of arguments.
pub data IsTable (args : List ℕ) : Type 0 where
  full : args ≡ possible_arguments → IsTable args
  cut : (n : ℕ) → args ≡ limit_arguments n possible_arguments → IsTable args

-- The arguments in front of the first register zero.
pub record IsCut (args : List ℕ) : Type 0 where
  pub front : List ℕ
  pub back : List ℕ
  pub rest : List ℕ
  pub is : args ≡ front ++ (r_zero ∷ rest)
  pub is_front : argument_registers ≡ front ++ back
  pub no_zero : member r_zero front ≡ false

behind-IsCut :
    (front back rest : List ℕ) (args : List ℕ)
    → args ≡ front ++ (r_zero ∷ rest)
    → argument_registers ≡ front ++ back
    → member r_zero front ≡ false
    → IsCut args
behind-IsCut front back rest args e f z = record {
  front = front;
  back = back;
  rest = rest;
  is = e;
  is_front = f;
  no_zero = z;
}

limit_arguments-IsCut : (n : ℕ) → IsCut (limit_arguments n possible_arguments)
limit_arguments-IsCut zero = behind-IsCut (29 ∷ 84 ∷ []) (4 ∷ 5 ∷ 6 ∷ 7 ∷ []) _ _ refl refl refl
limit_arguments-IsCut (suc zero) =
    behind-IsCut (29 ∷ 84 ∷ 4 ∷ []) (5 ∷ 6 ∷ 7 ∷ []) _ _ refl refl refl
limit_arguments-IsCut (suc (suc zero)) =
    behind-IsCut (29 ∷ 84 ∷ 4 ∷ 5 ∷ []) (6 ∷ 7 ∷ []) _ _ refl refl refl
limit_arguments-IsCut (suc (suc (suc zero))) =
    behind-IsCut (29 ∷ 84 ∷ 4 ∷ 5 ∷ 6 ∷ []) (7 ∷ []) _ _ refl refl refl
limit_arguments-IsCut (suc (suc (suc (suc n)))) =
    behind-IsCut (29 ∷ 84 ∷ 4 ∷ 5 ∷ 6 ∷ 7 ∷ []) [] [] _ (ground arith) refl refl

pub IsTable-IsCut : (args : List ℕ) → IsTable args → IsCut args
IsTable-IsCut args (full e) = behind-IsCut (29 ∷ 84 ∷ 4 ∷ 5 ∷ 6 ∷ 7 ∷ []) [] [] args e refl refl
IsTable-IsCut args (cut n e) = subst IsCut (sym e) (limit_arguments-IsCut n)

not_zero : (a : ℕ) → (a == r_zero) ≡ false → (r_zero == a) ≡ false
not_zero a h = ground arith

pub wanted-front :
    (u : ℕ → ℕ) (front rest : List ℕ)
    → member r_zero front ≡ false
    → (wanted u (front ++ (r_zero ∷ rest)) ≡ used_of u front)
      × (has_zero (front ++ (r_zero ∷ rest)) ≡ true)
wanted-front u [] rest h = (refl, refl)
wanted-front u (x ∷ front) rest h = elim (Bool-cases (x == r_zero)) [
  | inl e ↦ let bad = rw e at h in cc
  | inr e ↦ let (w, z) = wanted-front u front rest (rw e at h) in (rw (e, w) refl, rw (e, z) refl)
]

-- The arguments of a table that ends with its first register zero.
abbrev pub before_zero : List ℕ → List ℕ
before_zero [] = []
before_zero (x ∷ args) = if x == r_zero then [] else x ∷ before_zero args

before_zero-front :
    (front rest : List ℕ)
    → member r_zero front ≡ false
    → before_zero (front ++ (r_zero ∷ rest)) ≡ front
before_zero-front [] rest h = refl
before_zero-front (x ∷ front) rest h = elim (Bool-cases (x == r_zero)) [
  | inl e ↦ let bad = rw e at h in cc
  | inr e ↦ rw e (ap (λ (l : List ℕ). x ∷ l) (before_zero-front front rest (rw e at h)))
]

-- Whatever table of arguments is looked at, the whole one or one cut for a number of arguments, a
-- call passes exactly the registers before its first register zero that the method uses, in the
-- order of the table, and the allocation that the method makes from the same counts of uses has
-- them in the first local variables in that order: where the Java machine puts the arguments.
pub registers_to_pass-local :
    (u : ℕ → ℕ) (args : List ℕ) (regalloc out : RegisterAllocator)
    → IsTable args
    → set_allocation u regalloc ≡ some out
    → (registers_to_pass u args ≡ some (used_of u (before_zero args)))
      × ((k r : ℕ)
          → get_elem? (used_of u (before_zero args)) k ≡ some r
          → out.mips_to_local r ≡ some k)
registers_to_pass-local u args regalloc out t h =
    let c = IsTable-IsCut args t in
    let (w, z) = wanted-front u c.front c.rest c.no_zero in
    let same : before_zero args ≡ c.front =
      ap before_zero c.is ∙ before_zero-front c.front c.rest c.no_zero in
    rw same (
      registers_to_pass_lem u args (rw c.is z) ∙ ap some (ap (wanted u) c.is ∙ w),
      λ k r found. set_allocation-argument u regalloc out c.front c.back k r h c.is_front found,
    )
