-- ===== src/Translator/Calls/Passing.antt =====
-- The iterator over the registers that a call passes.
use cibyl.Base.{
  ℕ, zero, suc, ◌+◌, ◌≤◌, ◌<◌, ◌≡◌, refl, sym, ap, ◌∙◌, Bool, true, false, some, List, [], ◌∷◌,
  length, drop, ◌==◌, if◌then◌else◌, arith, Bool-cases, inl, inr,
}
use cibyl.Translator.Mips.{r_zero}
use cibyl.Translator.Calls.{
  clobbers_reg, next_from, get_next_register_to_pass, registers_from, registers_to_pass,
}

-- The registers of a list that ends with the register zero which the method uses.
abbrev pub wanted : (ℕ → ℕ) → List ℕ → List ℕ
wanted u [] = []
wanted u (reg ∷ args) =
    if reg == r_zero then [] else if clobbers_reg u reg then reg ∷ wanted u args else wanted u args

abbrev pub has_zero : List ℕ → Bool
has_zero [] = false
has_zero (reg ∷ args) = if reg == r_zero then true else has_zero args

-- What one call of the iterator gives, on the list from its place on.
record IsStep (u : ℕ → ℕ) (l : List ℕ) (it : ℕ) : Type 0 where
  reg : ℕ
  steps : ℕ
  is : next_from u l it ≡ some (reg, it + steps)
  some_step : 1 ≤ steps
  inside : length (drop steps l) < length l
  rest : wanted u l ≡ (if reg == r_zero then [] else reg ∷ wanted u (drop steps l))
  ends : (reg == r_zero) ≡ false → has_zero (drop steps l) ≡ true

module _ (u : ℕ → ℕ) where
  next_from-IsStep : (l : List ℕ) (it : ℕ) → has_zero l ≡ true → IsStep u l it
  unfolding next_from
  next_from-IsStep [] it h = cc
  next_from-IsStep (reg ∷ args) it h = elim (Bool-cases (reg == r_zero)) [
    | inl z ↦ record {
      reg = reg;
      steps = 1;
      is = rw z refl;
      some_step = omega arith;
      inside = omega arith;
      rest = rw z refl;
      ends = λ e. cc;
    }
    | inr z ↦ elim (Bool-cases (clobbers_reg u reg)) [
      | inl c ↦ record {
        reg = reg;
        steps = 1;
        is = rw (z, c) refl;
        some_step = omega arith;
        inside = omega arith;
        rest = rw (z, c) refl;
        ends = λ e. rw z at h;
      }
      | inr c ↦
          let r = next_from-IsStep args (it + 1) (rw z at h) in
          record {
            reg = r.reg;
            steps = suc r.steps;
            is = rw (z, c) (r.is ∙ ap (λ (n : ℕ). some (r.reg, n)) (omega arith));
            some_step = omega arith;
            inside = omega (arith, r.inside);
            rest = rw (z, c) r.rest;
            ends = r.ends;
          }
    ]
  ]

  drop-drop : (n k : ℕ) (l : List ℕ) → drop (n + k) l ≡ drop k (drop n l)
  drop-drop zero k l = ap (λ (i : ℕ). drop i l) (omega arith)
  drop-drop (suc n) k [] =
      ap (λ (i : ℕ). drop i []) {x = suc n + k} {y = suc (n + k)} (omega arith) ∙ sym (nothing k)
    where
      nothing : (k : ℕ) → drop {A = ℕ} k [] ≡ []
      nothing zero = refl
      nothing (suc k) = refl
  drop-drop (suc n) k (x ∷ l) =
      ap (λ (i : ℕ). drop i (x ∷ l)) {x = suc n + k} {y = suc (n + k)} (omega arith)
      ∙ drop-drop n k l

  zero_inside : (l : List ℕ) → has_zero l ≡ true → 1 ≤ length l
  zero_inside [] h = cc
  zero_inside (x ∷ l) h = omega arith

  registers_from_lem :
      (fuel it : ℕ) (args : List ℕ)
      → length (drop it args) ≤ fuel
      → has_zero (drop it args) ≡ true
      → registers_from u fuel args it ≡ some (wanted u (drop it args))
  unfolding registers_from get_next_register_to_pass
  registers_from_lem zero it args room h = absurd (omega (arith, zero_inside (drop it args) h))
  registers_from_lem (suc fuel) it args room h =
      let n = next_from-IsStep (drop it args) it h in
      elim (Bool-cases (n.reg == r_zero)) [
        | inl z ↦ let all = rw z at n.rest in rw (n.is, z, all) refl
        | inr z ↦
            let all = rw z at n.rest in
            let there = drop-drop it n.steps args in
            let later =
              registers_from_lem fuel (it + n.steps) args (rw there (omega (arith, n.inside)))
                (rw there (n.ends z)) in
            rw (n.is, z, later, there, all) refl
      ]

  -- The iterator ends before the end of the table, and gives the registers that the method uses
  -- among those in front of the register zero, in their order.
  pub registers_to_pass_lem :
      (args : List ℕ) → has_zero args ≡ true → registers_to_pass u args ≡ some (wanted u args)
  unfolding registers_to_pass
  registers_to_pass_lem args h = registers_from_lem (length args) 0 args (omega arith) h
