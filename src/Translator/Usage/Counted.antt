-- ===== src/Translator/Usage/Counted.antt =====
-- Counts only grow, and the register that an instruction writes is counted.
use cibyl.Base.{
  ℕ, zero, suc, ◌+◌, ◌≤◌, ◌<◌, ◌≡◌, ◌≢◌, refl, sym, subst, Bool, true, false, inl, inr, ◌⊎◌, Option,
  none, some, List, [], ◌∷◌, ◌==◌, if◌then◌else◌, get_elem?, arith, Bool-cases, ne→==, eq→==,
}
use cibyl.Translator.Mips.{r_zero, r_fna}
use cibyl.Translator.Registers.{at}
use cibyl.Translator.Instructions.{
  Arithmetic, rfmt, shift_v, addu, subu, nor, slt, sltu, shift, ifmt, addi, slti, sltiu, lui, mfxx,
  mtxx,
}
use cibyl.Translator.Instructions.Semantics.{destination}
use cibyl.Translator.Usage.{
  Counts, add_to_register_usage, fill_destinations, fill_sources, Listed, computing, other,
  listed_destinations, listed_sources, register_sources, Placed, if_there, fill_placed, fill_all,
  register_destinations, register_usage, function_usage,
}

abbrev Grows {ℓ} : {A : Type ℓ} → (A → Counts → Counts) → Type ℓ
Grows {A = A} fill = (x : A) (p : Counts) (r : ℕ) → p r ≤ fill x p r

pub add-grows : (reg : ℕ) (p : Counts) (r : ℕ) → p r ≤ add_to_register_usage reg p r
add-grows reg p r = elim (Bool-cases (reg == 0)) [
  | inl e ↦ rw e (omega arith)
  | inr n ↦ elim (Bool-cases (r == reg)) [
    | inl e ↦ let same : r ≡ reg = ground arith in rw (n, e, same) (omega arith)
    | inr f ↦ rw (n, f) (omega arith)
  ]
]

pub add-counts : (reg : ℕ) (p : Counts) → reg ≢ r_zero → 0 < add_to_register_usage reg p reg
add-counts reg p n = rw (ne→== reg 0 n, eq→== reg reg refl) (omega arith)

two_sources-grows :
    (rs rt : ℕ) (p : Counts) (r : ℕ) → p r ≤ add_to_register_usage rt (add_to_register_usage rs p) r
two_sources-grows rs rt p r =
    omega (arith, add-grows rs p r, add-grows rt (add_to_register_usage rs p) r)

fill_destinations-Grows : Grows fill_destinations
unfolding fill_destinations
fill_destinations-Grows (rfmt what rs rt rd) p r = add-grows rd p r
fill_destinations-Grows (shift_v what rs rt rd) p r = add-grows rd p r
fill_destinations-Grows (addu rs rt rd) p r = add-grows rd p r
fill_destinations-Grows (subu rs rt rd) p r = add-grows rd p r
fill_destinations-Grows (nor rs rt rd) p r = add-grows rd p r
fill_destinations-Grows (slt rs rt rd) p r = add-grows rd p r
fill_destinations-Grows (sltu rs rt rd) p r = add-grows rd p r
fill_destinations-Grows (shift what rs rt rd extra) p r = add-grows rd p r
fill_destinations-Grows (ifmt what rs rt rd extra) p r = add-grows rt p r
fill_destinations-Grows (addi rs rt rd extra) p r = add-grows rt p r
fill_destinations-Grows (slti rs rt extra) p r = add-grows rt p r
fill_destinations-Grows (sltiu rs rt extra) p r = add-grows rt p r
fill_destinations-Grows (lui rt extra) p r = add-grows rt p r
fill_destinations-Grows (mfxx rd src) p r = add-grows rd p r
fill_destinations-Grows (mtxx rs dst) p r = add-grows 0 p r

fill_sources-Grows : Grows fill_sources
unfolding fill_sources
fill_sources-Grows (rfmt what rs rt rd) p r = two_sources-grows rs rt p r
fill_sources-Grows (shift_v what rs rt rd) p r = two_sources-grows rs rt p r
fill_sources-Grows (addu rs rt rd) p r = two_sources-grows rs rt p r
fill_sources-Grows (subu rs rt rd) p r = two_sources-grows rs rt p r
fill_sources-Grows (nor rs rt rd) p r = two_sources-grows rs rt p r
fill_sources-Grows (slt rs rt rd) p r = two_sources-grows rs rt p r
fill_sources-Grows (sltu rs rt rd) p r = two_sources-grows rs rt p r
fill_sources-Grows (shift what rs rt rd extra) p r = add-grows rt p r
fill_sources-Grows (ifmt what rs rt rd extra) p r = add-grows rs p r
fill_sources-Grows (addi rs rt rd extra) p r = add-grows rs p r
fill_sources-Grows (slti rs rt extra) p r = add-grows rs p r
fill_sources-Grows (sltiu rs rt extra) p r = add-grows rs p r
fill_sources-Grows (lui rt extra) p r = omega arith
fill_sources-Grows (mfxx rd src) p r = add-grows src p r
fill_sources-Grows (mtxx rs dst) p r = add-grows dst p r

-- Every class but `Mtxx` counts the register that it writes.
abbrev pub IsCounted : Arithmetic → Type 0
IsCounted (mtxx rs dst) = ⊥
IsCounted _ = Unit

pub fill_destinations-counts :
    (i : Arithmetic) (p : Counts)
    → IsCounted i
    → destination i ≢ r_zero
    → 0 < fill_destinations i p (destination i)
unfolding fill_destinations
fill_destinations-counts (rfmt what rs rt rd) p c n = add-counts rd p n
fill_destinations-counts (shift_v what rs rt rd) p c n = add-counts rd p n
fill_destinations-counts (addu rs rt rd) p c n = add-counts rd p n
fill_destinations-counts (subu rs rt rd) p c n = add-counts rd p n
fill_destinations-counts (nor rs rt rd) p c n = add-counts rd p n
fill_destinations-counts (slt rs rt rd) p c n = add-counts rd p n
fill_destinations-counts (sltu rs rt rd) p c n = add-counts rd p n
fill_destinations-counts (shift what rs rt rd extra) p c n = add-counts rd p n
fill_destinations-counts (ifmt what rs rt rd extra) p c n = add-counts rt p n
fill_destinations-counts (addi rs rt rd extra) p c n = add-counts rt p n
fill_destinations-counts (slti rs rt extra) p c n = add-counts rt p n
fill_destinations-counts (sltiu rs rt extra) p c n = add-counts rt p n
fill_destinations-counts (lui rt extra) p c n = add-counts rt p n
fill_destinations-counts (mfxx rd src) p c n = add-counts rd p n
fill_destinations-counts (mtxx rs dst) p c n = elim c [ ]

module _ {ℓ} {A : Type ℓ} (fill : A → Counts → Counts) (g : Grows fill) where
  fill_all-Grows : Grows (fill_all fill)
  fill_all-Grows [] p r = omega arith
  fill_all-Grows (x ∷ xs) p r = omega (arith, g x p r, fill_all-Grows xs (fill x p) r)

  -- What one element counts is counted in the end.
  fill_all-counts :
      (xs : List A) (k : ℕ) (x : A) (p : Counts) (r : ℕ)
      → get_elem? xs k ≡ some x
      → ((q : Counts) → 0 < fill x q r)
      → 0 < fill_all fill xs p r
  fill_all-counts [] k x p r e c = cc
  fill_all-counts (y ∷ ys) zero x p r e c =
      let same : y ≡ x = unwrap e in
      omega
        (arith, fill_all-Grows ys (fill y p) r, subst (λ (z : A). 0 < fill z p r) (sym same) (c p))
    where
      unwrap : some y ≡ some x → y ≡ x
      unwrap h = cc
  fill_all-counts (y ∷ ys) (suc k) x p r e c = fill_all-counts ys k x (fill y p) r e c

listed_destinations-Grows : Grows listed_destinations
unfolding listed_destinations
listed_destinations-Grows (computing i) p r = fill_destinations-Grows i p r
listed_destinations-Grows (other ds ss) p r = fill_all-Grows add_to_register_usage add-grows ds p r

listed_sources-Grows : Grows listed_sources
unfolding listed_sources
listed_sources-Grows (computing i) p r = fill_sources-Grows i p r
listed_sources-Grows (other ds ss) p r = fill_all-Grows add_to_register_usage add-grows ss p r

if_there-Grows :
    (fill : Listed → Counts → Counts)
    → Grows fill
    → (o : Option Listed) (p : Counts) (r : ℕ) → p r ≤ if_there fill o p r
if_there-Grows fill g none p r = omega arith
if_there-Grows fill g (some i) p r = g i p r

fill_placed-Grows : (fill : Listed → Counts → Counts) → Grows fill → Grows (fill_placed fill)
fill_placed-Grows fill g i p r = omega (
  arith,
  g i.insn p r,
  if_there-Grows fill g i.delayed (fill i.insn p) r,
  if_there-Grows fill g i.prefix (if_there fill i.delayed (fill i.insn p)) r,
)

-- The instruction `i` stands in the method, in the `k`-th place of the block `b` of the function
-- `f`: as the instruction there, in its delay slot, or as its prefix.
pub record Stands (functions : List (List (List Placed))) (i : Arithmetic) : Type 0 where
  pub bbs : List (List Placed)
  pub insns : List Placed
  pub placed : Placed
  pub f : ℕ
  pub b : ℕ
  pub k : ℕ
  pub in_method : get_elem? functions f ≡ some bbs
  pub in_function : get_elem? bbs b ≡ some insns
  pub in_block : get_elem? insns k ≡ some placed
  pub is :
      (placed.insn ≡ computing i)
      ⊎ (placed.delayed ≡ some (computing i))
      ⊎ (placed.prefix ≡ some (computing i))

module _ (fill : Listed → Counts → Counts) (g : Grows fill) (functions : List (List (List Placed)))
    (i : Arithmetic) (s : Stands functions i) (r : ℕ)
    (c : (q : Counts) → 0 < fill (computing i) q r) where
  placed-counts : (q : Counts) → 0 < fill_placed fill s.placed q r
  placed-counts q =
      let p = s.placed in
      let one = fill p.insn q in
      let two = if_there fill p.delayed one in
      elim (s.is) [
        | inl e ↦
            let counted = subst (λ (x : Listed). 0 < fill x q r) (sym e) (c q) in
            omega (
              arith,
              counted,
              if_there-Grows fill g p.delayed one r,
              if_there-Grows fill g p.prefix two r,
            )
        | inr (inl e) ↦
            let counted =
              subst (λ (o : Option Listed). 0 < if_there fill o one r) (sym e) (c one) in
            omega (arith, counted, if_there-Grows fill g p.prefix two r)
        | inr (inr e) ↦ subst (λ (o : Option Listed). 0 < if_there fill o two r) (sym e) (c two)
      ]

  pub function-counts : 0 < fill_all (fill_all (fill_placed fill)) s.bbs (λ t. 0) r
  function-counts =
      fill_all-counts (fill_all (fill_placed fill))
        (fill_all-Grows (fill_placed fill) (fill_placed-Grows fill g)) s.bbs s.b s.insns (λ t. 0) r
        s.in_function
        (λ q.
          fill_all-counts (fill_placed fill) (fill_placed-Grows fill g) s.insns s.k s.placed q r
            s.in_block placed-counts)

module _ (multiple : Bool) (functions : List (List (List Placed))) (i : Arithmetic)
    (s : Stands functions i) (r : ℕ) where
  method-counts :
      0 < register_destinations s.bbs r + register_sources s.bbs r
      → 0 < register_usage multiple functions r
  method-counts c = more multiple (fill_all function_usage functions (λ t. 0)) (
      fill_all-counts function_usage (λ bbs p t. omega arith) functions s.f s.bbs (λ t. 0) r
        s.in_method (λ q. omega arith))
    where
      more :
          (multiple : Bool) (u : Counts)
          → 0 < u r
          → 0 < (if multiple then at u r_fna (u r_fna + 1) else u) r
      more false u h = h
      more true u h = elim (Bool-cases (r == r_fna)) [ inl e ↦ rw e (omega arith) | inr m ↦ rw m h ]

  -- A method counts the registers that its instructions write, and those that they read.
  pub destinations-counted :
      ((q : Counts) → 0 < fill_destinations i q r) → 0 < register_usage multiple functions r
  unfolding listed_destinations
  destinations-counted c =
      let counted =
        function-counts listed_destinations listed_destinations-Grows functions i s r c in
      method-counts (omega (arith, counted))

  pub sources-counted :
      ((q : Counts) → 0 < fill_sources i q r) → 0 < register_usage multiple functions r
  unfolding listed_sources
  sources-counted c =
      let counted = function-counts listed_sources listed_sources-Grows functions i s r c in
      method-counts (omega (arith, counted))
