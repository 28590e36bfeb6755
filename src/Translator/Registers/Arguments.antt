-- ===== src/Translator/Registers/Arguments.antt =====
-- The local variables of the first registers that `setAllocation` of
-- tools/translator/registerallocator.cc allocates.
use cibyl.Base.{
  ℕ, zero, suc, ◌+◌, ◌<◌, ◌≡◌, refl, sym, ap, ◌∙◌, true, false, inl, inr, Option, none, some, List,
  [], ◌∷◌, ◌++◌, ◌==◌, ltb, if◌then◌else◌, length, get_elem?, arith, Bool-cases, Option-cases,
  append_assoc, subst, ==→eq, ==→ne, append-nil,
}
use cibyl.Translator.Mips.{r_sp, r_fna, r_a0, r_a1, r_a2, r_a3, n_regs}
use cibyl.Translator.Registers.{
  RegisterAllocator, Allocation, at, allocate_register, allocate_initial, find_largest,
  allocate_rest, assign_locals, initial_registers, set_allocation,
}
use cibyl.Translator.Registers.Assign.{member, get_elem-member}
use cibyl.Translator.Registers.Allocate.{find_largest_lem, initial_registers-IsPartial}

-- The registers of a list that are used.
abbrev pub used_of : (ℕ → ℕ) → List ℕ → List ℕ
used_of u [] = []
used_of u (reg ∷ regs) = if ltb 0 (u reg) then reg ∷ used_of u regs else used_of u regs

abbrev pub argument_registers : List ℕ
argument_registers = r_sp ∷ r_fna ∷ r_a0 ∷ r_a1 ∷ r_a2 ∷ r_a3 ∷ []

pub used_of-append :
    (u : ℕ → ℕ) (xs ys : List ℕ) → used_of u (xs ++ ys) ≡ used_of u xs ++ used_of u ys
used_of-append u [] ys = refl
used_of-append u (x ∷ xs) ys = elim (Bool-cases (ltb 0 (u x))) [
  | inl e ↦ rw (e, used_of-append u xs ys) refl
  | inr e ↦ rw (e, used_of-append u xs ys) refl
]

module _ (u : ℕ → ℕ) where
  allocate_initial-used :
      (reg : ℕ) (xs : List ℕ) (st : Allocation)
      → st.sorted ≡ used_of u xs
      → (allocate_initial u reg st).sorted ≡ used_of u (xs ++ (reg ∷ []))
  allocate_initial-used reg xs st e = elim (Bool-cases (ltb 0 (u reg))) [
    | inl b ↦ rw (b, used_of-append u xs (reg ∷ []), b, e) refl
    | inr b ↦ rw (b, used_of-append u xs (reg ∷ []), b, e) (sym (append-nil _))
  ]

  initial_registers-sorted : (initial_registers u).sorted ≡ used_of u argument_registers
  unfolding initial_registers
  initial_registers-sorted = allocate_initial-used r_a3 (r_sp ∷ r_fna ∷ r_a0 ∷ r_a1 ∷ r_a2 ∷ []) _ (
      allocate_initial-used r_a2 (r_sp ∷ r_fna ∷ r_a0 ∷ r_a1 ∷ []) _ (
        allocate_initial-used r_a1 (r_sp ∷ r_fna ∷ r_a0 ∷ []) _ (
          allocate_initial-used r_a0 (r_sp ∷ r_fna ∷ []) _
            (allocate_initial-used r_fna (r_sp ∷ []) _ (allocate_initial-used r_sp [] _ refl)))))

==-flip : (a b : ℕ) → (a == b) ≡ false → (b == a) ≡ false
==-flip a b h = ground arith

-- What the outer loop appends had a count.
record IsAppended (st out : Allocation) : Type 0 where
  more : List ℕ
  is : out.sorted ≡ st.sorted ++ more
  counted : (r : ℕ) → member r more ≡ true → 0 < st.usage r

allocate_rest-IsAppended :
    (k : ℕ) (st out : Allocation) → allocate_rest k st ≡ some out → IsAppended st out
unfolding allocate_rest
allocate_rest-IsAppended zero st out h = cc
allocate_rest-IsAppended (suc k) st out h =
    let index = (find_largest st.usage n_regs).1 in
    elim (Bool-cases ((find_largest st.usage n_regs).0 == 0)) [
      | inl e ↦
          let same : st ≡ out = unwrap (rw e at h) in
          record {
            more = [];
            is = sym (ap Allocation.sorted same) ∙ sym (append-nil st.sorted);
            counted = λ r m. cc;
          }
      | inr e ↦
          let later = allocate_rest-IsAppended k (allocate_register index st) out (rw e at h) in
          record {
            more = index ∷ later.more;
            is = later.is ∙ append_assoc st.sorted (index ∷ []) later.more;
            counted = λ r m. appended r later.more (later.counted r) e m;
          }
    ]
  where
    unwrap : some st ≡ some out → st ≡ out
    unwrap c = cc

    appended :
        (r : ℕ) (more : List ℕ)
        → (member r more ≡ true → 0 < at st.usage (find_largest st.usage n_regs).1 0 r)
        → ((find_largest st.usage n_regs).0 == 0) ≡ false
        → member r ((find_largest st.usage n_regs).1 ∷ more) ≡ true
        → 0 < st.usage r
    appended r more later e m = elim (Bool-cases ((find_largest st.usage n_regs).1 == r)) [
      | inl s ↦ elim (find_largest_lem st.usage n_regs) [
        | inl (zero_left, all) ↦ absurd (==→ne (find_largest st.usage n_regs).0 0 e zero_left)
        | inr (positive, below, is) ↦
            let counted : 0 < st.usage (find_largest st.usage n_regs).1 =
              omega (arith, is, positive) in
            subst (λ (i : ℕ). 0 < st.usage i) (==→eq (find_largest st.usage n_regs).1 r s) counted
      ]
      | inr s ↦
          let apart = ==-flip (find_largest st.usage n_regs).1 r s in
          rw apart at (later (rw s at m))
    ]

assign_locals-append :
    (xs ys : List ℕ) (i : ℕ) (f : ℕ → Option ℕ)
    → assign_locals (xs ++ ys) i f ≡ assign_locals ys (i + length xs) (assign_locals xs i f)
unfolding assign_locals
assign_locals-append [] ys i f = ap (λ (n : ℕ). assign_locals ys n f) (omega arith)
assign_locals-append (x ∷ xs) ys i f =
    assign_locals-append xs ys (i + 1) (at f x (some i))
    ∙ ap (λ (n : ℕ). assign_locals ys n (assign_locals xs (i + 1) (at f x (some i)))) (omega arith)

assign_locals-other :
    (ys : List ℕ) (i : ℕ) (f : ℕ → Option ℕ) (r : ℕ)
    → member r ys ≡ false
    → assign_locals ys i f r ≡ f r
unfolding assign_locals
assign_locals-other [] i f r h = refl
assign_locals-other (y ∷ ys) i f r h = elim (Bool-cases (y == r)) [
  | inl e ↦ let bad = rw e at h in cc
  | inr e ↦
      let apart : (r == y) ≡ false = ground arith in
      assign_locals-other ys (i + 1) (at f y (some i)) r (rw e at h) ∙ rw apart refl
]

abbrev Distinct : List ℕ → Type 0
Distinct [] = Unit
Distinct (x ∷ xs) = (member x xs ≡ false) × Distinct xs

member-used_of :
    (u : ℕ → ℕ) (r : ℕ) (xs : List ℕ) → member r xs ≡ false → member r (used_of u xs) ≡ false
member-used_of u r [] h = refl
member-used_of u r (x ∷ xs) h = elim (Bool-cases (x == r)) [
  | inl e ↦ let bad = rw e at h in cc
  | inr e ↦ elim (Bool-cases (ltb 0 (u x))) [
    | inl b ↦ rw (b, e) (member-used_of u r xs (rw e at h))
    | inr b ↦ rw b (member-used_of u r xs (rw e at h))
  ]
]

Distinct-used_of : (u : ℕ → ℕ) (xs : List ℕ) → Distinct xs → Distinct (used_of u xs)
Distinct-used_of u [] h = tt
Distinct-used_of u (x ∷ xs) h = elim (Bool-cases (ltb 0 (u x))) [
  | inl b ↦ rw b (member-used_of u x xs h.0, Distinct-used_of u xs h.1)
  | inr b ↦ rw b (Distinct-used_of u xs h.1)
]

assign_locals-at :
    (xs : List ℕ) (i : ℕ) (f : ℕ → Option ℕ) (r k : ℕ)
    → Distinct xs
    → get_elem? xs k ≡ some r
    → assign_locals xs i f r ≡ some (i + k)
unfolding assign_locals
assign_locals-at [] i f r k d h = cc
assign_locals-at (x ∷ xs) i f r zero d h =
    let same : x ≡ r = unwrap h in
    let self : (r == x) ≡ true = ground arith in
    assign_locals-other xs (i + 1) (at f x (some i)) r (rw same at d.0)
    ∙ rw self (ap (λ (n : ℕ). some n) (omega arith))
  where
    unwrap : some x ≡ some r → x ≡ r
    unwrap c = cc
assign_locals-at (x ∷ xs) i f r (suc k) d h =
    assign_locals-at xs (i + 1) (at f x (some i)) r k d.1 h ∙ ap (λ (n : ℕ). some n) (omega arith)

get_elem?-front :
    (xs ys : List ℕ) (k r : ℕ) → get_elem? xs k ≡ some r → get_elem? (xs ++ ys) k ≡ some r
get_elem?-front [] ys k r h = cc
get_elem?-front (x ∷ xs) ys zero r h = h
get_elem?-front (x ∷ xs) ys (suc k) r h = get_elem?-front xs ys k r h

arguments-Distinct : Distinct argument_registers
arguments-Distinct = (refl, (refl, (refl, (refl, (refl, (refl, tt))))))

-- In an allocation for these counts, the registers of the arguments that are used have the first
-- local variables, in the order in which a call passes them.
pub set_allocation-argument :
    (u : ℕ → ℕ) (regalloc out : RegisterAllocator) (xs ys : List ℕ) (k r : ℕ)
    → set_allocation u regalloc ≡ some out
    → argument_registers ≡ xs ++ ys
    → get_elem? (used_of u xs) k ≡ some r
    → out.mips_to_local r ≡ some k
unfolding set_allocation
set_allocation-argument u regalloc out xs ys k r h front found =
    let first = initial_registers u in
    elim (Option-cases (allocate_rest (suc n_regs) first)) [
      | inl e ↦ let bad = rw e at h in cc
      | inr (st, e) ↦
          let a = allocate_rest-IsAppended (suc n_regs) first st e in
          let start : first.sorted ≡ used_of u xs ++ used_of u ys =
            initial_registers-sorted u ∙ ap (used_of u) front ∙ used_of-append u xs ys in
          let place : get_elem? first.sorted k ≡ some r =
            rw start (get_elem?-front (used_of u xs) (used_of u ys) k r found) in
          let once : Distinct first.sorted =
            rw (initial_registers-sorted u)
              (Distinct-used_of u argument_registers arguments-Distinct) in
          is_out st (rw e at h)
          ∙ ap (λ (l : List ℕ). assign_locals l 0 (λ reg. none) r) a.is
          ∙ ap (λ (f : ℕ → Option ℕ). f r)
              (assign_locals-append first.sorted a.more 0 (λ reg. none))
          ∙ assign_locals-other a.more (0 + length first.sorted)
              (assign_locals first.sorted 0 (λ reg. none)) r (not_later a.more (a.counted r) place)
          ∙ assign_locals-at first.sorted 0 (λ reg. none) r k once place
          ∙ ap (λ (n : ℕ). some n) (omega arith)
    ]
  where
    is_out :
        (st : Allocation)
        → some (record regalloc {
          mips_to_local = assign_locals st.sorted 0 (λ reg. none);
          n_locals = length st.sorted;
        })
          ≡ some out
        → out.mips_to_local r ≡ assign_locals st.sorted 0 (λ reg. none) r
    is_out st c = ap (λ (o : Option RegisterAllocator). local_of o) (sym c)
      where
        local_of : Option RegisterAllocator → Option ℕ
        local_of none = none
        local_of (some a) = a.mips_to_local r

    not_later :
        (more : List ℕ)
        → (member r more ≡ true → 0 < (initial_registers u).usage r)
        → get_elem? (initial_registers u).sorted k ≡ some r
        → member r more ≡ false
    not_later more counted place = elim (Bool-cases (member r more)) [
      | inr e ↦ e
      | inl e ↦
          let here = get_elem-member r k (initial_registers u).sorted place in
          let gone : (initial_registers u).usage r ≡ 0 =
            (initial_registers-IsPartial u).cleared r ∙ rw here refl in
          absurd (omega (arith, counted e, gone))
    ]
