-- ===== src/Translator/Registers/Allocate.antt =====
-- `setAllocation` of tools/translator/registerallocator.cc.
use cibyl.Base.{
  ℕ, zero, suc, ◌+◌, ◌≤◌, ◌<◌, ◌≡◌, refl, sym, ap, subst, ◌∙◌, Bool, true, false, ◌&&◌, ◌⊎◌, inl,
  inr, none, some, [], ◌==◌, if◌then◌else◌, length, get_elem?, arith, Bool-cases, ltb, eq→==, ne→==,
}
use cibyl.Translator.Mips.{r_sp, r_fna, r_a0, r_a1, r_a2, r_a3, n_regs}
use cibyl.Translator.Registers.{
  RegisterAllocator, Allocation, at, allocate_register, allocate_initial, find_largest,
  allocate_rest, assign_locals, initial_registers, set_allocation,
}
use cibyl.Translator.Registers.Assign.{
  member, member_append, get_elem-member, assign_locals-place, assign_locals-found,
}

-- Which registers have been allocated: those that are used, and their count is cleared.
pub record IsPartial (u : ℕ → ℕ) (st : Allocation) : Type 0 where
  pub cleared : (r : ℕ) → st.usage r ≡ (if member r st.sorted then 0 else u r)
  pub used : (r : ℕ) → member r st.sorted ≡ true → (0 < u r) × (r < n_regs)

-- What `setAllocation` sets up for these counts.
pub record IsAllocated (u : ℕ → ℕ) (a : RegisterAllocator) : Type 0 where
  pub has_local :
      (r : ℕ) → r < n_regs → 0 < u r → (l : ℕ) × (a.mips_to_local r ≡ some l) × (l < a.n_locals)
  pub only_used : (r l : ℕ) → a.mips_to_local r ≡ some l → (0 < u r) × (r < n_regs)
  pub distinct : (r s l : ℕ) → a.mips_to_local r ≡ some l → a.mips_to_local s ≡ some l → r ≡ s

module _ (u : ℕ → ℕ) where
  start-IsPartial : IsPartial u (record { sorted = []; usage = u })
  start-IsPartial = record { cleared = λ r. refl; used = λ r h. cc }

  allocate_register-IsPartial :
      (reg : ℕ) (st : Allocation)
      → reg < n_regs
      → 0 < u reg
      → IsPartial u st
      → IsPartial u (allocate_register reg st)
  allocate_register-IsPartial reg st below used p = record {
    cleared = λ r. ground (arith, member_append r reg st.sorted, p.cleared r);
    used = λ r h. was_used r (rw (member_append r reg st.sorted) at h);
  }
    where
      was_used :
          (r : ℕ)
          → (if reg == r then true else member r st.sorted) ≡ true
          → (0 < u r) × (r < n_regs)
      was_used r h = elim (Bool-cases (reg == r)) [
        | inl same ↦
            let e : reg ≡ r = ground arith in
            (subst (λ i. 0 < u i) e used, subst (λ i. i < n_regs) e below)
        | inr other ↦ p.used r (rw other at h)
      ]

  allocate_initial-IsPartial :
      (reg : ℕ) (st : Allocation)
      → reg < n_regs
      → IsPartial u st
      → IsPartial u (allocate_initial u reg st)
  allocate_initial-IsPartial reg st below p = elim (Bool-cases (ltb 0 (u reg))) [
    | inl is_used ↦ rw is_used (allocate_register-IsPartial reg st below (ground arith) p)
    | inr unused ↦ rw unused p
  ]

  pub initial_registers-IsPartial : IsPartial u (initial_registers u)
  unfolding initial_registers
  initial_registers-IsPartial =
      let first = allocate_initial-IsPartial r_sp _ (omega arith) start-IsPartial in
      let second = allocate_initial-IsPartial r_fna _ (omega arith) first in
      let third = allocate_initial-IsPartial r_a0 _ (omega arith) second in
      let fourth = allocate_initial-IsPartial r_a1 _ (omega arith) third in
      let fifth = allocate_initial-IsPartial r_a2 _ (omega arith) fourth in
      allocate_initial-IsPartial r_a3 _ (omega arith) fifth

-- The largest count below `n`, and where it is.
pub find_largest_lem :
    (usage : ℕ → ℕ) (n : ℕ)
    → (((find_largest usage n).0 ≡ 0) × ((i : ℕ) → i < n → usage i ≡ 0))
      ⊎ ((0 < (find_largest usage n).0)
          × ((find_largest usage n).1 < n)
          × (usage (find_largest usage n).1 ≡ (find_largest usage n).0))
unfolding find_largest
find_largest_lem usage zero = inl (refl, λ i h. absurd (omega arith))
find_largest_lem usage (suc n) =
    elim (Bool-cases (ltb 0 (usage n) && ltb (find_largest usage n).0 (usage n))) [
      | inl larger ↦ rw larger (inr (ground arith, omega arith, refl))
      | inr not_larger ↦ elim (find_largest_lem usage n) [
        | inr (some_, below, is) ↦ rw not_larger (inr (some_, omega arith, is))
        | inl (none_, all) ↦ rw not_larger (inl (none_, λ i h. last none_ all i h (ground arith)))
      ]
    ]
  where
    last :
        (find_largest usage n).0 ≡ 0
        → ((i : ℕ) → i < n → usage i ≡ 0)
        → (i : ℕ) → i < suc n
        → usage n ≡ 0
        → usage i ≡ 0
    last z all i h e = elim (Bool-cases (i == n)) [
      | inl same ↦ let eq : i ≡ n = ground arith in rw eq e
      | inr other ↦ all i (ground arith)
    ]

-- How many registers below `n` have a count.
abbrev count : (ℕ → ℕ) → ℕ → ℕ
count f zero = 0
count f (suc n) = (if ltb 0 (f n) then 1 else 0) + count f n

count_le : (f : ℕ → ℕ) (n : ℕ) → count f n ≤ n
count_le f zero = omega arith
count_le f (suc n) = ground (arith, count_le f n)

count_beyond : (f : ℕ → ℕ) (n i : ℕ) → n ≤ i → count (at f i 0) n ≡ count f n
count_beyond f zero i h = refl
count_beyond f (suc n) i h = ground (arith, count_beyond f n i (omega arith))

count-at : (f : ℕ → ℕ) (n i : ℕ) → i < n → 0 < f i → count f n ≡ count (at f i 0) n + 1
count-at f zero i h p = absurd (omega arith)
count-at f (suc n) i h p = elim (Bool-cases (i == n)) [
  | inl same ↦ let e : i ≡ n = ground arith in ground (arith, count_beyond f n i (omega (arith, e)))
  | inr other ↦ ground (arith, count-at f n i (ground arith) p)
]

kept_count : (b : Bool) (x y : ℕ) → y ≡ (if b then 0 else x) → 0 < y → 0 < x
kept_count true x y e h = absurd (omega (arith, e, h))
kept_count false x y e h = omega (arith, e, h)

-- Each round of the outer loop clears a count, so `k` rounds are enough for fewer than `k` counts.
-- It ends with none left.
allocate_rest-IsPartial :
    (u : ℕ → ℕ) (k : ℕ) (st : Allocation)
    → IsPartial u st
    → count st.usage n_regs < k
    → (out : Allocation) × (allocate_rest k st ≡ some out)
      × IsPartial u out
      × ((i : ℕ) → i < n_regs → out.usage i ≡ 0)
unfolding allocate_rest
allocate_rest-IsPartial u zero st p h = absurd (omega arith)
allocate_rest-IsPartial u (suc k) st p h = elim (find_largest_lem st.usage n_regs) [
  | inl (zero_left, all) ↦
      let stop : ((find_largest st.usage n_regs).0 == 0) ≡ true =
        eq→== (find_largest st.usage n_regs).0 0 zero_left in
      (st, rw stop refl, p, all)
  | inr (positive, below, is) ↦
      let go : ((find_largest st.usage n_regs).0 == 0) ≡ false =
        ne→== (find_largest st.usage n_regs).0 0 (λ e. absurd (omega (arith, e, positive))) in
      let index = (find_largest st.usage n_regs).1 in
      let counted : 0 < st.usage index = omega (arith, is, positive) in
      let used : 0 < u index =
        kept_count (member index st.sorted) (u index) (st.usage index) (p.cleared index) counted in
      let (out, e, q, all) =
        allocate_rest-IsPartial u k (allocate_register index st)
          (allocate_register-IsPartial u index st below used p)
          (omega (arith, count-at st.usage n_regs index below counted)) in
      (out, rw go e, q, all)
]

locals-IsAllocated :
    (u : ℕ → ℕ) (st : Allocation) (regalloc : RegisterAllocator)
    → IsPartial u st
    → ((i : ℕ) → i < n_regs → st.usage i ≡ 0)
    → IsAllocated u (record regalloc {
      mips_to_local = assign_locals st.sorted 0 (λ reg. none);
      n_locals = length st.sorted;
    })
locals-IsAllocated u st regalloc p all = record {
  has_local = λ r below used. found r below used;
  only_used = λ r l h. p.used r (get_elem-member r l st.sorted (place r l h));
  distinct = λ r s l h k. unwrap r s (sym (place r l h) ∙ place s l k);
}
  where
    unwrap : (a b : ℕ) → some a ≡ some b → a ≡ b
    unwrap a b e = cc

    place :
        (r l : ℕ)
        → assign_locals st.sorted 0 (λ reg. none) r ≡ some l
        → get_elem? st.sorted l ≡ some r
    place r l h = elim (assign_locals-place st.sorted 0 (λ reg. none) r l h) [
      | inl e ↦ cc
      | inr (j, e, at_j) ↦
          let same : j ≡ l = omega (arith, e) in ap (get_elem? st.sorted) (sym same) ∙ at_j
    ]

    found :
        (r : ℕ)
        → r < n_regs
        → 0 < u r
        → (l : ℕ) × (assign_locals st.sorted 0 (λ reg. none) r ≡ some l) × (l < length st.sorted)
    found r below used =
        let held : member r st.sorted ≡ true = ground (arith, p.cleared r, all r below) in
        let (l, e, lt) = assign_locals-found st.sorted 0 (λ reg. none) r (inl held) in
        (l, e, omega arith)

-- `setAllocation` ends for whatever counts, gives a local variable below `n_locals` to every
-- register that is used and to no other, and never the same one to two registers.
pub set_allocation-IsAllocated :
    (u : ℕ → ℕ) (regalloc : RegisterAllocator)
    → (out : RegisterAllocator) × (set_allocation u regalloc ≡ some out)
      × IsAllocated u out
      × (out.mips_to_static ≡ regalloc.mips_to_static)
unfolding set_allocation
set_allocation-IsAllocated u regalloc =
    let (st, e, p, all) =
      allocate_rest-IsPartial u (suc n_regs) (initial_registers u) (initial_registers-IsPartial u)
        (omega (arith, count_le (initial_registers u).usage n_regs)) in
    (_, rw e refl, locals-IsAllocated u st regalloc p all, refl)
