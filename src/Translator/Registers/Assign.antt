-- ===== src/Translator/Registers/Assign.antt =====
-- The local variables that `setAllocation` of tools/translator/registerallocator.cc gives to a list
-- of registers.
use cibyl.Base.{
  ℕ, zero, suc, ◌+◌, ◌<◌, ◌≡◌, refl, ap, Bool, true, false, ◌⊎◌, inl, inr, Option, some, List, [],
  ◌∷◌, ◌++◌, ◌==◌, if◌then◌else◌, length, get_elem?, arith, Bool-cases,
}
use cibyl.Translator.Registers.{at, assign_locals}

abbrev pub member : ℕ → List ℕ → Bool
member r [] = false
member r (x ∷ xs) = if x == r then true else member r xs

pub member_append :
    (r a : ℕ) (xs : List ℕ) → member r (xs ++ (a ∷ [])) ≡ (if a == r then true else member r xs)
member_append r a [] = refl
member_append r a (x ∷ xs) = ground (arith, member_append r a xs)

pub get_elem-member : (r i : ℕ) (xs : List ℕ) → get_elem? xs i ≡ some r → member r xs ≡ true
get_elem-member r i [] h = cc
get_elem-member r zero (x ∷ xs) h = let same : x ≡ r = unwrap x r h in ground arith
  where
    unwrap : (a b : ℕ) → some a ≡ some b → a ≡ b
    unwrap a b e = cc
get_elem-member r (suc i) (x ∷ xs) h = ground (arith, get_elem-member r i xs h)

-- The place of the register in the list, or what there was.
pub assign_locals-place :
    (xs : List ℕ) (i : ℕ) (f : ℕ → Option ℕ) (r l : ℕ)
    → assign_locals xs i f r ≡ some l
    → (f r ≡ some l) ⊎ ((j : ℕ) × (l ≡ i + j) × (get_elem? xs j ≡ some r))
unfolding assign_locals
assign_locals-place [] i f r l h = inl h
assign_locals-place (x ∷ xs) i f r l h =
    elim (assign_locals-place xs (i + 1) (at f x (some i)) r l h) [
      | inr (j, e, at_j) ↦ inr (suc j, omega (arith, e), at_j)
      | inl new ↦ elim (Bool-cases (r == x)) [
        | inl same ↦ inr (0, first i l (rw same at new), head same)
        | inr other ↦ inl (rw other at new)
      ]
    ]
  where
    first : (a b : ℕ) → some a ≡ some b → b ≡ a + 0
    first a b e = let back : b ≡ a = cc in omega (arith, back)

    head : (r == x) ≡ true → get_elem? (x ∷ xs) 0 ≡ some r
    head same = let e : x ≡ r = ground arith in ap some e

pub assign_locals-found :
    (xs : List ℕ) (i : ℕ) (f : ℕ → Option ℕ) (r : ℕ)
    → (member r xs ≡ true) ⊎ ((l : ℕ) × (f r ≡ some l) × (l < i))
    → (l : ℕ) × (assign_locals xs i f r ≡ some l) × (l < i + length xs)
unfolding assign_locals
assign_locals-found [] i f r (inl m) = cc
assign_locals-found [] i f r (inr (l, e, lt)) = (l, e, omega arith)
assign_locals-found (x ∷ xs) i f r h =
    let (l, e, lt) = assign_locals-found xs (i + 1) (at f x (some i)) r (next h) in
    (l, e, omega arith)
  where
    next :
        (member r (x ∷ xs) ≡ true) ⊎ ((l : ℕ) × (f r ≡ some l) × (l < i))
        → (member r xs ≡ true) ⊎ ((l : ℕ) × (at f x (some i) r ≡ some l) × (l < i + 1))
    next h = elim (Bool-cases (r == x)) [
      | inl same ↦ inr (i, rw same refl, omega arith)
      | inr other ↦ elim h [
        | inl m ↦ inl (ground arith)
        | inr (l, e, lt) ↦ inr (l, rw other e, omega arith)
      ]
    ]
