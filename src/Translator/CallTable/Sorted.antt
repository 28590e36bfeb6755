-- ===== src/Translator/CallTable/Sorted.antt =====
-- The functions of the call table are sorted, each is there once, and none is lost.
use cibyl.Base.{
  ℕ, suc, ◌+◌, ◌<◌, ◌≡◌, refl, sym, ap, ◌∙◌, Bool, true, false, List, [], ◌∷◌, ltb, ◌==◌,
  if◌then◌else◌, arith, Bool-cases, inl, inr, ==→eq, ltb→lt,
}
use cibyl.Translator.Registers.Assign.{member}
use cibyl.Translator.CallTable.{CallTable, find_place, insert_at, add_function}

-- All are above a bound, in order, and none is there twice.
abbrev pub IsAbove : ℕ → List ℕ → Type 0
IsAbove low [] = Unit
IsAbove low (f ∷ fs) = (low < f) × IsAbove f fs

abbrev pub IsSorted : List ℕ → Type 0
IsSorted [] = Unit
IsSorted (f ∷ fs) = IsAbove f fs

-- The list in order, and the map holds what the list holds.
pub record IsTable (t : CallTable) : Type 0 where
  pub sorted : IsSorted t.functions
  pub agrees : (a : ℕ) → t.function_table a ≡ member a t.functions

-- The insertion, by recursion on the list.
abbrev inserted : List ℕ → ℕ → List ℕ
inserted [] addr = addr ∷ []
inserted (f ∷ fs) addr = if ltb addr f then addr ∷ f ∷ fs else f ∷ inserted fs addr

find_place-suc :
    (fs : List ℕ) (addr i : ℕ) → find_place fs addr (i + 1) ≡ suc (find_place fs addr i)
unfolding find_place
find_place-suc [] addr i = omega arith
find_place-suc (f ∷ fs) addr i = elim (Bool-cases (ltb addr f)) [
  | inl e ↦ rw e (omega arith)
  | inr e ↦ rw e (find_place-suc fs addr (i + 1))
]

insert_at-inserted :
    (fs : List ℕ) (addr : ℕ) → insert_at fs (find_place fs addr 0) addr ≡ inserted fs addr
unfolding find_place
insert_at-inserted [] addr = refl
insert_at-inserted (f ∷ fs) addr = elim (Bool-cases (ltb addr f)) [
  | inl e ↦ rw e refl
  | inr e ↦
      let next : find_place fs addr 1 ≡ suc (find_place fs addr 0) = find_place-suc fs addr 0 in
      rw (e, next) (ap (λ (l : List ℕ). f ∷ l) (insert_at-inserted fs addr))
]

member-inserted :
    (fs : List ℕ) (addr a : ℕ)
    → member a (inserted fs addr) ≡ (if addr == a then true else member a fs)
member-inserted [] addr a = refl
member-inserted (f ∷ fs) addr a = elim (Bool-cases (ltb addr f)) [
  | inl e ↦ rw e refl
  | inr e ↦ rw e (rw (member-inserted fs addr a) (ground arith))
]

inserted-IsAbove :
    (fs : List ℕ) (low addr : ℕ)
    → low < addr
    → member addr fs ≡ false
    → IsAbove low fs
    → IsAbove low (inserted fs addr)
inserted-IsAbove [] low addr lt new s = (lt, tt)
inserted-IsAbove (f ∷ fs) low addr lt new s = elim (Bool-cases (ltb addr f)) [
  | inl e ↦ rw e (lt, (ltb→lt addr f e, s.1))
  | inr e ↦ rw e (s.0, inserted-IsAbove fs f addr (ground arith) (ground arith) s.1)
]

inserted-IsSorted :
    (fs : List ℕ) (addr : ℕ) → member addr fs ≡ false → IsSorted fs → IsSorted (inserted fs addr)
inserted-IsSorted [] addr new s = tt
inserted-IsSorted (f ∷ fs) addr new s = elim (Bool-cases (ltb addr f)) [
  | inl e ↦ rw e (ltb→lt addr f e, s)
  | inr e ↦ rw e (inserted-IsAbove fs f addr (ground arith) (ground arith) s)
]

-- `addFunction` keeps the functions in the order of their addresses, without a double, and the map
-- in agreement with them; afterwards the table has the new function and those that it had before,
-- and no other.
pub add_function-IsTable :
    (t : CallTable) (addr : ℕ)
    → IsTable t
    → IsTable (add_function t addr)
      × ((a : ℕ)
          → member a (add_function t addr).functions
            ≡ (if addr == a then true else member a t.functions))
unfolding add_function
add_function-IsTable t addr s = elim (Bool-cases (t.function_table addr)) [
  | inl e ↦ rw e (s, λ a. kept a (sym (s.agrees addr) ∙ e))
  | inr e ↦
      let new : member addr t.functions ≡ false = sym (s.agrees addr) ∙ e in
      rw (e, insert_at-inserted t.functions addr)
        (
          record {
            sorted = inserted-IsSorted t.functions addr new s.sorted;
            agrees = λ a.
                rw (member-inserted t.functions addr a, s.agrees a) (flip a (member a t.functions));
          },
          λ a. member-inserted t.functions addr a,
        )
]
  where
    kept :
        (a : ℕ)
        → member addr t.functions ≡ true
        → member a t.functions ≡ (if addr == a then true else member a t.functions)
    kept a h = elim (Bool-cases (addr == a)) [
      | inl e ↦ rw e (rw (==→eq addr a e) at h)
      | inr e ↦ rw e refl
    ]

    flip : (a : ℕ) (b : Bool) → (if a == addr then true else b) ≡ (if addr == a then true else b)
    flip a b = ground arith
