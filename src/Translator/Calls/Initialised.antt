-- ===== src/Translator/Calls/Initialised.antt =====
-- The registers that a method initialises, and the ones that it is passed.
use cibyl.Base.{
  ℕ, zero, suc, ◌+◌, ◌<◌, ◌≡◌, refl, sym, ap, ◌∙◌, subst, Bool, true, false, not, ◌&&◌, Option,
  some, List, [], ◌∷◌, ◌++◌, ltb, leb, ◌==◌, if◌then◌else◌, arith, Bool-cases, inl, inr, ==→eq,
}
use cibyl.Translator.Mips.{r_zero, r_fna, n_regs}
use cibyl.Translator.Registers.Assign.{member}
use cibyl.Translator.Registers.Arguments.{used_of}
use cibyl.Translator.Calls.{
  register_is_argument, registers_to_pass, Initial, initial_value, zero_registers, initialised,
}
use cibyl.Translator.Calls.Passing.{wanted, registers_to_pass_lem}
use cibyl.Translator.Calls.Agreement.{IsTable, IsTable-IsCut, wanted-front}

register_is_argument-front :
    (front rest : List ℕ) (r : ℕ)
    → member r_zero front ≡ false
    → register_is_argument (front ++ (r_zero ∷ rest)) r ≡ some (member r front)
unfolding register_is_argument
register_is_argument-front [] rest r h = refl
register_is_argument-front (x ∷ front) rest r h = elim (Bool-cases (x == r_zero)) [
  | inl e ↦ let bad = rw e at h in cc
  | inr e ↦ elim (Bool-cases (x == r)) [
    | inl s ↦ rw (e, s) refl
    | inr s ↦ rw (e, s) (register_is_argument-front front rest r (rw e at h))
  ]
]

abbrev pub holds_register : ℕ → List (ℕ × Initial) → Bool
holds_register r [] = false
holds_register r ((i, v) ∷ l) = if i == r then true else holds_register r l

abbrev within : ℕ → ℕ → ℕ → Bool
within i left r = leb i r && ltb r (i + left)

empty : (i r : ℕ) (c : Bool) → false ≡ (within i 0 r && c)
empty i r c = ground arith

within_self : (i left : ℕ) → within i (suc left) i ≡ true
within_self i left = ground arith

within_next : (i left r : ℕ) → (i == r) ≡ false → within (i + 1) left r ≡ within i (suc left) r
within_next i left r h = ground arith

within_before : (i left : ℕ) → within (i + 1) left i ≡ false
within_before i left = ground arith

holds-next :
    (i left r : ℕ) (v : Initial) (b c : Bool) (l : List (ℕ × Initial))
    → ((i == r) ≡ true → b ≡ c)
    → holds_register r l ≡ (within (i + 1) left r && c)
    → holds_register r (if b then (i, v) ∷ l else l) ≡ (within i (suc left) r && c)
holds-next i left r v b c l same h = elim (Bool-cases (i == r)) [
  | inl e ↦
      let i_is : i ≡ r = ==→eq i r e in
      let before : within (i + 1) left r ≡ false =
        subst (λ (n : ℕ). within (i + 1) left n ≡ false) i_is (within_before i left) in
      let self : within i (suc left) r ≡ true =
        subst (λ (n : ℕ). within i (suc left) n ≡ true) i_is (within_self i left) in
      let gone : holds_register r l ≡ false = h ∙ ap (λ (t : Bool). t && c) before in
      new b (same e) gone e ∙ sym (ap (λ (t : Bool). t && c) self)
  | inr e ↦ kept b e ∙ h ∙ ap (λ (t : Bool). t && c) (within_next i left r e)
]
  where
    new :
        (b : Bool)
        → b ≡ c
        → holds_register r l ≡ false
        → (i == r) ≡ true
        → holds_register r (if b then (i, v) ∷ l else l) ≡ c
    new true k gone e = rw e k
    new false k gone e = gone ∙ k

    kept :
        (b : Bool)
        → (i == r) ≡ false
        → holds_register r (if b then (i, v) ∷ l else l) ≡ holds_register r l
    kept true e = rw e refl
    kept false e = refl

-- Which registers the loop initialises, from `i` on.
record IsInitialised (is_argument : ℕ → Bool) (usage : ℕ → ℕ) (i left : ℕ)
    (o : Option (List (ℕ × Initial))) : Type 0 where
  list : List (ℕ × Initial)
  is : o ≡ some list
  holds :
      (r : ℕ)
      → holds_register r list ≡ (within i left r && (not (is_argument r) && ltb 0 (usage r)))

module _ (usage : ℕ → ℕ) (args : List ℕ) (multiple : Bool) (is_argument : ℕ → Bool)
    (known : (r : ℕ) → register_is_argument args r ≡ some (is_argument r))
    (fna : (ltb 0 (usage r_fna) && not multiple) ≡ false) where
  no_panic : (i : ℕ) → ((i == r_fna) && ltb 0 (usage i) && not multiple) ≡ false
  no_panic i = elim (Bool-cases (i == r_fna)) [
    | inl e ↦ let same : i ≡ r_fna = ==→eq i r_fna e in rw same fna
    | inr e ↦ rw e refl
  ]

  zero_registers-IsInitialised :
      (left i : ℕ)
      → IsInitialised is_argument usage i left (zero_registers usage args multiple left i)
  unfolding zero_registers
  zero_registers-IsInitialised zero i = record {
    list = [];
    is = refl;
    holds = λ r. empty i r (not (is_argument r) && ltb 0 (usage r));
  }
  zero_registers-IsInitialised (suc left) i =
      let later = zero_registers-IsInitialised left (i + 1) in
      record {
        list =
            if not (is_argument i) && ltb 0 (usage i)
            then (i, initial_value multiple i) ∷ later.list
            else later.list;
        is = rw (no_panic i, known i, later.is) refl;
        holds = λ r.
            holds-next i left r (initial_value multiple i) (not (is_argument i) && ltb 0 (usage i))
              (not (is_argument r) && ltb 0 (usage r)) later.list
              (λ e. ap (λ (n : ℕ). not (is_argument n) && ltb 0 (usage n)) (==→eq i r e))
              (later.holds r);
      }

member-used_of :
    (u : ℕ → ℕ) (r : ℕ) (xs : List ℕ) → member r (used_of u xs) ≡ (ltb 0 (u r) && member r xs)
member-used_of u r [] = ground arith
member-used_of u r (x ∷ xs) = elim (Bool-cases (x == r)) [
  | inl e ↦
      let same : x ≡ r = ==→eq x r e in
      elim (Bool-cases (ltb 0 (u r))) [
        | inl b ↦ let self : (r == r) ≡ true = ground arith in rw (same, b, self) refl
        | inr b ↦ rw (same, b) (member-used_of u r xs ∙ ap (λ (t : Bool). t && member r xs) b)
      ]
  | inr e ↦ elim (Bool-cases (ltb 0 (u x))) [
    | inl b ↦ rw (b, e) (member-used_of u r xs)
    | inr b ↦ rw (b, e) (member-used_of u r xs)
  ]
]

-- A method whose functions are several, or that does not use the register of the function's number,
-- with the table of arguments or one cut for a number of them, is set up, and so are the calls of
-- it: each register that it uses is passed by its callers or initialised before its first
-- instruction, and none is both; a register that it does not use is neither.
pub initialised-passed :
    (u : ℕ → ℕ) (args : List ℕ) (multiple : Bool)
    → IsTable args
    → (multiple ≡ false → u r_fna ≡ 0)
    → (regs : List ℕ) × (l : List (ℕ × Initial)) × (registers_to_pass u args ≡ some regs)
      × (initialised u args multiple ≡ some l)
      × ((r : ℕ) → r < n_regs → 0 < u r → holds_register r l ≡ not (member r regs))
      × ((r : ℕ) → u r ≡ 0 → (holds_register r l ≡ false) × (member r regs ≡ false))
unfolding initialised
initialised-passed u args multiple t fna =
    let c = IsTable-IsCut args t in
    let (w, z) = wanted-front u c.front c.rest c.no_zero in
    let known : (r : ℕ) → register_is_argument args r ≡ some (member r c.front) = λ (r : ℕ).
      ap (λ (l : List ℕ). register_is_argument l r) c.is
      ∙ register_is_argument-front c.front c.rest r c.no_zero in
    let i =
      zero_registers-IsInitialised u args multiple (λ r. member r c.front) known
        (unused multiple (u r_fna) fna) n_regs 0 in
    (
      used_of u c.front,
      i.list,
      registers_to_pass_lem u args (rw c.is z) ∙ ap some (ap (wanted u) c.is ∙ w),
      i.is,
      λ r below used. i.holds r ∙ either r c.front below used,
      λ r none_used.
          (i.holds r ∙ neither r c.front none_used, member-used_of u r c.front ∙ ground arith),
    )
  where
    unused :
        (multiple : Bool) (n : ℕ) → (multiple ≡ false → n ≡ 0) → (ltb 0 n && not multiple) ≡ false
    unused true n h = ground arith
    unused false n h = ground (arith, h refl)

    either :
        (r : ℕ) (front : List ℕ)
        → r < n_regs
        → 0 < u r
        → (within 0 n_regs r && (not (member r front) && ltb 0 (u r)))
          ≡ not (member r (used_of u front))
    either r front below used =
        let is_in : within 0 n_regs r ≡ true = ground arith in
        let is_used : ltb 0 (u r) ≡ true = ground arith in
        rw (is_in, member-used_of u r front, is_used) (ground arith)

    neither :
        (r : ℕ) (front : List ℕ)
        → u r ≡ 0
        → (within 0 n_regs r && (not (member r front) && ltb 0 (u r))) ≡ false
    neither r front none_used = ground arith
