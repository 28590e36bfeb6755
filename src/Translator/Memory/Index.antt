-- ===== src/Translator/Memory/Index.antt =====
-- The parts of a load and a store: the index of a word, and the shift of a part of it.
use cibyl.Base.{
  ℕ, suc, ◌+◌, ◌-◌, ◌*◌, ◌/◌, ◌%◌, ◌≤◌, ◌<◌, ◌≡◌, ◌≢◌, refl, ap, ◌∙◌, true, inl, inr, some, List,
  [], ◌∷◌, ◌++◌, ltb, arith, Bool-cases, Option-cases, ◌>>=◌, if◌then◌else◌, bit_and, append_assoc,
}
use cibyl.Base.Int.{ℤ, pos, negsuc}
use cibyl.Translator.Mips.{r_mem}
use cibyl.Translator.Registers.{RegisterAllocator}
use cibyl.Translator.Emit.{
  Insn, iadd, isub, iand, ishl, iushr, bc_pushconst, bc_pushregister, bc_pushindex, is_zero,
  by_four, quarter,
}
use cibyl.Translator.Jvm.{Value, int, Machine, two32, to_word, step, slots, exec}
use cibyl.Translator.Run.{Holds, IsInt}
use cibyl.Translator.Memory.{push_shift}
use cibyl.Translator.Instructions.Stack.{stacked, run_register, run_const, run_one}

-- The sum of a register and a constant, which is in the address space.
abbrev pub address : ℕ → ℤ → ℕ
address a (pos n) = a + n
address a (negsuc n) = a - suc n

abbrev pub InSpace : ℕ → ℤ → Type 0
InSpace a (pos n) = a + n < two32
InSpace a (negsuc n) = n < a

pub exec-append :
    (limit : ℕ) (c rest : List Insn) (m : Machine)
    → exec limit (c ++ rest) m ≡ exec limit c m >>= (λ n. exec limit rest n)
unfolding exec
exec-append limit [] rest m = refl
exec-append limit (i ∷ c) rest m = elim (Option-cases (step i m)) [
  | inl e ↦ rw e refl
  | inr (n, e) ↦ elim (Bool-cases (ltb limit (slots n.stack))) [
    | inl f ↦ rw (e, f) refl
    | inr f ↦ rw (e, f) (exec-append limit c rest n)
  ]
]

pub run_piece :
    (limit : ℕ) (c rest : List Insn) (m n : Machine)
    → exec limit c m ≡ some n
    → exec limit (c ++ rest) m ≡ exec limit rest n
run_piece limit c rest m n e = rw (exec-append limit c rest m, e) refl

sum_wraps :
    (a : ℕ) (z : ℤ) → a < two32 → IsInt z → InSpace a z → (a + to_word z) % two32 ≡ address a z
sum_wraps a (pos n) h small k = ground arith
sum_wraps a (negsuc n) h small k = ground arith

-- Adding after the shift, for a constant that is a multiple of four.
sum_shifted :
    (a : ℕ) (z : ℤ)
    → a < two32
    → IsInt z
    → InSpace a z
    → by_four z ≡ true
    → (a / 4 + to_word (quarter z)) % two32 ≡ address a z / 4
sum_shifted a (pos n) h small k e = let whole : n % 4 ≡ 0 = ground arith in omega arith
sum_shifted a (negsuc n) h small k e = let whole : suc n % 4 ≡ 0 = ground arith in omega arith

quarter-IsInt : (z : ℤ) → IsInt z → IsInt (quarter z)
quarter-IsInt (pos n) h = omega arith
quarter-IsInt (negsuc n) h = omega arith

zero_address : (a : ℕ) (z : ℤ) → is_zero z ≡ true → address a z ≡ a
zero_address a (pos n) e = ground arith
zero_address a (negsuc n) e = cc

module _ (regalloc : RegisterAllocator) (regs : ℕ → ℕ) (limit : ℕ) (m : Machine)
    (h : Holds regalloc regs m.locals) where
  -- The two shifts of an address to the index of its word.
  run_quarter :
      (a : ℕ) (rest : List Insn) (s : List Value)
      → slots s + 2 ≤ limit
      → exec limit (bc_pushconst (pos 2) ++ (iushr ∷ rest)) (stacked m (int a ∷ s))
        ≡ exec limit rest (stacked m (int (a / 4) ∷ s))
  unfolding step
  run_quarter a rest s room =
      run_const regalloc regs limit m h (pos 2) (iushr ∷ rest) (int a ∷ s) (omega arith)
        (omega arith)
      ∙ run_one regalloc regs limit m h iushr rest (int 2 ∷ int a ∷ s) (int (a / 4) ∷ s) refl
          (omega arith)

  run_plus :
      (a v : ℕ) (z : ℤ) (rest : List Insn) (s : List Value)
      → IsInt z
      → (a + to_word z) % two32 ≡ v
      → slots s + 2 ≤ limit
      → exec limit (bc_pushconst z ++ (iadd ∷ rest)) (stacked m (int a ∷ s))
        ≡ exec limit rest (stacked m (int v ∷ s))
  unfolding step
  run_plus a v z rest s small e room =
      run_const regalloc regs limit m h z (iadd ∷ rest) (int a ∷ s) small (omega arith)
      ∙ run_one regalloc regs limit m h iadd rest (int (to_word z) ∷ int a ∷ s) (int v ∷ s)
          (rw e refl) (omega arith)

  pub run_index :
      (r : ℕ) (z : ℤ) (s : List Value)
      → r ≢ r_mem
      → IsInt z
      → InSpace (regs r) z
      → slots s + 2 ≤ limit
      → exec limit (bc_pushindex regalloc r z) (stacked m s)
        ≡ some (stacked m (int (address (regs r) z / 4) ∷ s))
  unfolding bc_pushindex exec
  run_index r z s no_mem small space room = elim (Bool-cases (is_zero z)) [
    | inl e ↦
        let code = bc_pushconst (pos 2) ++ (iushr ∷ []) in
        rw (e, zero_address (regs r) z e)
          (run_register regalloc regs limit m h r code s no_mem (omega arith)
            ∙ run_quarter (regs r) [] s room)
    | inr e ↦ elim (Bool-cases (by_four z)) [
      | inl f ↦
          let add = bc_pushconst (quarter z) ++ (iadd ∷ []) in
          rw (e, f)
            (run_register regalloc regs limit m h r (bc_pushconst (pos 2) ++ (iushr ∷ add)) s no_mem
                (omega arith)
              ∙ run_quarter (regs r) add s room
              ∙ run_plus (regs r / 4) (address (regs r) z / 4) (quarter z) [] s
                  (quarter-IsInt z small) (sum_shifted (regs r) z (h.word_size r) small space f)
                  room)
      | inr f ↦
          let shift = bc_pushconst (pos 2) ++ (iushr ∷ []) in
          rw (e, f)
            (run_register regalloc regs limit m h r (bc_pushconst z ++ (iadd ∷ shift)) s no_mem
                (omega arith)
              ∙ run_plus (regs r) (address (regs r) z) z shift s small
                  (sum_wraps (regs r) z (h.word_size r) small space) room
              ∙ run_quarter (address (regs r) z) [] s room)
    ]
  ]

  -- The address again, for the place of a part in its word.
  run_address :
      (r : ℕ) (z : ℤ) (rest : List Insn) (s : List Value)
      → r ≢ r_mem
      → IsInt z
      → InSpace (regs r) z
      → slots s + 2 ≤ limit
      → exec limit
          (bc_pushregister regalloc r
            ++ ((if is_zero z then [] else bc_pushconst z ++ (iadd ∷ [])) ++ rest))
          (stacked m s)
        ≡ exec limit rest (stacked m (int (address (regs r) z) ∷ s))
  run_address r z rest s no_mem small space room = elim (Bool-cases (is_zero z)) [
    | inl e ↦
        rw (e, zero_address (regs r) z e)
          (run_register regalloc regs limit m h r rest s no_mem (omega arith))
    | inr e ↦
        rw (e, append_assoc (bc_pushconst z) (iadd ∷ []) rest)
          (run_register regalloc regs limit m h r (bc_pushconst z ++ (iadd ∷ rest)) s no_mem
              (omega arith)
            ∙ run_plus (regs r) (address (regs r) z) z rest s small
                (sum_wraps (regs r) z (h.word_size r) small space) room)
  ]

  pub run_shift :
      (b r : ℕ) (z : ℤ) (s : List Value)
      → r ≢ r_mem
      → IsInt z
      → InSpace (regs r) z
      → b < 4
      → bit_and (address (regs r) z) b ≤ b
      → slots s + 3 ≤ limit
      → exec limit (push_shift regalloc b r z) (stacked m s)
        ≡ some (stacked m (int ((b - bit_and (address (regs r) z) b) * 8) ∷ s))
  unfolding push_shift step exec
  run_shift b r z s no_mem small space low below room =
      let a = address (regs r) z in
      let place = bit_and a b in
      let halve = bc_pushconst (pos 3) ++ (ishl ∷ []) in
      let mask = bc_pushconst (pos b) ++ (iand ∷ (isub ∷ halve)) in
      let word : b % two32 ≡ b = omega arith in
      let less : (b + two32 - place) % two32 ≡ b - place = omega arith in
      let shifted : (b - place) * 8 % two32 ≡ (b - place) * 8 = omega arith in
      let base = int b ∷ s in
      run_const regalloc regs limit m h (pos b)
        (bc_pushregister regalloc r
          ++ ((if is_zero z then [] else bc_pushconst z ++ (iadd ∷ [])) ++ mask))
        s (omega arith) (omega arith)
      ∙ ap
          (λ (k : ℕ).
            exec limit
              (bc_pushregister regalloc r
                ++ ((if is_zero z then [] else bc_pushconst z ++ (iadd ∷ [])) ++ mask))
              (stacked m (int k ∷ s)))
          word
      ∙ run_address r z mask base no_mem small space (omega arith)
      ∙ run_const regalloc regs limit m h (pos b) (iand ∷ (isub ∷ halve)) (int a ∷ base)
          (omega arith) (omega arith)
      ∙ run_one regalloc regs limit m h iand (isub ∷ halve) (int (b % two32) ∷ int a ∷ base)
          (int place ∷ base) (rw word refl) (omega arith)
      ∙ run_one regalloc regs limit m h isub halve (int place ∷ base) (int (b - place) ∷ s)
          (rw less refl) (omega arith)
      ∙ run_const regalloc regs limit m h (pos 3) (ishl ∷ []) (int (b - place) ∷ s) (omega arith)
          (omega arith)
      ∙ run_one regalloc regs limit m h ishl [] (int 3 ∷ int (b - place) ∷ s)
          (int ((b - place) * 8) ∷ s) (rw shifted refl) (omega arith)
