-- ===== src/Translator/Writes.antt =====
-- Code of tools/translator/emit.cc that ends with a write to a register.
use cibyl.Base.{
  ℕ, ◌<◌, ◌≡◌, ◌≢◌, refl, sym, ap, ◌∙◌, false, inl, inr, none, some, List, [], ◌∷◌, ltb, ◌==◌,
  arith, Bool-cases, eq→==, ne→==,
}
use cibyl.Translator.Mips.{r_zero, r_mem}
use cibyl.Translator.Registers.{RegisterAllocator, at}
use cibyl.Translator.Emit.{Insn, bc_popregister}
use cibyl.Translator.Jvm.{Value, int, Machine, two32, step, exec}
use cibyl.Translator.Run.{Holds}

pub at_here {ℓ} : {A : Type ℓ} (f : ℕ → A) (i j : ℕ) (v : A) → j ≡ i → at f i v j ≡ v
at_here f i j v e = rw (eq→== j i e) refl

pub at_apart {ℓ} : {A : Type ℓ} (f : ℕ → A) (i j : ℕ) (v : A) → j ≢ i → at f i v j ≡ f j
at_apart f i j v n = rw (ne→== j i n) refl

module _ (regalloc : RegisterAllocator) (regs : ℕ → ℕ) (locals : ℕ → Value)
    (h : Holds regalloc regs locals) where
  -- The register file after a write, and the variables that hold it.
  pub Holds-at :
      (r l v : ℕ)
      → r ≢ r_zero
      → r ≢ r_mem
      → regalloc.mips_to_local r ≡ some l
      → v < two32
      → Holds regalloc (at regs r v) (at locals l (int v))
  Holds-at r l v no_zero no_mem e small = record {
    no_static = h.no_static;
    distinct = h.distinct;
    zero_is = at_apart regs r r_zero v (λ z. no_zero (sym z)) ∙ h.zero_is;
    unused = λ s free. at_apart regs r s v (λ z. clash s z free) ∙ h.unused s free;
    in_local = λ s k other k_is. kept s k other k_is;
    memory_in = λ k k_is.
        at_apart locals l k (int v) (λ z. no_mem (h.distinct r r_mem l e (k_is ∙ ap some z)))
        ∙ h.memory_in k k_is;
    word_size = λ s. bounded s;
  }
    where
      clash : (s : ℕ) → s ≡ r → regalloc.mips_to_local s ≢ none
      clash s z free = none_some (sym free ∙ ap regalloc.mips_to_local z ∙ e)
        where
          none_some : none ≢ some l
          none_some c = cc

      kept :
          (s k : ℕ)
          → s ≢ r_mem
          → regalloc.mips_to_local s ≡ some k
          → at locals l (int v) k ≡ int (at regs r v s)
      kept s k other k_is = elim (Bool-cases (s == r)) [
        | inl same ↦
            let eq : s ≡ r = ground arith in
            at_here locals l k (int v) (unwrap (sym k_is ∙ ap regalloc.mips_to_local eq ∙ e))
            ∙ ap int (sym (at_here regs r s v eq))
        | inr apart ↦
            let ne : s ≢ r = ground arith in
            at_apart locals l k (int v) (λ z. ne (h.distinct s r l (k_is ∙ ap some z) e))
            ∙ h.in_local s k other k_is
            ∙ ap int (sym (at_apart regs r s v ne))
      ]
        where
          unwrap : some k ≡ some l → k ≡ l
          unwrap c = cc

      bounded : (s : ℕ) → at regs r v s < two32
      bounded s = elim (Bool-cases (s == r)) [
        | inl same ↦ rw same small
        | inr apart ↦ rw apart (h.word_size s)
      ]

-- Code that runs from an empty stack to an empty one, within `limit` places, and leaves these
-- registers and this memory.
pub record Runs (limit : ℕ) (regalloc : RegisterAllocator) (code : List Insn) (m : Machine)
    (regs memory : ℕ → ℕ) : Type 0 where
  pub out : Machine
  pub runs : exec limit code m ≡ some out
  pub registers : Holds regalloc regs out.locals
  pub in_memory : out.memory ≡ memory
  pub same_size : out.size ≡ m.size
  pub emptied : out.stack ≡ []

module _ (regalloc : RegisterAllocator) (regs : ℕ → ℕ) (limit : ℕ) where
  -- A value on the stack is popped into a register.
  pub Runs-popregister :
      (r l v : ℕ) (m : Machine)
      → Holds regalloc regs m.locals
      → r ≢ r_zero
      → r ≢ r_mem
      → regalloc.mips_to_local r ≡ some l
      → v < two32
      → m.stack ≡ int v ∷ []
      → Runs limit regalloc (bc_popregister regalloc r) m (at regs r v) m.memory
  unfolding bc_popregister step exec
  Runs-popregister r l v m h no_zero no_mem e small top = record {
    out = record m { locals = at m.locals l (int v); stack = [] };
    runs =
        let other : (r == r_mem) ≡ false = ne→== r r_mem no_mem in
        let room : ltb limit 0 ≡ false = ground arith in
        rw (h.no_static r, e, other, top, room) refl;
    registers = Holds-at regalloc regs m.locals h r l v no_zero no_mem e small;
    in_memory = refl;
    same_size = refl;
    emptied = refl;
  }

-- Code in front that leads to another machine with this memory's size.
pub Runs-after :
    {limit : ℕ} {regalloc : RegisterAllocator} {code rest : List Insn} {m n : Machine}
    {regs memory : ℕ → ℕ}
    → exec limit code m ≡ exec limit rest n
    → n.size ≡ m.size
    → Runs limit regalloc rest n regs memory
    → Runs limit regalloc code m regs memory
Runs-after e size r = record {
  out = r.out;
  runs = e ∙ r.runs;
  registers = r.registers;
  in_memory = r.in_memory;
  same_size = r.same_size ∙ size;
  emptied = r.emptied;
}
