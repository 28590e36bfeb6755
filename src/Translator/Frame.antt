-- ===== src/Translator/Frame.antt =====
-- The Java machine below the places that a piece of code uses: what lies on the stack under them
-- stays, and the code runs as if it were not there, in a stack that has as many places more.
use cibyl.Base.{
  ℕ, ◌+◌, ◌≤◌, ◌≡◌, ap, Bool, true, false, inl, inr, Option, none, some, List, [], ◌∷◌, ◌++◌, ◌>>=◌,
  >>=-eq-some, ltb, leb, ◌==◌, if◌then◌else◌, arith, Bool-cases, ltb→le, le→ltb,
}
use cibyl.Base.Int.{ℤ}
use cibyl.Translator.Emit.{
  Insn, iconst_m1, iconst, bipush, sipush, ldc, ldc2_w, iload, istore, aload, astore, getstatic,
  putstatic, iinc, iadd, isub, imul, idiv, irem, ineg, iand, ior, ixor, ishl, ishr, iushr, i2l, l2i,
  lcmp, land, lmul, lushr, i2b, i2c, i2s, dup2, dup_x2, swap, iaload, iastore, comment,
  iinc_nowhere, memory_read, memory_write, memory_write_pc, memory_read_jsr,
}
use cibyl.Translator.Jvm.{
  Value, int, long, ref, Machine, binary, unary, divide, long_unary, long_binary, shift_long,
  duplicate_two, duplicate_below_two, swap_two, operate, push, store_int, store_ref, store_static,
  increment_local, load_word, store_word, step, slots, exec,
}

-- A machine with more on its stack, below.
abbrev pub above : List Value → Machine → Machine
above e m = record m { stack = m.stack ++ e }

-- A function of the stack that does not look below its operands.
abbrev IsLocal : (List Value → Option (List Value)) → Type 0
IsLocal f = (s t e : List Value) → f s ≡ some t → f (s ++ e) ≡ some (t ++ e)

binary-IsLocal : (f : ℕ → ℕ → ℕ) → IsLocal (binary f)
binary-IsLocal f (int b ∷ int a ∷ s) t e h = ap (λ o. o >>= λ t. some (t ++ e)) h
binary-IsLocal f s t e h = cc

unary-IsLocal : (f : ℕ → Value) → IsLocal (unary f)
unary-IsLocal f (int a ∷ s) t e h = ap (λ o. o >>= λ t. some (t ++ e)) h
unary-IsLocal f s t e h = cc

divide-IsLocal : (f : ℕ → ℕ → ℕ) → IsLocal (divide f)
divide-IsLocal f (int b ∷ int a ∷ s) t e h = elim (Bool-cases (b == 0)) [
  | inl z ↦ let fails = rw z at h in cc
  | inr z ↦ let runs = rw z at h in rw z (ap (λ o. o >>= λ t. some (t ++ e)) runs)
]
divide-IsLocal f s t e h = cc

long_unary-IsLocal : (f : ℕ → Value) → IsLocal (long_unary f)
long_unary-IsLocal f (long a ∷ s) t e h = ap (λ o. o >>= λ t. some (t ++ e)) h
long_unary-IsLocal f s t e h = cc

long_binary-IsLocal : (f : ℕ → ℕ → Value) → IsLocal (long_binary f)
long_binary-IsLocal f (long b ∷ long a ∷ s) t e h = ap (λ o. o >>= λ t. some (t ++ e)) h
long_binary-IsLocal f s t e h = cc

shift_long-IsLocal : IsLocal shift_long
shift_long-IsLocal (int k ∷ long a ∷ s) t e h = ap (λ o. o >>= λ t. some (t ++ e)) h
shift_long-IsLocal s t e h = cc

duplicate_two-IsLocal : IsLocal duplicate_two
duplicate_two-IsLocal (long a ∷ s) t e h = ap (λ o. o >>= λ t. some (t ++ e)) h
duplicate_two-IsLocal (int v ∷ int w ∷ s) t e h = ap (λ o. o >>= λ t. some (t ++ e)) h
duplicate_two-IsLocal (int v ∷ ref ∷ s) t e h = ap (λ o. o >>= λ t. some (t ++ e)) h
duplicate_two-IsLocal (ref ∷ int w ∷ s) t e h = ap (λ o. o >>= λ t. some (t ++ e)) h
duplicate_two-IsLocal (ref ∷ ref ∷ s) t e h = ap (λ o. o >>= λ t. some (t ++ e)) h
duplicate_two-IsLocal s t e h = cc

duplicate_below_two-IsLocal : IsLocal duplicate_below_two
duplicate_below_two-IsLocal (int v ∷ int w ∷ int x ∷ s) t e h = ap (λ o. o >>= λ t. some (t ++ e)) h
duplicate_below_two-IsLocal s t e h = cc

swap_two-IsLocal : IsLocal swap_two
swap_two-IsLocal (int v ∷ int w ∷ s) t e h = ap (λ o. o >>= λ t. some (t ++ e)) h
swap_two-IsLocal s t e h = cc

-- A step that leaves what lies below alone.
abbrev IsAbove : (Machine → Option Machine) → Type 0
IsAbove f = (m out : Machine) (e : List Value) → f m ≡ some out → f (above e m) ≡ some (above e out)

operate-IsAbove :
    (f : List Value → Option (List Value)) → IsLocal f → IsAbove (λ m. operate m (f m.stack))
operate-IsAbove f local m out e h =
    let (t, runs, is) = >>=-eq-some (f m.stack) (λ s. some (record m { stack = s })) h in
    rw (local m.stack t e runs) (ap (λ o. o >>= λ m. some (above e m)) is)

store_int-IsAbove : (l : ℕ) → IsAbove (λ m. store_int m l m.stack)
store_int-IsAbove l m out e h = go m.stack h
  where
    go :
        (s : List Value)
        → store_int m l s ≡ some out
        → store_int (above e m) l (s ++ e) ≡ some (above e out)
    go (int v ∷ s) k = ap (λ o. o >>= λ m. some (above e m)) k
    go s k = cc

store_ref-IsAbove : (l : ℕ) → IsAbove (λ m. store_ref m l m.stack)
store_ref-IsAbove l m out e h = go m.stack h
  where
    go :
        (s : List Value)
        → store_ref m l s ≡ some out
        → store_ref (above e m) l (s ++ e) ≡ some (above e out)
    go (ref ∷ s) k = ap (λ o. o >>= λ m. some (above e m)) k
    go s k = cc

store_static-IsAbove : (name : ℕ) → IsAbove (λ m. store_static m name m.stack)
store_static-IsAbove name m out e h = go m.stack h
  where
    go :
        (s : List Value)
        → store_static m name s ≡ some out
        → store_static (above e m) name (s ++ e) ≡ some (above e out)
    go (int v ∷ s) k = ap (λ o. o >>= λ m. some (above e m)) k
    go s k = cc

increment_local-IsAbove : (l : ℕ) (z : ℤ) → IsAbove (λ m. increment_local m l z (m.locals l))
increment_local-IsAbove l z m out e h = go (m.locals l) h
  where
    go :
        (v : Value)
        → increment_local m l z v ≡ some out
        → increment_local (above e m) l z v ≡ some (above e out)
    go (int v) k = ap (λ o. o >>= λ m. some (above e m)) k
    go (long v) k = cc
    go ref k = cc

test-IsAbove :
    (b : Bool) (f : Machine → Option Machine) → IsAbove f → IsAbove (λ m. if b then f m else none)
test-IsAbove true f k m out e h = k m out e h
test-IsAbove false f k m out e h = cc

pushed-IsAbove : (v : Value) → IsAbove (λ m. some (push m v))
pushed-IsAbove v m out e k = ap (λ o. o >>= λ m. some (above e m)) k

read-IsAbove : (o : Option Value) → IsAbove (λ m. o >>= λ v. some (push m v))
read-IsAbove (some v) m out e k = ap (λ o. o >>= λ m. some (above e m)) k
read-IsAbove none m out e k = cc

load_word-IsAbove : IsAbove (λ m. load_word m m.stack)
load_word-IsAbove m out e h = go m.stack h
  where
    go :
        (s : List Value)
        → load_word m s ≡ some out
        → load_word (above e m) (s ++ e) ≡ some (above e out)
    go (int i ∷ ref ∷ s) k = elim (Bool-cases (ltb i m.size)) [
      | inl b ↦ let runs = rw b at k in rw b (ap (λ o. o >>= λ m. some (above e m)) runs)
      | inr b ↦ let fails = rw b at k in cc
    ]
    go s k = cc

store_word-IsAbove : IsAbove (λ m. store_word m m.stack)
store_word-IsAbove m out e h = go m.stack h
  where
    go :
        (s : List Value)
        → store_word m s ≡ some out
        → store_word (above e m) (s ++ e) ≡ some (above e out)
    go (int v ∷ int i ∷ ref ∷ s) k = elim (Bool-cases (ltb i m.size)) [
      | inl b ↦ let runs = rw b at k in rw b (ap (λ o. o >>= λ m. some (above e m)) runs)
      | inr b ↦ let fails = rw b at k in cc
    ]
    go s k = cc

-- Every instruction leaves what lies below its operands alone.
step-IsAbove : (i : Insn) → IsAbove (step i)
unfolding step
step-IsAbove iconst_m1 m out e h = pushed-IsAbove _ m out e h
step-IsAbove (iconst n) m out e h = test-IsAbove (leb n 5) _ (pushed-IsAbove _) m out e h
step-IsAbove (bipush z) m out e h = test-IsAbove _ _ (pushed-IsAbove _) m out e h
step-IsAbove (sipush z) m out e h = test-IsAbove _ _ (pushed-IsAbove _) m out e h
step-IsAbove (ldc z) m out e h = test-IsAbove _ _ (pushed-IsAbove _) m out e h
step-IsAbove (ldc2_w n) m out e h = test-IsAbove _ _ (pushed-IsAbove _) m out e h
step-IsAbove (iload l) m out e h = read-IsAbove _ m out e h
step-IsAbove (istore l) m out e h = store_int-IsAbove l m out e h
step-IsAbove (aload l) m out e h = read-IsAbove _ m out e h
step-IsAbove (astore l) m out e h = store_ref-IsAbove l m out e h
step-IsAbove (getstatic name) m out e k = ap (λ o. o >>= λ m. some (above e m)) k
step-IsAbove (putstatic name) m out e h = store_static-IsAbove name m out e h
step-IsAbove (iinc l z) m out e h = test-IsAbove _ _ (increment_local-IsAbove l z) m out e h
step-IsAbove iadd m out e h = operate-IsAbove _ (binary-IsLocal _) m out e h
step-IsAbove isub m out e h = operate-IsAbove _ (binary-IsLocal _) m out e h
step-IsAbove imul m out e h = operate-IsAbove _ (binary-IsLocal _) m out e h
step-IsAbove idiv m out e h = operate-IsAbove _ (divide-IsLocal _) m out e h
step-IsAbove irem m out e h = operate-IsAbove _ (divide-IsLocal _) m out e h
step-IsAbove ineg m out e h = operate-IsAbove _ (unary-IsLocal _) m out e h
step-IsAbove iand m out e h = operate-IsAbove _ (binary-IsLocal _) m out e h
step-IsAbove ior m out e h = operate-IsAbove _ (binary-IsLocal _) m out e h
step-IsAbove ixor m out e h = operate-IsAbove _ (binary-IsLocal _) m out e h
step-IsAbove ishl m out e h = operate-IsAbove _ (binary-IsLocal _) m out e h
step-IsAbove ishr m out e h = operate-IsAbove _ (binary-IsLocal _) m out e h
step-IsAbove iushr m out e h = operate-IsAbove _ (binary-IsLocal _) m out e h
step-IsAbove i2l m out e h = operate-IsAbove _ (unary-IsLocal _) m out e h
step-IsAbove l2i m out e h = operate-IsAbove _ (long_unary-IsLocal _) m out e h
step-IsAbove lcmp m out e h = operate-IsAbove _ (long_binary-IsLocal _) m out e h
step-IsAbove land m out e h = operate-IsAbove _ (long_binary-IsLocal _) m out e h
step-IsAbove lmul m out e h = operate-IsAbove _ (long_binary-IsLocal _) m out e h
step-IsAbove lushr m out e h = operate-IsAbove _ shift_long-IsLocal m out e h
step-IsAbove i2b m out e h = operate-IsAbove _ (unary-IsLocal _) m out e h
step-IsAbove i2c m out e h = operate-IsAbove _ (unary-IsLocal _) m out e h
step-IsAbove i2s m out e h = operate-IsAbove _ (unary-IsLocal _) m out e h
step-IsAbove dup2 m out e h = operate-IsAbove _ duplicate_two-IsLocal m out e h
step-IsAbove dup_x2 m out e h = operate-IsAbove _ duplicate_below_two-IsLocal m out e h
step-IsAbove swap m out e h = operate-IsAbove _ swap_two-IsLocal m out e h
step-IsAbove iaload m out e h = load_word-IsAbove m out e h
step-IsAbove iastore m out e h = store_word-IsAbove m out e h
step-IsAbove comment m out e k = ap (λ o. o >>= λ m. some (above e m)) k
step-IsAbove (memory_read r) m out e h = cc
step-IsAbove (memory_write r) m out e h = cc
step-IsAbove (memory_write_pc r) m out e h = cc
step-IsAbove (memory_read_jsr r) m out e h = cc
step-IsAbove (iinc_nowhere extra) m out e h = cc

slots-append : (s e : List Value) → slots (s ++ e) ≡ slots s + slots e
slots-append [] e = omega arith
slots-append (int v ∷ s) e = omega (arith, slots-append s e)
slots-append (long v ∷ s) e = omega (arith, slots-append s e)
slots-append (ref ∷ s) e = omega (arith, slots-append s e)

-- Code that runs in some places of the stack runs above other values in as many more.
pub exec-above :
    (limit : ℕ) (code : List Insn) (m out : Machine) (e : List Value) (more : ℕ)
    → limit + slots e ≤ more
    → exec limit code m ≡ some out
    → exec more code (above e m) ≡ some (above e out)
unfolding exec
exec-above limit [] m out e more room h = ap (λ o. o >>= λ m. some (above e m)) h
exec-above limit (i ∷ code) m out e more room h =
    let (n, one, rest) =
      >>=-eq-some (step i m) (λ m. if ltb limit (slots m.stack) then none else exec limit code m)
        h in
    elim (Bool-cases (ltb limit (slots n.stack))) [
      | inl b ↦ let fails = rw b at rest in cc
      | inr b ↦
          let runs = rw b at rest in
          let fits : ltb more (slots (n.stack ++ e)) ≡ false =
            le→ltb more _ (omega (arith, slots-append n.stack e, ltb→le limit (slots n.stack) b)) in
          rw (step-IsAbove i m n e one, fits) (exec-above limit code n out e more room runs)
    ]
