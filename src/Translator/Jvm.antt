-- ===== src/Translator/Jvm.antt =====
-- The instructions of the Java machine that tools/translator/emit.cc writes, as the specification
-- of that machine describes them.
--
-- An `int` and a `long` are their bit patterns; a `long` takes two places of the stack. `none` is a
-- program that the machine rejects, or an exception. A method states how many places its stack has.
-- The routines of the runtime are not run. The assembler takes an unsigned constant below 2^32 for
-- the `int` with these bits.
use cibyl.Base.{
  not, ℕ, ◌+◌, ◌-◌, ◌*◌, ◌/◌, ◌%◌, ◌^◌, Bool, Option, none, some, List, [], ◌∷◌, ltb, leb, ◌==◌,
  if◌then◌else◌, ◌>>=◌, bit_and, bit_or,
}
use Prim.Native.Nat.{bit_xor}
use cibyl.Base.Int.{ℤ, pos, negsuc}
use cibyl.Translator.Registers.{at}
use cibyl.Translator.Emit.{
  Insn, iconst_m1, iconst, bipush, sipush, ldc, ldc2_w, iload, istore, aload, astore, getstatic,
  putstatic, iinc, iadd, isub, imul, idiv, irem, ineg, iand, ior, ixor, ishl, ishr, iushr, i2l, l2i,
  lcmp, land, lmul, lushr, i2b, i2c, i2s, dup2, dup_x2, swap, iaload, iastore, comment,
}

-- `ref` is the array `CRunTime.memory`.
pub data Value : Type 0 where
  int long : ℕ → Value
  ref : Value

pub record Machine : Type 0 where
  pub locals : ℕ → Value
  pub statics : ℕ → ℕ
  pub memory : ℕ → ℕ
  pub size : ℕ
  pub stack : List Value

abbrev pub two32 : ℕ
two32 = 2 ^ 32

abbrev pub two64 : ℕ
two64 = 2 ^ 64

-- The bit pattern of an `int`.
abbrev pub to_word : ℤ → ℕ
to_word (pos n) = n % two32
to_word (negsuc n) = two32 - 1 - n % two32

abbrev pub in_range : ℕ → ℕ → ℤ → Bool
in_range below above (pos n) = ltb n above
in_range below above (negsuc n) = ltb n below

abbrev pub i2l_bits : ℕ → ℕ
i2l_bits a = if ltb a (2 ^ 31) then a else a + (two64 - two32)

-- The order of `long`s: -1, 0 or 1.
abbrev pub compare_long : ℕ → ℕ → ℕ
compare_long a b =
    let a' = (a + 2 ^ 63) % two64 in
    let b' = (b + 2 ^ 63) % two64 in if ltb a' b' then two32 - 1 else if a' == b' then 0 else 1

abbrev pub shift_right : ℕ → ℕ → ℕ
shift_right a k = if ltb a (2 ^ 31) then a / 2 ^ k else two32 - 1 - (two32 - 1 - a) / 2 ^ k

abbrev pub sign_extend : ℕ → ℕ → ℕ
sign_extend k a = let r = a % 2 ^ k in if ltb r (2 ^ (k - 1)) then r else r + (two32 - 2 ^ k)

abbrev pub is_negative : ℕ → Bool
is_negative a = not (ltb a (2 ^ 31))

abbrev pub magnitude : ℕ → ℕ
magnitude a = if is_negative a then two32 - a else a

abbrev pub same_sign : ℕ → ℕ → Bool
same_sign a b = if is_negative a then is_negative b else not (is_negative b)

-- Division rounds towards zero, and the remainder has the sign of the dividend.
abbrev pub signed_quotient : ℕ → ℕ → ℕ
signed_quotient a b =
    let q = magnitude a / magnitude b in if same_sign a b then q else (two32 - q) % two32

abbrev pub signed_remainder : ℕ → ℕ → ℕ
signed_remainder a b =
    let r = magnitude a % magnitude b in if is_negative a then (two32 - r) % two32 else r

abbrev pub binary : (ℕ → ℕ → ℕ) → List Value → Option (List Value)
binary f (int b ∷ int a ∷ s) = some (int (f a b) ∷ s)
binary f _ = none

abbrev pub unary : (ℕ → Value) → List Value → Option (List Value)
unary f (int a ∷ s) = some (f a ∷ s)
unary f _ = none

-- A division by zero is an exception.
abbrev pub divide : (ℕ → ℕ → ℕ) → List Value → Option (List Value)
divide f (int b ∷ int a ∷ s) = if b == 0 then none else some (int (f a b) ∷ s)
divide f _ = none

abbrev pub long_unary : (ℕ → Value) → List Value → Option (List Value)
long_unary f (long a ∷ s) = some (f a ∷ s)
long_unary f _ = none

abbrev pub long_binary : (ℕ → ℕ → Value) → List Value → Option (List Value)
long_binary f (long b ∷ long a ∷ s) = some (f a b ∷ s)
long_binary f _ = none

abbrev pub shift_long : List Value → Option (List Value)
shift_long (int k ∷ long a ∷ s) = some (long (a / 2 ^ (k % 64)) ∷ s)
shift_long _ = none

abbrev pub duplicate_two : List Value → Option (List Value)
duplicate_two (long a ∷ s) = some (long a ∷ long a ∷ s)
duplicate_two (v ∷ long w ∷ s) = none
duplicate_two (v ∷ w ∷ s) = some (v ∷ w ∷ v ∷ w ∷ s)
duplicate_two _ = none

abbrev pub duplicate_below_two : List Value → Option (List Value)
duplicate_below_two (int v ∷ int w ∷ int x ∷ s) = some (int v ∷ int w ∷ int x ∷ int v ∷ s)
duplicate_below_two _ = none

abbrev pub swap_two : List Value → Option (List Value)
swap_two (int v ∷ int w ∷ s) = some (int w ∷ int v ∷ s)
swap_two _ = none

abbrev pub as_int : Value → Option Value
as_int (int v) = some (int v)
as_int _ = none

abbrev pub as_ref : Value → Option Value
as_ref ref = some ref
as_ref _ = none

module _ (m : Machine) where
  abbrev pub push : Value → Machine
  push v = record m { stack = v ∷ m.stack }

  abbrev pub operate : Option (List Value) → Option Machine
  operate o = do s ← o; some (record m { stack = s })

  abbrev pub store_int : ℕ → List Value → Option Machine
  store_int l (int v ∷ s) = some (record m { locals = at m.locals l (int v); stack = s })
  store_int l _ = none

  abbrev pub store_ref : ℕ → List Value → Option Machine
  store_ref l (ref ∷ s) = some (record m { locals = at m.locals l ref; stack = s })
  store_ref l _ = none

  abbrev pub store_static : ℕ → List Value → Option Machine
  store_static name (int v ∷ s) = some (record m { statics = at m.statics name v; stack = s })
  store_static name _ = none

  abbrev pub increment_local : ℕ → ℤ → Value → Option Machine
  increment_local l z (int v) =
      some (record m { locals = at m.locals l (int ((v + to_word z) % two32)) })
  increment_local l z _ = none

  abbrev pub load_word : List Value → Option Machine
  load_word (int i ∷ ref ∷ s) =
      if ltb i m.size then some (record m { stack = int (m.memory i) ∷ s }) else none
  load_word _ = none

  abbrev pub store_word : List Value → Option Machine
  store_word (int v ∷ int i ∷ ref ∷ s) =
      if ltb i m.size then some (record m { memory = at m.memory i v; stack = s }) else none
  store_word _ = none

unfoldable pub step : Insn → Machine → Option Machine
step iconst_m1 m = some (push m (int (two32 - 1)))
step (iconst n) m = if leb n 5 then some (push m (int n)) else none
step (bipush z) m = if in_range 128 128 z then some (push m (int (to_word z))) else none
step (sipush z) m = if in_range 32768 32768 z then some (push m (int (to_word z))) else none
step (ldc z) m = if in_range (2 ^ 31) two32 z then some (push m (int (to_word z))) else none
step (ldc2_w n) m = if ltb n two64 then some (push m (long n)) else none
step (iload l) m = do v ← as_int (m.locals l); some (push m v)
step (istore l) m = store_int m l m.stack
step (aload l) m = do v ← as_ref (m.locals l); some (push m v)
step (astore l) m = store_ref m l m.stack
step (getstatic name) m = some (push m (int (m.statics name)))
step (putstatic name) m = store_static m name m.stack
step (iinc l z) m = if in_range 32768 32768 z then increment_local m l z (m.locals l) else none
step iadd m = operate m (binary (λ a b. (a + b) % two32) m.stack)
step isub m = operate m (binary (λ a b. (a + two32 - b) % two32) m.stack)
step imul m = operate m (binary (λ a b. a * b % two32) m.stack)
step idiv m = operate m (divide signed_quotient m.stack)
step irem m = operate m (divide signed_remainder m.stack)
step ineg m = operate m (unary (λ a. int ((two32 - a) % two32)) m.stack)
step iand m = operate m (binary bit_and m.stack)
step ior m = operate m (binary bit_or m.stack)
step ixor m = operate m (binary bit_xor m.stack)
step ishl m = operate m (binary (λ a k. a * 2 ^ (k % 32) % two32) m.stack)
step ishr m = operate m (binary (λ a k. shift_right a (k % 32)) m.stack)
step iushr m = operate m (binary (λ a k. a / 2 ^ (k % 32)) m.stack)
step i2l m = operate m (unary (λ a. long (i2l_bits a)) m.stack)
step l2i m = operate m (long_unary (λ a. int (a % two32)) m.stack)
step lcmp m = operate m (long_binary (λ a b. int (compare_long a b)) m.stack)
step land m = operate m (long_binary (λ a b. long (bit_and a b)) m.stack)
step lmul m = operate m (long_binary (λ a b. long (a * b % two64)) m.stack)
step lushr m = operate m (shift_long m.stack)
step i2b m = operate m (unary (λ a. int (sign_extend 8 a)) m.stack)
step i2c m = operate m (unary (λ a. int (a % 2 ^ 16)) m.stack)
step i2s m = operate m (unary (λ a. int (sign_extend 16 a)) m.stack)
step dup2 m = operate m (duplicate_two m.stack)
step dup_x2 m = operate m (duplicate_below_two m.stack)
step swap m = operate m (swap_two m.stack)
step iaload m = load_word m m.stack
step iastore m = store_word m m.stack
step comment m = some m
step _ m = none

abbrev pub slots : List Value → ℕ
slots [] = 0
slots (int v ∷ s) = 1 + slots s
slots (long v ∷ s) = 2 + slots s
slots (ref ∷ s) = 1 + slots s

-- A method whose stack has `limit` places.
unfoldable pub exec : ℕ → List Insn → Machine → Option Machine
unfolding step
exec limit [] m = some m
exec limit (i ∷ code) m =
    step i m >>= λ m. if ltb limit (slots m.stack) then none else exec limit code m
