-- ===== src/Strings/Fill.antt =====
-- `memset` of libs/src/libc/string.c: its three loops together set every byte.
use cibyl.Base.{
  ℕ, zero, suc, ◌+◌, ◌-◌, ◌/◌, ◌%◌, ◌^◌, ◌≤◌, ◌<◌, ◌≡◌, refl, inl, inr, Bool, true, ◌&&◌, ltb, ◌==◌,
  if◌then◌else◌, Bool-cases, arith, bit_and,
}
use cibyl.Base.Bits.{passes_below, passes_below_sound}
use cibyl.Memory.{Memory, store, store_word, in_range}
use cibyl.Strings.{fill_bytes, fill_head, fill_words, splat, memset}

-- `n` bytes from `p` on hold `c`, and the others what `m` holds.
abbrev pub Filled : ℕ → Memory → ℕ → ℕ → Memory → Type 0
Filled c m p n out = (a : ℕ) → out a ≡ (if in_range p n a then c else m a)

fill_bytes-Filled : (c : ℕ) (m : Memory) (p n : ℕ) → Filled (c % 256) m p n (fill_bytes c m p n)
unfolding fill_bytes
fill_bytes-Filled c m p zero a = ground arith
fill_bytes-Filled c m p (suc n) a =
    ground (arith, fill_bytes-Filled c (store m p (c % 256)) (p + 1) n a)

-- A loop that stops early has filled a part, and says where it stands.
record Part (c : ℕ) (m : Memory) (p n : ℕ) (out : Memory × ℕ × ℕ) : Type 0 where
  at : out.1 + out.2 ≡ p + n
  le : p ≤ out.1
  filled : Filled c m p (out.1 - p) out.0

fill_head-Part : (c : ℕ) (m : Memory) (p n : ℕ) → Part (c % 256) m p n (fill_head c m p n)
unfolding fill_head
fill_head-Part c m p zero = record { at = refl; le = omega arith; filled = λ a. ground arith }
fill_head-Part c m p (suc n) = elim (Bool-cases (bit_and p 3 == 0)) [
  | inl here ↦ rw here (record { at = refl; le = omega arith; filled = λ a. ground arith })
  | inr on ↦
      let ih = fill_head-Part c (store m p (c % 256)) (p + 1) n in
      rw on (record {
        at = omega (arith, ih.at);
        le = omega (arith, ih.le);
        filled = λ a. ground (arith, ih.filled a, ih.le);
      })
]

-- The four bytes of `i_c` are the byte.
splat_test : ℕ → Bool
unfolding splat
splat_test c =
    (splat c / 2 ^ 24 % 256 == c)
    && ((splat c / 2 ^ 16 % 256 == c) && ((splat c / 2 ^ 8 % 256 == c) && (splat c % 256 == c)))

splat_table : passes_below splat_test 256 ≡ true
unfolding splat_test passes_below
splat_table = refl

splat_bytes :
    (c : ℕ)
    → c < 256
    → (splat c / 2 ^ 24 % 256 ≡ c)
      × (splat c / 2 ^ 16 % 256 ≡ c)
      × (splat c / 2 ^ 8 % 256 ≡ c)
      × (splat c % 256 ≡ c)
splat_bytes c h =
    let t = passes_below_sound splat_test 256 splat_table c h in unfold splat_test in ground arith

module _ (c w : ℕ) (b3 : w / 2 ^ 24 % 256 ≡ c) (b2 : w / 2 ^ 16 % 256 ≡ c)
    (b1 : w / 2 ^ 8 % 256 ≡ c) (b0 : w % 256 ≡ c) where
  store_word-Filled : (m : Memory) (p : ℕ) → Filled c m p 4 (store_word m p w)
  store_word-Filled m p a = rw (b3, b2, b1, b0) (ground arith)

  fill_words-Part : (m : Memory) (p n : ℕ) → Part c m p n (fill_words w m p n)
  unfolding fill_words
  fill_words-Part m p (suc (suc (suc (suc (suc n))))) =
      let ih = fill_words-Part (store_word m p w) (p + 4) (suc n) in
      record {
        at = omega (arith, ih.at);
        le = omega (arith, ih.le);
        filled = λ a. ground (arith, ih.filled a, ih.le, store_word-Filled m p a);
      }
  fill_words-Part m p _ = record { at = refl; le = omega arith; filled = λ a. ground arith }

-- The three loops one after another.
three_loops :
    (m : Memory) (s c n : ℕ)
    → c < 256
    → let (m1, p1, n1) = fill_head c m s n in
      let (m2, p2, n2) = fill_words (splat c) m1 p1 n1 in Filled c m s n (fill_bytes c m2 p2 n2)
three_loops m s c n h a =
    let byte : c % 256 ≡ c = omega arith in
    let (b3, b2, b1, b0) = splat_bytes c h in
    let head = fill_head-Part c m s n in
    let r = fill_head c m s n in
    let middle = fill_words-Part c (splat c) b3 b2 b1 b0 r.0 r.1 r.2 in
    let t = fill_words (splat c) r.0 r.1 r.2 in
    ground (
      arith,
      byte,
      head.at,
      head.le,
      head.filled a,
      middle.at,
      middle.le,
      middle.filled a,
      fill_bytes-Filled c t.0 t.1 t.2 a,
    )

-- `memset` with a byte sets the `n` bytes from `s` on to it, whatever the alignment of `s`, and
-- changes no other byte.
pub memset_lem :
    (m : Memory) (s c n : ℕ)
    → c < 256
    → (a : ℕ) → memset m s c n a ≡ (if in_range s n a then c else m a)
unfolding memset
memset_lem m s c n h a = elim (Bool-cases (ltb 4 n)) [
  | inr few ↦
      rw few
        (let byte : c % 256 ≡ c = omega arith in ground (arith, byte, fill_bytes-Filled c m s n a))
  | inl many ↦ rw many (three_loops m s c n h a)
]
