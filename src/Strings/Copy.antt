-- ===== src/Strings/Copy.antt =====
-- `memcpy` and `memmove` of libs/src/libc/string.c.
use cibyl.Base.{
  ℕ, zero, suc, ◌+◌, ◌-◌, ◌%◌, ◌≤◌, ◌<◌, ◌≡◌, refl, sym, ◌∙◌, ◌⊎◌, inl, inr, true, false, leb, ◌==◌,
  Bool-cases, ==→eq, arith, bit_and, bit_or, some,
}
use mathlib.Core.Path.{fun_ext}
use cibyl.Base.Bits.{bit_and_three, bit_or-mod_four}
use cibyl.Memory.{Memory, store, in_range}
use cibyl.Strings.{copy_bytes, copy_word, copy_words, copy_back, memcpy, memmove}

-- The `n` bytes from `d` on hold what the `n` bytes from `s` on held in `m`, in that order, and
-- every other byte is as in `m`.
pub record Copied (m : Memory) (d s n : ℕ) (out : Memory) : Type 0 where
  pub inside : (i : ℕ) → i < n → out (d + i) ≡ m (s + i)
  pub outside : (a : ℕ) → in_range d n a ≡ false → out a ≡ m a

-- Where copying upwards reads no byte that it has written.
abbrev pub Upwards : ℕ → ℕ → ℕ → Type 0
Upwards d s n = (d ≤ s) ⊎ (s + n ≤ d)

nothing_Copied : (m : Memory) (d s : ℕ) → Copied m d s 0 m
nothing_Copied m d s = record { inside = λ i h. absurd (omega arith); outside = λ a h. refl }

Copied-step :
    (m out : Memory) (d s n : ℕ)
    → Upwards d s (suc n)
    → Copied (store m d (m s)) (d + 1) (s + 1) n out
    → Copied m d s (suc n) out
Copied-step m out d s n u c = record { inside = at; outside = λ a h. ground (arith, c.outside a) }
  where
    at : (i : ℕ) → i < suc n → out (d + i) ≡ m (s + i)
    at zero h =
        let e : d + 0 ≡ d = omega arith in
        let f : s + 0 ≡ s = omega arith in rw (e, f) (ground (arith, c.outside d))
    at (suc i) h =
        let e : d + suc i ≡ d + 1 + i = omega arith in
        let f : s + suc i ≡ s + 1 + i = omega arith in rw (e, f) (ground (arith, c.inside i))

pub copy_bytes-Copied :
    (m : Memory) (d s n : ℕ) → Upwards d s n → Copied m d s n (copy_bytes m d s n)
unfolding copy_bytes
copy_bytes-Copied m d s zero u = nothing_Copied m d s
copy_bytes-Copied m d s (suc n) u =
    Copied-step m (copy_bytes m d s (suc n)) d s n u
      (copy_bytes-Copied (store m d (m s)) (d + 1) (s + 1) n (omega arith))

-- Four rounds of the byte loop do what one round of the word loop does, unless the two words
-- overlap in part.
four_bytes :
    (m : Memory) (d s n : ℕ)
    → Upwards d s 4
    → copy_bytes m d s (suc (suc (suc (suc n)))) ≡ copy_bytes (copy_word m d s) (d + 4) (s + 4) n
unfolding copy_bytes
four_bytes m d s n u =
    ap₃ (λ k x y. copy_bytes k x y n) (fun_ext λ a. ground arith) (omega arith) (omega arith)
  where
    ap₃ :
        (f : Memory → ℕ → ℕ → Memory) {k l : Memory} {x y v w : ℕ}
        → k ≡ l
        → x ≡ y
        → v ≡ w
        → f k x v ≡ f l y w
    ap₃ f p q r = λ i. f (p i) (q i) (r i)

copy_words-copy_bytes :
    (m : Memory) (d s n : ℕ)
    → d % 4 ≡ 0
    → s % 4 ≡ 0
    → n % 4 ≡ 0
    → copy_words m d s n ≡ some (copy_bytes m d s n)
unfolding copy_words
copy_words-copy_bytes m d s zero dw sw w = unfold copy_bytes in refl
copy_words-copy_bytes m d s (suc zero) dw sw w = absurd (omega arith)
copy_words-copy_bytes m d s (suc (suc zero)) dw sw w = absurd (omega arith)
copy_words-copy_bytes m d s (suc (suc (suc zero))) dw sw w = absurd (omega arith)
copy_words-copy_bytes m d s (suc (suc (suc (suc n)))) dw sw w =
    rw (four_bytes m d s n (omega arith)) (
      copy_words-copy_bytes (copy_word m d s) (d + 4) (s + 4) n (omega arith) (omega arith)
        (omega arith))

-- `memcpy` ends and leaves the memory that its byte loop would leave, also where it copies by words
-- and whether or not the regions overlap.
pub memcpy-copy_bytes : (m : Memory) (d s n : ℕ) → memcpy m d s n ≡ some (copy_bytes m d s n)
unfolding memcpy
memcpy-copy_bytes m d s n = elim (Bool-cases (bit_and (bit_or (bit_or s d) n) 3 == 0)) [
  | inr bytes ↦ rw bytes
  | inl words ↦
      let (sd, nw) = bit_or-mod_four (bit_or s d) n (whole words) in
      let (sw, dw) = bit_or-mod_four s d sd in rw (words, copy_words-copy_bytes m d s n dw sw nw)
]
  where
    whole : (bit_and (bit_or (bit_or s d) n) 3 == 0) ≡ true → bit_or (bit_or s d) n % 4 ≡ 0
    whole e = sym (bit_and_three (bit_or (bit_or s d) n)) ∙ ==→eq _ _ e

-- `memcpy` copies the `n` bytes where the regions do not overlap, or the destination does not lie
-- above the source, and changes no other byte.
pub memcpy_lem :
    (m : Memory) (d s n : ℕ)
    → Upwards d s n
    → (out : Memory) × (memcpy m d s n ≡ some out) × Copied m d s n out
memcpy_lem m d s n u = (copy_bytes m d s n, memcpy-copy_bytes m d s n, copy_bytes-Copied m d s n u)

pub copy_bytes-outside :
    (m : Memory) (d s n a : ℕ) → in_range d n a ≡ false → copy_bytes m d s n a ≡ m a
unfolding copy_bytes
copy_bytes-outside m d s zero a o = refl
copy_bytes-outside m d s (suc n) a o =
    ground (arith, copy_bytes-outside (store m d (m s)) (d + 1) (s + 1) n a)

-- Whatever comes behind them, the first `j` bytes are copied right if they lie below the
-- destination.
pub copy_bytes-front :
    (m : Memory) (d s n j : ℕ)
    → j ≤ n
    → s + j ≤ d
    → (i : ℕ) → i < j
    → copy_bytes m d s n (d + i) ≡ m (s + i)
unfolding copy_bytes
copy_bytes-front m d s zero j le below i lt = absurd (omega arith)
copy_bytes-front m d s (suc n) j le below zero lt =
    let e : d + 0 ≡ d = omega arith in
    let f : s + 0 ≡ s = omega arith in
    rw (e, f) (ground (arith, copy_bytes-outside (store m d (m s)) (d + 1) (s + 1) n d))
copy_bytes-front m d s (suc n) j le below (suc i) lt =
    let e : d + suc i ≡ d + 1 + i = omega arith in
    let f : s + suc i ≡ s + 1 + i = omega arith in
    rw (e, f)
      (ground (
        arith,
        copy_bytes-front (store m d (m s)) (d + 1) (s + 1) n (j - 1) (omega arith) (omega arith) i,
      ))

copy_back-Copied : (m : Memory) (d s n : ℕ) → s ≤ d → Copied m d s n (copy_back m d s n)
unfolding copy_back
copy_back-Copied m d s zero le = nothing_Copied m d s
copy_back-Copied m d s (suc n) le =
    let ih = copy_back-Copied (store m (d + n) (m (s + n))) d s n le in
    record {
      inside = λ i h. elim (Bool-cases (i == n)) [
        | inl last ↦ let e = ==→eq i n last in rw e (ground (arith, ih.outside (d + n)))
        | inr before ↦ ground (arith, ih.inside i)
      ];
      outside = λ a h. ground (arith, ih.outside a);
    }

-- `memmove` copies the `n` bytes however the regions overlap.
pub memmove_lem : (m : Memory) (d s n : ℕ) → Copied m d s n (memmove m d s n)
unfolding memmove
memmove_lem m d s n = elim (Bool-cases (leb d s)) [
  | inl up ↦ rw up (copy_bytes-Copied m d s n (inl (ground arith)))
  | inr down ↦ rw down (copy_back-Copied m d s n (ground arith))
]
