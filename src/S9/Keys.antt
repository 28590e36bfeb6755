-- ===== src/S9/Keys.antt =====
-- The keys of libs/src/libs9/s9.c: three bits for each character.
use cibyl.Base.{
  ℕ, suc, ◌+◌, ◌-◌, ◌*◌, ◌^◌, ◌≤◌, ◌<◌, ◌≡◌, refl, ap, sym, subst, ◌∙◌, inl, inr, some, List, [],
  ◌∷◌, length, All, arith, Bool-cases, Option-cases, ltb, bit_or, map, false, ◌||◌,
}
use native.Mathlib.Nat.{pow-suc}
use cibyl.Base.Bits.{bit_or_above}
use cibyl.S9.{get_key_by_char, key_loop, max_len, get_key, sequence_loop, get_key_by_sequence}

-- The number that a list of octal digits stands for, lowest first.
abbrev pub value : List ℕ → ℕ
value [] = 0
value (e ∷ es) = e + 8 * value es

pub get_key_by_char_range : (ch c : ℕ) → get_key_by_char ch ≡ some c → (2 ≤ c) × (c ≤ 9)
unfolding get_key_by_char
get_key_by_char_range ch c h = ground arith

pow-next : (i : ℕ) → 2 ^ ((i + 1) * 3) ≡ 8 * 2 ^ (i * 3)
pow-next i =
    ap (λ (t : ℕ). 2 ^ t) shift
    ∙ omega (arith, pow-suc 2 (suc (suc (i * 3))), pow-suc 2 (suc (i * 3)), pow-suc 2 (i * 3))
  where
    shift : (i + 1) * 3 ≡ suc (suc (suc (i * 3)))
    shift = omega arith

-- One round puts a digit above those that are there.
round_value :
    (i out e v : ℕ)
    → e < 8
    → out < 2 ^ (i * 3)
    → (bit_or out (e * 2 ^ (i * 3)) < 2 ^ ((i + 1) * 3))
      × (bit_or out (e * 2 ^ (i * 3)) + v * 2 ^ ((i + 1) * 3) ≡ out + (e + 8 * v) * 2 ^ (i * 3))
round_value i out e v h lt = (
  rw (bit_or_above (i * 3) out e lt, pow-next i) (grind arith),
  rw (bit_or_above (i * 3) out e lt, pow-next i) (grind arith),
)

-- The digits of the keys on which the characters of the word stand.
abbrev pub Types : List ℕ → List ℕ → Type 0
Types [] [] = Unit
Types [] (e ∷ es) = ⊥
Types (ch ∷ word) [] = ⊥
Types (ch ∷ word) (e ∷ es) = (get_key_by_char ch ≡ some (e + 2)) × Types word es

-- The keys that are pressed for the digits, as the characters 2 to 9.
abbrev pub pressed : List ℕ → List ℕ
pressed = map (λ e. e + b'2')

abbrev pub Octal : List ℕ → Type 0
Octal = All (λ e. e < 8)

pub Types-Octal : (word es : List ℕ) → Types word es → Octal es
Types-Octal [] [] t = tt
Types-Octal [] (e ∷ es) t = absurd t
Types-Octal (ch ∷ word) [] t = absurd t
Types-Octal (ch ∷ word) (e ∷ es) (k, t) =
    (omega (arith, (get_key_by_char_range ch (e + 2) k).1), Types-Octal word es t)

pub Types-length : (word es : List ℕ) → Types word es → length es ≡ length word
Types-length [] [] t = refl
Types-length [] (e ∷ es) t = absurd t
Types-length (ch ∷ word) [] t = absurd t
Types-length (ch ∷ word) (e ∷ es) (k, t) = ap suc (Types-length word es t)

key_loop-value :
    (word es : List ℕ) (i out : ℕ)
    → Types word es
    → out < 2 ^ (i * 3)
    → key_loop word i out ≡ some (out + value es * 2 ^ (i * 3))
unfolding key_loop
key_loop-value [] [] i out t lt = ground arith
key_loop-value [] (e ∷ es) i out t lt = absurd t
key_loop-value (ch ∷ word) [] i out t lt = absurd t
key_loop-value (ch ∷ word) (e ∷ es) i out (k, t) lt =
    let small : e < 8 = omega (arith, (get_key_by_char_range ch (e + 2) k).1) in
    let r = round_value i out e (value es) small lt in
    let back : e + 2 - 2 ≡ e = omega arith in
    rw (k, back) (key_loop-value word es (i + 1) (bit_or out (e * 2 ^ (i * 3))) t r.0 ∙ ap some r.1)

sequence_loop-value :
    (es : List ℕ) (i out : ℕ)
    → Octal es
    → out < 2 ^ (i * 3)
    → sequence_loop (pressed es) i out ≡ some (out + value es * 2 ^ (i * 3))
unfolding sequence_loop
sequence_loop-value [] i out o lt = ground arith
sequence_loop-value (e ∷ es) i out o lt =
    let r = round_value i out e (value es) o.0 lt in
    let back : e + b'2' - b'2' ≡ e = omega arith in
    let key : (ltb (e + b'2') b'2' || ltb b'9' (e + b'2')) ≡ false = ground arith in
    rw (key, back)
      (sequence_loop-value es (i + 1) (bit_or out (e * 2 ^ (i * 3))) o.1 r.0 ∙ ap some r.1)

pub length-pressed : (es : List ℕ) → length (pressed es) ≡ length es
length-pressed [] = refl
length-pressed (e ∷ es) = ap suc (length-pressed es)

pub sequence_value :
    (es : List ℕ)
    → Octal es
    → length es ≤ max_len
    → get_key_by_sequence (pressed es) ≡ some (value es)
unfolding get_key_by_sequence
sequence_value es o h =
    let fit : ltb max_len (length (pressed es)) ≡ false = ground (arith, length-pressed es) in
    rw fit (sequence_loop-value es 0 0 o (omega arith) ∙ ap some (omega arith))

-- A word of at most 21 characters and the sequence of keys on which its characters stand have the
-- same key value: the number that the keys make as octal digits.
pub get_key-sequence :
    (word es : List ℕ)
    → Types word es
    → length word ≤ max_len
    → (get_key word ≡ some (value es)) × (get_key_by_sequence (pressed es) ≡ some (value es))
unfolding get_key
get_key-sequence word es t h =
    let fit : ltb max_len (length word) ≡ false = ground arith in
    (
      rw fit (key_loop-value word es 0 0 t (omega arith) ∙ ap some (omega arith)),
      sequence_value es (Types-Octal word es t) (omega (arith, Types-length word es t, h)),
    )

-- The digits of a word that has a key.
key_loop-Types :
    (word : List ℕ) (i out : ℕ) {k : ℕ}
    → key_loop word i out ≡ some k
    → (es : List ℕ) × Types word es
unfolding key_loop
key_loop-Types [] i out h = ([], tt)
key_loop-Types (ch ∷ word) i out h = elim (Option-cases (get_key_by_char ch)) [
  | inl no_key ↦ cc (rw no_key at h)
  | inr (c, e) ↦
      let (es, t) = key_loop-Types word (i + 1) (bit_or out ((c - 2) * 2 ^ (i * 3))) (rw e at h) in
      let r = get_key_by_char_range ch c e in ((c - 2) ∷ es, (e ∙ ap some (omega (arith, r.0)), t))
]

pub value-injective :
    (es fs : List ℕ) → Octal es → Octal fs → length es ≡ length fs → value es ≡ value fs → es ≡ fs
value-injective [] [] o p l e = refl
value-injective [] (f ∷ fs) o p l e = absurd (omega arith)
value-injective (e' ∷ es) [] o p l e = absurd (omega arith)
value-injective (e' ∷ es) (f ∷ fs) o p l e =
    let head : e' ≡ f = omega arith in
    let tail = value-injective es fs o.1 p.1 (omega arith) (omega arith) in cc

some_inj : (a b : ℕ) → some a ≡ some b → a ≡ b
some_inj a b h = cc

pub get_key-Types :
    (word : List ℕ) {k : ℕ}
    → get_key word ≡ some k
    → (es : List ℕ) × Types word es × (length word ≤ max_len) × (value es ≡ k)
unfolding get_key
get_key-Types word {k} h = elim (Bool-cases (ltb max_len (length word))) [
  | inl long ↦ cc (rw long at h)
  | inr fit ↦
      let short : length word ≤ max_len = ground arith in
      let loop : key_loop word 0 0 ≡ some k = rw fit at h in
      let (es, t) = key_loop-Types word 0 0 loop in
      (es, t, short, some_inj (value es) k (sym (get_key-sequence word es t short).0 ∙ h))
]

-- Two words of one length have the same key only if their characters stand on the same keys, one
-- after another.
pub get_key_injective :
    (v w : List ℕ) (k : ℕ)
    → length v ≡ length w
    → get_key v ≡ some k
    → get_key w ≡ some k
    → (es : List ℕ) × Types v es × Types w es
get_key_injective v w k l hv hw =
    let (es, tv, _, ev) = get_key-Types v hv in
    let (fs, tw, _, ew) = get_key-Types w hw in
    let same : es ≡ fs =
      value-injective es fs (Types-Octal v es tv) (Types-Octal w fs tw)
        (omega (arith, Types-length v es tv, Types-length w fs tw, l)) (omega (arith, ev, ew)) in
    (es, tv, subst (λ xs. Types w xs) (sym same) tw)
