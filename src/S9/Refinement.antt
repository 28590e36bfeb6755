-- ===== src/S9/Refinement.antt =====
-- libs/src/libs9/s9.c: what a sequence of keys finds after words have been added.
use cibyl.Base.{
  ℕ, ◌+◌, ◌-◌, ◌≤◌, ◌≡◌, ◌≢◌, refl, ap, sym, ◌∙◌, inl, inr, Option, none, some, List, [], ◌∷◌,
  length, arith, Bool, true, false, Bool-cases, Option-cases, if◌then◌else◌, ◌==◌, ◌&&◌,
}
use cibyl.S9.{S9, get_key_by_char, get_key, max_len, extend, s9_add_word, get_expected_words}
use cibyl.S9.Keys.{
  value, Types, Types-Octal, Types-length, Octal, get_key-sequence, get_key-Types, value-injective,
}
use cibyl.S9.Dictionary.{
  add_unique, entry, with_word, entry-extend, length-extend, entry-update_length,
}

-- Whether the characters of the word stand on the keys with these digits.
abbrev on_key : Option ℕ → ℕ → Bool
on_key none e = false
on_key (some c) e = c == e + 2

abbrev pub types : List ℕ → List ℕ → Bool
types [] [] = true
types [] (e ∷ es) = false
types (ch ∷ word) [] = false
types (ch ∷ word) (e ∷ es) = on_key (get_key_by_char ch) e && types word es

-- The words that were added and stand on the keys, in the order in which they came.
abbrev pub matching : List ℕ → List (List ℕ) → List (List ℕ) → List (List ℕ)
matching es [] found = found
matching es (w ∷ ws) found = matching es ws (if types w es then add_unique w found else found)

abbrev pub add_all : S9 → List (List ℕ) → S9
add_all s9 [] = s9
add_all s9 (w ∷ ws) = add_all (s9_add_word s9 w) ws

pub types-Types : (word es : List ℕ) → types word es ≡ true → Types word es
types-Types [] [] h = tt
types-Types [] (e ∷ es) h = cc
types-Types (ch ∷ word) [] h = cc
types-Types (ch ∷ word) (e ∷ es) h = elim (Option-cases (get_key_by_char ch)) [
  | inl no_key ↦ cc (rw no_key at h)
  | inr (c, k) ↦
      let both : ((c == e + 2) && types word es) ≡ true = rw k at h in
      let first : c ≡ e + 2 = ground arith in
      let rest : types word es ≡ true = ground arith in
      (k ∙ ap some first, types-Types word es rest)
]

pub Types-types : (word es : List ℕ) → Types word es → types word es ≡ true
Types-types [] [] t = refl
Types-types [] (e ∷ es) t = absurd t
Types-types (ch ∷ word) [] t = absurd t
Types-types (ch ∷ word) (e ∷ es) (k, t) =
    let ih = Types-types word es t in rw (k, ih) (ground arith)

key_unique : (word : List ℕ) (a b : ℕ) → get_key word ≡ some a → get_key word ≡ some b → a ≡ b
key_unique word a b h h' = inj (sym h ∙ h')
  where
    inj : some a ≡ some b → a ≡ b
    inj e = cc

-- The list of one length under the value of a sequence of keys.
module _ (word es : List ℕ) (o : Octal es) (short : length es ≤ max_len) (ws : List (List ℕ)) where
  with_key :
      (k : ℕ)
      → length word ≡ length es
      → get_key word ≡ some k
      → (if k == value es then add_unique word ws else ws)
        ≡ (if types word es then add_unique word ws else ws)
  with_key k l h = elim (Bool-cases (k == value es)) [
    | inl e ↦
        let (fs, t, _, v) = get_key-Types word h in
        let same : fs ≡ es =
          value-injective fs es (Types-Octal word fs t) o (Types-length word fs t ∙ l)
            (v ∙ ground arith) in
        let yes : types word es ≡ true = ap (types word) (sym same) ∙ Types-types word fs t in
        rw (e, yes) refl
    | inr e ↦ elim (Bool-cases (types word es)) [
      | inl on ↦
          let t = types-Types word es on in
          let other : k ≢ value es = ground arith in
          absurd (other (key_unique word k (value es) h (get_key-sequence word es t fit).0))
      | inr off ↦ rw (e, off) refl
    ]
  ]
    where
      fit : length word ≤ max_len
      fit = omega (arith, short, l)

  -- What stands under a sequence after `wordlen_add_word`, on words of its length.
  with_word-types :
      length word ≡ length es
      → with_word word (get_key word) (value es) ws
        ≡ (if types word es then add_unique word ws else ws)
  with_word-types l = elim (Option-cases (get_key word)) [
    | inr (k, e) ↦ rw e (with_key k l e)
    | inl e ↦ elim (Bool-cases (types word es)) [
      | inl on ↦
          let fit : length word ≤ max_len = omega (arith, short, l) in
          let key = (get_key-sequence word es (types-Types word es on) fit).0 in
          absurd (clash (value es) (sym key ∙ e))
      | inr off ↦ rw (e, off) refl
    ]
  ]
    where
      clash : (n : ℕ) → some n ≢ none
      clash n h = cc

  other_length : length word ≢ length es → types word es ≡ false
  other_length l = elim (Bool-cases (types word es)) [
    | inl on ↦ absurd (l (sym (Types-length word es (types-Types word es on))))
    | inr off ↦ off
  ]

entry-s9_add_word :
    (s9 : S9) (word : List ℕ) (len key : ℕ)
    → entry (s9_add_word s9 word).words_by_length len key ≡ (
        if length word == len
        then with_word word (get_key word) key (entry s9.words_by_length len key)
        else entry s9.words_by_length len key)
unfolding s9_add_word
entry-s9_add_word s9 word len key =
    let n = length s9.words_by_length in
    let m = get_expected_words (length word) s9.expected_words in
    let k = length word + 1 - n in
    let same = entry-extend m k s9.words_by_length len key in
    entry-update_length word (extend m k s9.words_by_length) (length word) len key
      (omega (arith, length-extend m k s9.words_by_length))
    ∙ ap
        (λ (ws : List (List ℕ)).
          if length word == len then with_word word (get_key word) key ws else ws)
        same

-- After one word is added, what stands under a sequence is what stood there, and that word behind
-- it when its characters stand on these keys and it is new.
pub s9_add_word_lem :
    (s9 : S9) (word es : List ℕ)
    → Octal es
    → length es ≤ max_len
    → entry (s9_add_word s9 word).words_by_length (length es) (value es) ≡ (
        if types word es
        then add_unique word (entry s9.words_by_length (length es) (value es))
        else entry s9.words_by_length (length es) (value es))
s9_add_word_lem s9 word es o short = elim (Bool-cases (length word == length es)) [
  | inl e ↦
      entry-s9_add_word s9 word (length es) (value es)
      ∙ rw e (with_word-types word es o short _ (ground arith))
  | inr e ↦
      entry-s9_add_word s9 word (length es) (value es)
      ∙ rw (e, other_length word es o short [] (ground arith)) refl
]

pub entry-add_all :
    (s9 : S9) (ws : List (List ℕ)) (es : List ℕ)
    → Octal es
    → length es ≤ max_len
    → entry (add_all s9 ws).words_by_length (length es) (value es)
      ≡ matching es ws (entry s9.words_by_length (length es) (value es))
entry-add_all s9 [] es o short = refl
entry-add_all s9 (w ∷ ws) es o short =
    entry-add_all (s9_add_word s9 w) ws es o short
    ∙ ap (matching es ws) (s9_add_word_lem s9 w es o short)
