-- ===== src/S9/Lookup.antt =====
-- libs/src/libs9/s9.c: what `s9_lookup` returns for a sequence of keys.
use cibyl.Base.{
  ℕ, zero, suc, ◌+◌, ◌-◌, ◌≤◌, ◌<◌, ◌≡◌, refl, ap, sym, ◌∙◌, ◌⊎◌, inl, inr, Option, none, some,
  List, [], ◌∷◌, length, arith, Bool-cases, Option-cases, get_elem?, ◌==◌,
}
use cibyl.S9.{
  Key, WordLen, S9, Found, null, words, out_of_range, max_len, wordlen_lookup_key, find_key, extend,
  update_length, s9_add_word, s9_lookup, s9_init, get_expected_words,
}
use cibyl.S9.Keys.{value, pressed, Octal, sequence_value, length-pressed}
use cibyl.S9.Dictionary.{
  words_of, entry, words_of-here, words_of-past, lookup-here, new_past, lookup-past, length-extend,
}
use cibyl.S9.Refinement.{matching, add_all, entry-add_all}

-- The words that `s9_lookup` has found, when it has not read out of range.
abbrev pub listed : Found → Option (List (List ℕ))
listed null = some []
listed (words k) = some k.words
listed out_of_range = none

-- The key that a lookup has the index of.
at_index : Option Key → Option (List (List ℕ))
at_index none = none
at_index (some k) = some k.words

words_of-none : (ks : List Key) (key : ℕ) → wordlen_lookup_key ks key ≡ none → words_of ks key ≡ []
words_of-none [] key h = refl
words_of-none (k ∷ ks) key h =
    let (past, e) = new_past k ks key h in words_of-past k ks key past ∙ words_of-none ks key e

index_inj : (a b : ℕ) → some a ≡ some b → a ≡ b
index_inj a b h = cc

words_of-some :
    (ks : List Key) (key idx : ℕ)
    → wordlen_lookup_key ks key ≡ some idx
    → (k : Key) × (get_elem? ks idx ≡ some k) × (k.words ≡ words_of ks key)
unfolding wordlen_lookup_key
words_of-some [] key idx h = cc
words_of-some (k ∷ ks) key idx h = elim (Bool-cases (k.key == key)) [
  | inl here ↦
      let first : idx ≡ 0 = index_inj idx 0 (sym h ∙ lookup-here k ks key here) in
      (k, rw first refl, sym (words_of-here k ks key here))
  | inr past ↦
      let (i, next, e) = lookup-past k ks key idx past h in
      let (k', at, same) = words_of-some ks key i e in
      (k', rw next at, same ∙ sym (words_of-past k ks key past))
]

listed-find_key :
    (wl : WordLen) (key : ℕ) → listed (find_key (some wl) key) ≡ some (words_of wl.keys key)
unfolding find_key
listed-find_key wl key = elim (Option-cases (wordlen_lookup_key wl.keys key)) [
  | inl e ↦ rw (find_key, e) (ap some (sym (words_of-none wl.keys key e)))
  | inr (idx, e) ↦
      let (k, at, same) = words_of-some wl.keys key idx e in rw (find_key, e, at) (ap some same)
]

find_key-entry :
    (wls : List WordLen) (len key : ℕ)
    → len < length wls
    → listed (find_key (get_elem? wls len) key) ≡ some (entry wls len key)
find_key-entry [] len key h = absurd (omega arith)
find_key-entry (wl ∷ wls) zero key h = listed-find_key wl key
find_key-entry (wl ∷ wls) (suc len) key h = find_key-entry wls len key (omega arith)

-- A read of the entry for a length that no word reached is not guarded.
find_key-beyond :
    (wls : List WordLen) (len key : ℕ)
    → length wls ≤ len
    → find_key (get_elem? wls len) key ≡ out_of_range
unfolding find_key
find_key-beyond [] len key h = refl
find_key-beyond (wl ∷ wls) zero key h = absurd (omega arith)
find_key-beyond (wl ∷ wls) (suc len) key h = find_key-beyond wls len key (omega arith)

-- Some word of the list is at least so long.
abbrev pub Reaches : ℕ → List (List ℕ) → Type 0
Reaches n [] = ⊥
Reaches n (w ∷ ws) = (n ≤ length w) ⊎ Reaches n ws

length-update_length :
    (wls : List WordLen) (i : ℕ) (word : List ℕ) → length (update_length wls i word) ≡ length wls
unfolding update_length
length-update_length [] i word = refl
length-update_length (wl ∷ wls) zero word = refl
length-update_length (wl ∷ wls) (suc i) word = ap suc (length-update_length wls i word)

length-s9_add_word :
    (s9 : S9) (word : List ℕ)
    → (length s9.words_by_length ≤ length (s9_add_word s9 word).words_by_length)
      × (length word < length (s9_add_word s9 word).words_by_length)
unfolding s9_add_word
length-s9_add_word s9 word =
    let n = length s9.words_by_length in
    let m = get_expected_words (length word) s9.expected_words in
    let k = length word + 1 - n in
    let wls = extend m k s9.words_by_length in
    let e = length-update_length wls (length word) word ∙ length-extend m k s9.words_by_length in
    (omega (arith, e), omega (arith, e))

add_all-longer :
    (s9 : S9) (ws : List (List ℕ))
    → length s9.words_by_length ≤ length (add_all s9 ws).words_by_length
add_all-longer s9 [] = omega arith
add_all-longer s9 (w ∷ ws) =
    omega (arith, add_all-longer (s9_add_word s9 w) ws, (length-s9_add_word s9 w).0)

add_all-reach :
    (s9 : S9) (ws : List (List ℕ)) (n : ℕ)
    → Reaches n ws
    → n < length (add_all s9 ws).words_by_length
add_all-reach s9 [] n r = absurd r
add_all-reach s9 (w ∷ ws) n (inl here) =
    omega (arith, add_all-longer (s9_add_word s9 w) ws, (length-s9_add_word s9 w).1)
add_all-reach s9 (w ∷ ws) n (inr later) = add_all-reach (s9_add_word s9 w) ws n later

-- Words are added, one of them at least as long as the sequence of at most 21 keys. Then
-- `s9_lookup` finds exactly the words whose characters stand on the keys of the sequence, in the
-- order in which they were added and each once.
pub s9_lookup-add_all :
    (expected_words : ℕ) (ws : List (List ℕ)) (es : List ℕ)
    → Octal es
    → length es ≤ max_len
    → Reaches (length es) ws
    → listed (s9_lookup (add_all (s9_init expected_words) ws) (pressed es))
      ≡ some (matching es ws [])
unfolding s9_init s9_lookup
s9_lookup-add_all expected_words ws es o short r =
    let s9 = add_all (s9_init expected_words) ws in
    rw (s9_lookup, sequence_value es o short, length-pressed es)
      (find_key-entry s9.words_by_length (length es) (value es)
          (add_all-reach (s9_init expected_words) ws (length es) r)
        ∙ ap some (entry-add_all (s9_init expected_words) ws es o short))

-- For a sequence of at most 21 keys that is longer than every word the dictionary was extended for,
-- `s9_lookup` reads an entry of `words_by_length` that is not there.
pub s9_lookup_unreached :
    (s9 : S9) (es : List ℕ)
    → Octal es
    → length es ≤ max_len
    → length s9.words_by_length ≤ length es
    → s9_lookup s9 (pressed es) ≡ out_of_range
unfolding s9_lookup
s9_lookup_unreached s9 es o short h =
    rw (s9_lookup, sequence_value es o short, length-pressed es)
      (find_key-beyond s9.words_by_length (length es) (value es) h)
