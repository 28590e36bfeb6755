-- ===== src/S9/Dictionary.antt =====
-- libs/src/libs9/s9.c implements a dictionary from lengths and keys to lists of words.
use cibyl.Base.{
  ℕ, zero, suc, ◌+◌, ◌<◌, ◌≡◌, refl, sym, ◌∙◌, inl, inr, Option, none, some, List, [], ◌∷◌, ◌++◌,
  length, arith, true, false, Bool-cases, Option-cases, if◌then◌else◌, ◌==◌, length-append,
}
use cibyl.S9.Words.{recorded, has_word-recorded}
use cibyl.S9.{
  Key, WordLen, has_word, key_add_word, key_new, wordlen_init, get_key, wordlen_lookup_key,
  update_key, add_to_key, wordlen_add_word, extend, update_length,
}

-- The abstract operation: a word is added behind the others, unless it is there.
abbrev pub add_unique : List ℕ → List (List ℕ) → List (List ℕ)
add_unique word ws = if recorded word ws then ws else ws ++ (word ∷ [])

-- What is stored under a key, and under a length and a key.
abbrev pub words_of : List Key → ℕ → List (List ℕ)
words_of [] key = []
words_of (k ∷ ks) key = if k.key == key then k.words else words_of ks key

abbrev pub entry : List WordLen → ℕ → ℕ → List (List ℕ)
entry [] len key = []
entry (wl ∷ wls) zero key = words_of wl.keys key
entry (wl ∷ wls) (suc len) key = entry wls len key

words-key_add_word :
    (k : Key) (word : List ℕ) → (key_add_word k word).words ≡ add_unique word k.words
unfolding key_add_word
words-key_add_word k word = ground (arith, has_word-recorded word k.words)

key-key_add_word : (k : Key) (word : List ℕ) → (key_add_word k word).key ≡ k.key
unfolding key_add_word
key-key_add_word k word = ground arith

pub words_of-here :
    (k : Key) (ks : List Key) (key : ℕ) → (k.key == key) ≡ true → words_of (k ∷ ks) key ≡ k.words
words_of-here k ks key h = rw h refl

pub words_of-past :
    (k : Key) (ks : List Key) (key : ℕ)
    → (k.key == key) ≡ false
    → words_of (k ∷ ks) key ≡ words_of ks key
words_of-past k ks key h = rw h refl

-- Adding a word to one list of a key.
abbrev added : List ℕ → ℕ → ℕ → List Key → List (List ℕ)
added word key key' ks = if key == key' then add_unique word (words_of ks key) else words_of ks key'

update_here :
    (word : List ℕ) (key key' : ℕ) (k : Key) (ks : List Key)
    → (k.key == key) ≡ true
    → words_of (key_add_word k word ∷ ks) key' ≡ added word key key' (k ∷ ks)
update_here word key key' k ks h =
    ground (arith, words-key_add_word k word, key-key_add_word k word)

update_past :
    (word : List ℕ) (key key' : ℕ) (k : Key) (ks ks' : List Key)
    → (k.key == key) ≡ false
    → words_of ks' key' ≡ added word key key' ks
    → words_of (k ∷ ks') key' ≡ added word key key' (k ∷ ks)
update_past word key key' k ks ks' h ih = ground arith

pub lookup-past :
    (k : Key) (ks : List Key) (key idx : ℕ)
    → (k.key == key) ≡ false
    → wordlen_lookup_key (k ∷ ks) key ≡ some idx
    → (i : ℕ) × (idx ≡ suc i) × (wordlen_lookup_key ks key ≡ some i)
unfolding wordlen_lookup_key
lookup-past k ks key idx past h = elim (Option-cases (wordlen_lookup_key ks key)) [
  | inl e ↦ cc (rw (past, e) at h)
  | inr (i, e) ↦ (i, cc (rw (past, e) at h), e)
]

pub lookup-here :
    (k : Key) (ks : List Key) (key : ℕ)
    → (k.key == key) ≡ true
    → wordlen_lookup_key (k ∷ ks) key ≡ some 0
unfolding wordlen_lookup_key
lookup-here k ks key h = rw h refl

zero_index : (a b : ℕ) → some a ≡ some b → a ≡ b
zero_index a b h = cc

words_of-update_key :
    (word : List ℕ) (key key' : ℕ) (ks : List Key) (idx : ℕ)
    → wordlen_lookup_key ks key ≡ some idx
    → words_of (update_key ks idx word) key' ≡ added word key key' ks
unfolding update_key wordlen_lookup_key
words_of-update_key word key key' [] idx h = cc
words_of-update_key word key key' (k ∷ ks) idx h = elim (Bool-cases (k.key == key)) [
  | inl here ↦
      let first : idx ≡ 0 = sym (zero_index 0 idx (sym (lookup-here k ks key here) ∙ h)) in
      rw first (update_here word key key' k ks here)
  | inr past ↦
      let (i, next, e) = lookup-past k ks key idx past h in
      rw next (
        update_past word key key' k ks (update_key ks i word) past
          (words_of-update_key word key key' ks i e))
]

pub new_past :
    (k : Key) (ks : List Key) (key : ℕ)
    → wordlen_lookup_key (k ∷ ks) key ≡ none
    → ((k.key == key) ≡ false) × (wordlen_lookup_key ks key ≡ none)
unfolding wordlen_lookup_key
new_past k ks key h = elim (Bool-cases (k.key == key)) [
  | inl here ↦ cc (rw here at h)
  | inr past ↦ elim (Option-cases (wordlen_lookup_key ks key)) [
    | inl e ↦ (past, e)
    | inr (i, e) ↦ cc (rw (past, e) at h)
  ]
]

words_of-new :
    (word : List ℕ) (key key' : ℕ) (ks : List Key)
    → wordlen_lookup_key ks key ≡ none
    → words_of (update_key (ks ++ (key_new key 8 ∷ [])) (length ks) word) key'
      ≡ added word key key' ks
unfolding update_key key_new key_add_word has_word
words_of-new word key key' [] h = ground arith
words_of-new word key key' (k ∷ ks) h =
    let (past, e) = new_past k ks key h in
    update_past word key key' k ks (update_key (ks ++ (key_new key 8 ∷ [])) (length ks) word) past
      (words_of-new word key key' ks e)

keys-add_old :
    (word : List ℕ) (key idx : ℕ) (wl : WordLen)
    → wordlen_lookup_key wl.keys key ≡ some idx
    → (add_to_key key wl word).keys ≡ update_key wl.keys idx word
unfolding add_to_key
keys-add_old word key idx wl e = rw (add_to_key, e) refl

keys-add_new :
    (word : List ℕ) (key : ℕ) (wl : WordLen)
    → wordlen_lookup_key wl.keys key ≡ none
    → (add_to_key key wl word).keys
      ≡ update_key (wl.keys ++ (key_new key 8 ∷ [])) (length wl.keys) word
unfolding add_to_key
keys-add_new word key wl e = rw (add_to_key, e) refl

-- Adding a word under its key is the abstract operation on the words of that key, and leaves the
-- words of every other key.
pub words_of-add_to_key :
    (word : List ℕ) (key key' : ℕ) (wl : WordLen)
    → words_of (add_to_key key wl word).keys key'
      ≡ (if key == key' then add_unique word (words_of wl.keys key) else words_of wl.keys key')
words_of-add_to_key word key key' wl = elim (Option-cases (wordlen_lookup_key wl.keys key)) [
  | inl e ↦ rw (keys-add_new word key wl e) (words_of-new word key key' wl.keys e)
  | inr (idx, e) ↦
      rw (keys-add_old word key idx wl e) (words_of-update_key word key key' wl.keys idx e)
]

-- What the lists of one length hold under a key after `wordlen_add_word`.
abbrev pub with_word : List ℕ → Option ℕ → ℕ → List (List ℕ) → List (List ℕ)
with_word word none key' ws = ws
with_word word (some key) key' ws = if key == key' then add_unique word ws else ws

words_of-wordlen_add_word :
    (word : List ℕ) (key' : ℕ) (wl : WordLen)
    → words_of (wordlen_add_word wl word).keys key'
      ≡ with_word word (get_key word) key' (words_of wl.keys key')
unfolding wordlen_add_word
words_of-wordlen_add_word word key' wl = elim (Option-cases (get_key word)) [
  | inl e ↦ rw (wordlen_add_word, e) refl
  | inr (key, e) ↦ rw (wordlen_add_word, e) (words_of-add_to_key word key key' wl ∙ at_key key)
]
  where
    at_key :
        (key : ℕ)
        → added word key key' wl.keys ≡ with_word word (some key) key' (words_of wl.keys key')
    at_key key = elim (Bool-cases (key == key')) [
      | inl e ↦ let same : key ≡ key' = ground arith in rw (e, same) refl
      | inr e ↦ rw e refl
    ]

pub entry-extend :
    (max_keys n : ℕ) (wls : List WordLen) (len key : ℕ)
    → entry (extend max_keys n wls) len key ≡ entry wls len key
unfolding extend wordlen_init
entry-extend max_keys zero wls len key = refl
entry-extend max_keys (suc n) wls len key =
    entry-extend max_keys n (wls ++ (wordlen_init max_keys ∷ [])) len key ∙ entry-append wls len
  where
    entry-append :
        (ws : List WordLen) (l : ℕ)
        → entry (ws ++ (wordlen_init max_keys ∷ [])) l key ≡ entry ws l key
    entry-append [] zero = refl
    entry-append [] (suc l) = refl
    entry-append (w ∷ ws) zero = refl
    entry-append (w ∷ ws) (suc l) = entry-append ws l

pub length-extend :
    (max_keys n : ℕ) (wls : List WordLen) → length (extend max_keys n wls) ≡ length wls + n
unfolding extend
length-extend max_keys zero wls = omega arith
length-extend max_keys (suc n) wls = omega (
  arith,
  length-extend max_keys n (wls ++ (wordlen_init max_keys ∷ [])),
  length-append wls (wordlen_init max_keys ∷ []),
)

pub entry-update_length :
    (word : List ℕ) (wls : List WordLen) (i len key : ℕ)
    → i < length wls
    → entry (update_length wls i word) len key ≡ (
        if i == len
        then with_word word (get_key word) key (entry wls len key)
        else entry wls len key)
unfolding update_length
entry-update_length word [] i len key h = absurd (omega arith)
entry-update_length word (wl ∷ wls) zero zero key h = words_of-wordlen_add_word word key wl
entry-update_length word (wl ∷ wls) zero (suc len) key h =
    let apart : (0 == suc len) ≡ false = ground arith in rw apart refl
entry-update_length word (wl ∷ wls) (suc i) zero key h =
    let apart : (suc i == 0) ≡ false = ground arith in rw apart refl
entry-update_length word (wl ∷ wls) (suc i) (suc len) key h =
    let same : (suc i == suc len) ≡ (i == len) = ground arith in
    rw same (entry-update_length word wls i len key (omega arith))
