-- ===== src/S9.antt =====
-- libs/src/libs9/s9.c: words looked up by the keys 2 to 9 of a telephone.
--
-- A word is the list of its characters. The arrays of keys and of words are lists as long as
-- `n_keys` and `n_words` say; the room that `realloc` makes for them is kept in `max_keys` and
-- `max_words`. Memory does not run out (`abort_on` ends the program if it does). `int64_t` keys
-- that `get_key` builds are never negative, and its -1 is `none`.
pub mod Words
pub mod Keys
pub mod Dictionary
pub mod Refinement
pub mod Lookup
pub mod Iteration
mod Tests
use Prim.Native.Nat.{bit_or}
use mathlib.Core.Option
use cibyl.Ctype.{tolower}
use cibyl.Base.{
  ℕ, zero, suc, ◌+◌, ◌-◌, ◌*◌, ◌/◌, ◌^◌, Bool, true, false, ◌&&◌, ◌||◌, Option, none, some, List,
  [], ◌∷◌, ◌++◌, ltb, leb, ◌==◌, if◌then◌else◌, length, get_elem?, set, ◌>>=◌,
}

between : ℕ → ℕ → ℕ → Bool
between lo hi c = leb lo c && leb c hi

pub get_key_by_char : ℕ → Option ℕ
unfolding between tolower
get_key_by_char ch =
    let c = tolower ch in
    if between b'a' b'c' c
    then some 2
    else if between b'd' b'f' c
    then some 3
    else if between b'g' b'i' c
    then some 4
    else if between b'j' b'l' c
    then some 5
    else if between b'm' b'o' c
    then some 6
    else if between b'p' b's' c
    then some 7
    else if between b't' b'v' c
    then some 8
    else if between b'w' b'z' c
    then some 9
    else none

-- The loop of `get_key`, with `out` and `i`.
pub key_loop : List ℕ → ℕ → ℕ → Option ℕ
unfolding get_key_by_char
key_loop [] i out = some out
key_loop (ch ∷ word) i out =
    get_key_by_char ch >>= λ c. key_loop word (i + 1) (bit_or out ((c - 2) * 2 ^ (i * 3)))

-- `(sizeof(int64_t) * 8) / 3`
abbrev pub max_len : ℕ
max_len = 8 * 8 / 3

pub get_key : List ℕ → Option ℕ
unfolding key_loop
get_key word = if ltb max_len (length word) then none else key_loop word 0 0

-- The loop of `get_key_by_sequence`.
pub sequence_loop : List ℕ → ℕ → ℕ → Option ℕ
sequence_loop [] i out = some out
sequence_loop (cur ∷ seq) i out =
    let rest = sequence_loop seq (i + 1) (bit_or out ((cur - b'2') * 2 ^ (i * 3))) in
    if ltb cur b'2' || ltb b'9' cur then none else rest

pub get_key_by_sequence : List ℕ → Option ℕ
unfolding sequence_loop
get_key_by_sequence seq = if ltb max_len (length seq) then none else sequence_loop seq 0 0

-- `strcmp(a, b) == 0`
pub same_word : List ℕ → List ℕ → Bool
same_word [] [] = true
same_word (a ∷ as') (b ∷ bs) = (a == b) && same_word as' bs
same_word _ _ = false

-- `s9_key_t`; `room` is the number of pointers that `words` has place for, which `memset` zeroes.
pub record Key : Type 0 where
  pub key : ℕ
  pub max_words : ℕ
  pub room : ℕ
  pub words : List (List ℕ)

-- `s9_wordlen_t`, without `n_user_words` and `max_user_words`, which nothing reads.
pub record WordLen : Type 0 where
  pub max_keys : ℕ
  pub keys : List Key

-- `s9_t`
pub record S9 : Type 0 where
  pub expected_words : ℕ
  pub words_by_length : List WordLen

pub get_expected_words : ℕ → ℕ → ℕ
get_expected_words total len = 8

pub key_new : ℕ → ℕ → Key
key_new key max_words = record { key = key; max_words = max_words; room = max_words; words = [] }

-- The search of `key_add_word`.
pub has_word : List ℕ → List (List ℕ) → Bool
unfolding same_word
has_word word [] = false
has_word word (w ∷ ws) = same_word w word || has_word word ws

-- `key->max_words *= 2` and the `realloc` with one place more.
grow_words : Key → Key
grow_words k =
    if ltb k.max_words (length k.words + 1)
    then record k { max_words = k.max_words * 2; room = k.max_words * 2 + 1 }
    else k

pub key_add_word : Key → List ℕ → Key
unfolding has_word grow_words
key_add_word k word =
    if has_word word k.words then k else record (grow_words k) { words = k.words ++ (word ∷ []) }

pub wordlen_init : ℕ → WordLen
wordlen_init max_keys = record { max_keys = max_keys; keys = [] }

pub wordlen_lookup_key : List Key → ℕ → Option ℕ
wordlen_lookup_key [] key = none
wordlen_lookup_key (k ∷ ks) key =
    if k.key == key then some 0 else Option.map suc (wordlen_lookup_key ks key)

-- `wl->max_keys *= 2`, when `n_keys + 1` reaches it.
grow_keys : WordLen → ℕ
grow_keys wl = if leb wl.max_keys (length wl.keys + 1) then wl.max_keys * 2 else wl.max_keys

-- `key_add_word(wl->keys[idx], word)`
pub update_key : List Key → ℕ → List ℕ → List Key
unfolding key_add_word
update_key [] i word = []
update_key (k ∷ ks) zero word = key_add_word k word ∷ ks
update_key (k ∷ ks) (suc i) word = k ∷ update_key ks i word

-- `wordlen_add_word`, once the key is known.
pub add_to_key : ℕ → WordLen → List ℕ → WordLen
unfolding wordlen_lookup_key update_key grow_keys key_new
add_to_key key wl word = elim (wordlen_lookup_key wl.keys key) [
  | some idx ↦ record wl { keys = update_key wl.keys idx word }
  | none ↦ record {
    max_keys = grow_keys wl;
    keys = update_key (wl.keys ++ (key_new key 8 ∷ [])) (length wl.keys) word;
  }
]

pub wordlen_add_word : WordLen → List ℕ → WordLen
unfolding add_to_key
wordlen_add_word wl word = elim (get_key word) [ none ↦ wl | some key ↦ add_to_key key wl word ]

pub s9_init : ℕ → S9
s9_init expected_words = record { expected_words = expected_words; words_by_length = [] }

-- The new entries of `words_by_length`, up to the length of the word.
pub extend : ℕ → ℕ → List WordLen → List WordLen
unfolding wordlen_init
extend max_keys zero wls = wls
extend max_keys (suc n) wls = extend max_keys n (wls ++ (wordlen_init max_keys ∷ []))

pub update_length : List WordLen → ℕ → List ℕ → List WordLen
unfolding wordlen_add_word
update_length [] i word = []
update_length (wl ∷ wls) zero word = wordlen_add_word wl word ∷ wls
update_length (wl ∷ wls) (suc i) word = wl ∷ update_length wls i word

pub s9_add_word : S9 → List ℕ → S9
unfolding extend update_length get_expected_words
s9_add_word s9 word =
    let n = length s9.words_by_length in
    let len = length word in
    record s9 {
      words_by_length =
          update_length
            (extend (get_expected_words len s9.expected_words) (len + 1 - n) s9.words_by_length) len
            word;
    }

-- What `s9_lookup` returns: NULL, the array of words of a key, or the read of an entry of
-- `words_by_length` that is not there.
pub data Found : Type 0 where
  null : Found
  words : Key → Found
  out_of_range : Found

pub find_key : Option WordLen → ℕ → Found
unfolding wordlen_lookup_key
find_key none key = out_of_range
find_key (some wl) key = elim (wordlen_lookup_key wl.keys key) [
  | none ↦ null
  | some idx ↦ elim (get_elem? wl.keys idx) [ none ↦ out_of_range | some k ↦ words k ]
]

pub s9_lookup : S9 → List ℕ → Found
unfolding find_key
s9_lookup s9 sequence = elim (get_key_by_sequence sequence) [
  | none ↦ null
  | some key ↦ find_key (get_elem? s9.words_by_length (length sequence)) key
]

-- What stands in place `i` of the array of words: a word, NULL, or no place of the array.
pub data Slot : Type 0 where
  word_at : List ℕ → Slot
  null_at : Slot
  outside : Slot

-- `*p` of `s9_lookup_next`, when it has been called `i` times.
pub slot : Key → ℕ → Slot
slot k i = elim (get_elem? k.words i) [
  | some w ↦ word_at w
  | none ↦ if ltb i k.room then null_at else outside
]
