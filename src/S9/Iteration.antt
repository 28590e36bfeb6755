-- ===== src/S9/Iteration.antt =====
-- libs/src/libs9/s9.c: the array of words of one key, which `s9_lookup_next` walks up to its NULL.
use cibyl.Base.{
  ℕ, zero, suc, ◌+◌, ◌*◌, ◌≤◌, ◌≡◌, refl, ap, ◌∙◌, ◌⊎◌, inl, inr, none, some, List, [], ◌∷◌, ◌++◌,
  length, arith, true, Bool-cases, if◌then◌else◌, get_elem?, ◌==◌, ltb, length-append, map,
}
use cibyl.S9.{Key, Slot, word_at, null_at, outside, key_new, key_add_word, has_word, slot}

-- The array has a place for each word; and when it has grown, or is not full, one more.
abbrev pub IsRoomy : Key → Type 0
IsRoomy k =
    ((k.room ≡ k.max_words) × (k.max_words ≡ 8) × (length k.words ≤ 8))
    ⊎ ((k.room ≡ k.max_words + 1) × (9 ≤ length k.words) × (length k.words ≤ k.max_words))

abbrev pub add_words : Key → List (List ℕ) → Key
add_words k [] = k
add_words k (w ∷ ws) = add_words (key_add_word k w) ws

key_new-IsRoomy : (key : ℕ) → IsRoomy (key_new key 8)
unfolding key_new
key_new-IsRoomy key = inl (refl, refl, omega arith)

module _ (k : Key) (word : List ℕ) where
  known : has_word word k.words ≡ true → key_add_word k word ≡ k
  unfolding key_add_word
  known h = rw h refl

  length-appended : length (k.words ++ (word ∷ [])) ≡ length k.words + 1
  length-appended = length-append k.words (word ∷ [])

  full_length :
      IsRoomy k
      → k.max_words ≤ length k.words
      → (9 ≤ length (k.words ++ (word ∷ []))) × (length (k.words ++ (word ∷ [])) ≤ k.max_words * 2)
  full_length (inl (_, size, n)) h =
      (omega (arith, length-appended, size, n, h), omega (arith, length-appended, size, n, h))
  full_length (inr (_, large, n)) h =
      (omega (arith, length-appended, large, n, h), omega (arith, length-appended, large, n, h))

  -- The array is not full.
  kept :
      IsRoomy k
      → length k.words + 1 ≤ k.max_words
      → ((k.room ≡ k.max_words) × (k.max_words ≡ 8) × (length (k.words ++ (word ∷ [])) ≤ 8))
        ⊎ ((k.room ≡ k.max_words + 1)
            × (9 ≤ length (k.words ++ (word ∷ [])))
            × (length (k.words ++ (word ∷ [])) ≤ k.max_words))
  kept (inl (room, size, _)) h = inl (room, size, omega (arith, length-appended))
  kept (inr (room, large, _)) h =
      inr (room, omega (arith, length-appended), omega (arith, length-appended))

  key_add_word-IsRoomy : IsRoomy k → IsRoomy (key_add_word k word)
  unfolding key_add_word
  key_add_word-IsRoomy r = elim (Bool-cases (has_word word k.words)) [
    | inl old ↦ rw old r
    | inr new ↦ elim (Bool-cases (ltb k.max_words (length k.words + 1))) [
      | inl full ↦
          let (lo, hi) = full_length r (ground arith) in rw (new, full) (inr (refl, lo, hi))
      | inr fits ↦ rw (new, fits) (kept r (ground arith))
    ]
  ]

add_words-IsRoomy : (k : Key) (ws : List (List ℕ)) → IsRoomy k → IsRoomy (add_words k ws)
add_words-IsRoomy k [] r = r
add_words-IsRoomy k (w ∷ ws) r =
    add_words-IsRoomy (key_add_word k w) ws (key_add_word-IsRoomy k w r)

get_elem-beyond : (ws : List (List ℕ)) (i : ℕ) → length ws ≤ i → get_elem? ws i ≡ none
get_elem-beyond [] i h = refl
get_elem-beyond (w ∷ ws) zero h = absurd (omega arith)
get_elem-beyond (w ∷ ws) (suc i) h = get_elem-beyond ws i (omega arith)

after_words :
    (k : Key) → slot k (length k.words) ≡ (if ltb (length k.words) k.room then null_at else outside)
unfolding slot
after_words k = rw (slot, get_elem-beyond k.words (length k.words) (omega arith)) refl

slot-end :
    (k : Key)
    → IsRoomy k
    → slot k (length k.words) ≡ (if length k.words == 8 then outside else null_at)
slot-end k (inl (room, size, n)) = after_words k ∙ ground arith
slot-end k (inr (room, large, n)) = after_words k ∙ ground arith

-- What a walk of `n` steps meets from place `i` on.
abbrev pub walk : Key → ℕ → ℕ → List Slot
walk k i zero = []
walk k i (suc n) = slot k i ∷ walk k (i + 1) n

-- The words from place `i` on are the words of the list, and the array ends with them.
walk-suffix :
    (k : Key) (ws : List (List ℕ)) (i : ℕ)
    → ((j : ℕ) → get_elem? k.words (i + j) ≡ get_elem? ws j)
    → i + length ws ≡ length k.words
    → walk k i (suc (length ws)) ≡ map word_at ws ++ (slot k (length k.words) ∷ [])
unfolding slot
walk-suffix k [] i same l = let end : i ≡ length k.words = omega arith in rw end refl
walk-suffix k (w ∷ ws) i same l =
    let head : get_elem? k.words i ≡ some w = ap (get_elem? k.words) (omega arith) ∙ same 0 in
    let ih =
      walk-suffix k ws (i + 1) (λ j. ap (get_elem? k.words) (omega arith) ∙ same (suc j))
        (omega arith) in
    rw (slot, head) (ap (λ ss. word_at w ∷ ss) ih)

-- Words are added to a new key, as often as one likes. A caller that walks the array of words then
-- meets every stored word in order, and NULL behind the last; but when exactly 8 words are stored,
-- the array has no place behind them, and the walk leaves it.
pub walk-add_words :
    (key : ℕ) (ws : List (List ℕ))
    → let k = add_words (key_new key 8) ws in
      walk k 0 (suc (length k.words))
      ≡ map word_at k.words ++ ((if length k.words == 8 then outside else null_at) ∷ [])
walk-add_words key ws =
    let k = add_words (key_new key 8) ws in
    walk-suffix k k.words 0 (λ j. ap (get_elem? k.words) (omega arith)) (omega arith)
    ∙ ap (λ s. map word_at k.words ++ (s ∷ []))
        (slot-end k (add_words-IsRoomy (key_new key 8) ws (key_new-IsRoomy key)))
