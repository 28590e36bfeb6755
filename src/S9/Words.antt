-- ===== src/S9/Words.antt =====
-- The search for a word in the list of a key, in libs/src/libs9/s9.c, and equality of words.
use mathlib.Core.List.{List-discrete}
use native.Mathlib.Decide.{ℕ_discrete}
use cibyl.Base.{
  ℕ, ◌≡◌, refl, sym, ap, ◌∙◌, Bool, true, false, ◌||◌, List, [], ◌∷◌, arith, inl, inr, Bool-cases,
}
use cibyl.S9.{same_word, has_word}

abbrev words_dec : Discrete (List ℕ)
words_dec = List-discrete ℕ_discrete

-- Whether the word is one of the list.
abbrev pub recorded : List ℕ → List (List ℕ) → Bool
recorded word [] = false
recorded word (w ∷ ws) = elim (words_dec w word) [ yes _ ↦ true | no _ ↦ recorded word ws ]

same_word_sound : (a b : List ℕ) → same_word a b ≡ true → a ≡ b
unfolding same_word
same_word_sound [] [] h = refl
same_word_sound [] (b ∷ bs) h = cc
same_word_sound (a ∷ as') [] h = cc
same_word_sound (a ∷ as') (b ∷ bs) h =
    let head : a ≡ b = ground arith in let tail = same_word_sound as' bs (ground arith) in cc

same_word_refl : (a : List ℕ) → same_word a a ≡ true
unfolding same_word
same_word_refl [] = refl
same_word_refl (a ∷ as') = ground (arith, same_word_refl as')

pub has_word-recorded : (word : List ℕ) (ws : List (List ℕ)) → has_word word ws ≡ recorded word ws
unfolding has_word
has_word-recorded word [] = refl
has_word-recorded word (w ∷ ws) =
    elim (words_dec w word)
      as (λ d.
        (same_word w word || has_word word ws)
        ≡ elim d [ yes _ ↦ true | no _ ↦ recorded word ws ]) [
          | yes e ↦ rw (ap (same_word w) (sym e) ∙ same_word_refl w) refl
          | no ne ↦ elim (Bool-cases (same_word w word)) [
            | inl same ↦ absurd (ne (same_word_sound w word same))
            | inr other ↦ rw other (has_word-recorded word ws)
          ]
        ]
