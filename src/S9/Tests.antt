-- ===== src/S9/Tests.antt =====
-- Examples for libs/src/libs9/s9.c: the words good, home, gone and hood, all on the keys 4663.
use cibyl.Base.{
  ℕ, suc, ◌≡◌, refl, List, [], ◌∷◌, ◌++◌, some, inl, arith, length, map, if◌then◌else◌, ◌==◌,
}
use cibyl.S9.{
  get_key_by_char, s9_init, s9_add_word, s9_lookup, get_key, get_key_by_sequence, key_new, word_at,
  outside, null_at,
}
use cibyl.S9.Keys.{Types, pressed, Octal}
use cibyl.S9.Refinement.{matching, add_all}
use cibyl.S9.Lookup.{listed, s9_lookup-add_all}
use cibyl.S9.Iteration.{add_words, walk, walk-add_words}

abbrev good : List ℕ
good = b'g' ∷ b'o' ∷ b'o' ∷ b'd' ∷ []

abbrev home : List ℕ
home = b'h' ∷ b'o' ∷ b'm' ∷ b'e' ∷ []

abbrev cat : List ℕ
cat = b'C' ∷ b'a' ∷ b't' ∷ []

-- The digits of the keys 4, 6, 6 and 3.
abbrev digits : List ℕ
digits = 2 ∷ 4 ∷ 4 ∷ 1 ∷ []

digits-Octal : Octal digits
digits-Octal = (omega arith, (omega arith, (omega arith, (omega arith, tt))))

good-Types : Types good digits
unfolding get_key_by_char
good-Types = (refl, (refl, (refl, (refl, tt))))

abbrev dictionary : List (List ℕ)
dictionary = good ∷ cat ∷ home ∷ good ∷ []

s9_lookup-add_all_example :
    listed (s9_lookup (add_all (s9_init 4) dictionary) (pressed digits))
    ≡ some (matching digits dictionary [])
s9_lookup-add_all_example =
    s9_lookup-add_all 4 dictionary digits digits-Octal (omega arith) (inl (omega arith))

walk-add_words_example :
    walk
      (add_words (key_new 0 8) (good ∷ home ∷ []))
      0
      (suc (length (add_words (key_new 0 8) (good ∷ home ∷ [])).words))
    ≡ map word_at (add_words (key_new 0 8) (good ∷ home ∷ [])).words
      ++ ((if length (add_words (key_new 0 8) (good ∷ home ∷ [])).words == 8
            then outside
            else null_at)
          ∷ [])
walk-add_words_example = walk-add_words 0 (good ∷ home ∷ [])

-- "good" is found first and once, "home" behind it.
found_4663 :
    listed (s9_lookup (add_all (s9_init 4) dictionary) (pressed digits)) ≡ some (good ∷ home ∷ [])
unfolding s9_init s9_lookup s9_add_word get_key get_key_by_sequence
found_4663 = refl
