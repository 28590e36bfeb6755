-- ===== src/Ctype/Case.antt =====
-- `tolower`, `toupper` and the classes of characters of libs/src/libc/ansi.c and
-- syscalls/ansi/include/ctype.h.
use cibyl.Base.{ℕ, ◌<◌, ◌≡◌, ◌≢◌, refl, sym, Bool, true, false, arith, ◌&&◌, ◌||◌, not}
use cibyl.Base.Bits.{passes_below, passes_below_sound}
use cibyl.Base.Int.{pos}
use cibyl.Ctype.{
  isascii, isupper, islower, isalpha, isspace, isdigit, isalnum, isprint, isgraph, iscntrl, ispunct,
  tolower, toupper,
}

abbrev agree : Bool → Bool → Bool
agree true b = b
agree false b = not b

agree_sound : (a b : Bool) → agree a b ≡ true → a ≡ b
agree_sound true b h = sym h
agree_sound false false h = refl
agree_sound false true h = cc

-- The classes divide the ASCII characters: a control character is one that is not printed; a
-- printed character other than the space is either a letter, a digit or punctuation, and only one
-- of these.
pub classes_divide :
    (c : ℕ)
    → isascii c ≡ true
    → (iscntrl c ≡ not (isprint c))
      × (isgraph c ≡ (isalpha c || (isdigit c || ispunct c)))
      × ((isalpha c && isdigit c) ≡ false)
      × ((isalpha c && ispunct c) ≡ false)
      × ((isdigit c && ispunct c) ≡ false)
unfolding isascii iscntrl isprint isgraph isalpha isupper islower isdigit isalnum isspace ispunct
    passes_below
classes_divide c h =
    let small : c < 128 = ground arith in
    let every = λ (p q : ℕ → Bool) (h : passes_below (λ c. agree (p c) (q c)) 128 ≡ true).
      agree_sound (p c) (q c) (passes_below_sound (λ c. agree (p c) (q c)) 128 h c small) in
    (
      every iscntrl (λ c. not (isprint c)) refl,
      every isgraph (λ c. isalpha c || (isdigit c || ispunct c)) refl,
      every (λ c. isalpha c && isdigit c) (λ c. false) refl,
      every (λ c. isalpha c && ispunct c) (λ c. false) refl,
      every (λ c. isdigit c && ispunct c) (λ c. false) refl,
    )

-- `tolower` makes no character an upper case letter, a second call changes nothing, and letters and
-- only letters stay letters.
pub tolower_lem :
    (c : ℕ)
    → (isupper (tolower c) ≡ false)
      × (tolower (tolower c) ≡ tolower c)
      × (isalpha (tolower c) ≡ isalpha c)
unfolding tolower isupper islower isalpha
tolower_lem c = (ground arith, ground arith, ground arith)

-- `toupper` of a lower case letter is no character: it is negative.
pub toupper_lower : (c d : ℕ) → islower c ≡ true → toupper c ≢ pos d
unfolding toupper islower
toupper_lower c d h = ground arith
