-- ===== src/Tafl/Field.antt =====
-- The field of the board in examples/j2me/tafl-client/src/playfield.c.
use cibyl.Base.{
  ℕ, zero, suc, ◌+◌, ◌*◌, ◌<◌, ◌≡◌, refl, sym, true, false, ◌&&◌, List, [], ◌∷◌, ◌==◌,
  if◌then◌else◌, arith, inl, inr, Bool-cases, get_or, set, length,
}
use cibyl.Tafl.{
  Item, invalid, height, width_pwr_two, playfield_item_is_valid, playfield_get_item,
  playfield_set_item,
}

get_or-set :
    (field : List Item) (i j : ℕ) (item : Item)
    → i < length field
    → get_or (set field i item) j invalid ≡ (if i == j then item else get_or field j invalid)
get_or-set [] i j item h = absurd (omega arith)
get_or-set (f ∷ field) zero zero item h = refl
get_or-set (f ∷ field) zero (suc j) item h =
    let apart : (0 == suc j) ≡ false = ground arith in rw apart refl
get_or-set (f ∷ field) (suc i) zero item h =
    let apart : (suc i == 0) ≡ false = ground arith in rw apart refl
get_or-set (f ∷ field) (suc i) (suc j) item h =
    let same : (suc i == suc j) ≡ (i == j) = ground arith in
    rw same (get_or-set field i j item (omega arith))

same_place :
    (x y x' y' : ℕ)
    → playfield_item_is_valid x y ≡ true
    → playfield_item_is_valid x' y' ≡ true
    → (y * width_pwr_two + x == y' * width_pwr_two + x') ≡ ((x == x') && (y == y'))
unfolding playfield_item_is_valid
same_place x y x' y' h h' = ground arith

other_square :
    (x y x' y' : ℕ)
    → playfield_item_is_valid x y ≡ true
    → playfield_item_is_valid x' y' ≡ false
    → ((x == x') && (y == y')) ≡ false
unfolding playfield_item_is_valid
other_square x y x' y' h h' = ground arith

place_below :
    (x y : ℕ) → playfield_item_is_valid x y ≡ true → y * width_pwr_two + x < width_pwr_two * height
unfolding playfield_item_is_valid
place_below x y h =
    let small : x < 11 = ground arith in let low : y < 11 = ground arith in omega arith

-- On a field with its 176 places, what is set on a square of the board is found there, every other
-- square is as it was, and off the board nothing is set.
pub playfield_get_item-set :
    (field : List Item) (item : Item) (x y x' y' : ℕ)
    → length field ≡ width_pwr_two * height
    → playfield_get_item (playfield_set_item field item x y) x' y' ≡ (
        if playfield_item_is_valid x y && ((x == x') && (y == y'))
        then item
        else playfield_get_item field x' y')
unfolding playfield_get_item playfield_set_item
playfield_get_item-set field item x y x' y' l = elim (Bool-cases (playfield_item_is_valid x y)) [
  | inr off ↦ rw off refl
  | inl on ↦ elim (Bool-cases (playfield_item_is_valid x' y')) [
    | inl on' ↦
        let place = same_place x y x' y' on on' in
        rw (on, on', sym place)
          (get_or-set field (y * width_pwr_two + x) (y' * width_pwr_two + x') item (inside on))
    | inr off' ↦ let other = other_square x y x' y' on off' in rw (on, off', other) refl
  ]
]
  where
    inside : playfield_item_is_valid x y ≡ true → y * width_pwr_two + x < length field
    inside on = omega (arith, l, place_below x y on)
