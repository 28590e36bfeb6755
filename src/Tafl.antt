-- ===== src/Tafl.antt =====
-- The board and the moves of the game of tafl: examples/j2me/tafl-client/src/playfield.c and
-- dir.c, with include/item.h and include/dir.h.
--
-- Coordinates are those of squares from the corner 0, 0 on; no coordinate is negative. A row of
-- `field` takes 16 places, of which 11 are squares.
pub mod Field
pub mod Rook
mod Tests
use cibyl.Base.{
  ℕ, zero, suc, ◌+◌, ◌-◌, ◌*◌, ◌/◌, Bool, true, false, not, ◌&&◌, ◌||◌, Option, none, some, List,
  [], ◌∷◌, ltb, leb, ◌==◌, if◌then◌else◌, get_or, set,
}

-- `item_t`
pub data Item : Type 0 where
  black white white_king empty invalid : Item

-- `dir_t`, the four directions of a move.
pub data Dir : Type 0 where
  left right up down : Dir

abbrev pub width : ℕ
width = 11

abbrev pub height : ℕ
height = 11

abbrev pub width_pwr_two : ℕ
width_pwr_two = 16

pub is_empty : Item → Bool
is_empty empty = true
is_empty _ = false

pub is_king : Item → Bool
is_king white_king = true
is_king _ = false

-- `IS_PIECE`
pub is_piece : Item → Bool
is_piece empty = false
is_piece invalid = false
is_piece _ = true

pub is_throne : ℕ → ℕ → Bool
is_throne x y = (x == width / 2) && (y == height / 2)

pub is_corner : ℕ → ℕ → Bool
is_corner x y =
    ((x == 0) && (y == 0))
    || (((x == width - 1) && (y == 0))
        || (((x == 0) && (y == height - 1)) || ((x == width - 1) && (y == height - 1))))

pub playfield_item_is_valid : ℕ → ℕ → Bool
playfield_item_is_valid x y = not (leb width x || leb height y)

pub playfield_get_item : List Item → ℕ → ℕ → Item
unfolding playfield_item_is_valid
playfield_get_item field x y =
    if playfield_item_is_valid x y then get_or field (y * width_pwr_two + x) invalid else invalid

pub playfield_set_item : List Item → Item → ℕ → ℕ → List Item
unfolding playfield_item_is_valid
playfield_set_item field item x y =
    if playfield_item_is_valid x y then set field (y * width_pwr_two + x) item else field

-- `dx_dy_to_dir`, where the two squares differ.
pub dx_dy_to_dir : ℕ → ℕ → ℕ → ℕ → Dir
dx_dy_to_dir sx sy dx dy =
    if ltb dx sx then left else if ltb sx dx then right else if ltb dy sy then up else down

-- `sx + dir_to_dx(dir)` and `sy + dir_to_dy(dir)`, towards a square that is not passed.
pub step : Dir → ℕ → ℕ → ℕ × ℕ
step left x y = (x - 1, y)
step right x y = (x + 1, y)
step up x y = (x, y - 1)
step down x y = (x, y + 1)

-- The loop of `playfield_can_move_xy`.
pub path_loop : ℕ → List Item → Dir → ℕ → ℕ → ℕ → ℕ → Option Bool
unfolding step playfield_get_item is_empty
path_loop zero field dir sx sy dx dy = none
path_loop (suc k) field dir sx sy dx dy =
    let (x, y) = step dir sx sy in
    let rest = path_loop k field dir x y dx dy in
    if (sx == dx) && (sy == dy)
    then some true
    else if is_empty (playfield_get_item field x y)
    then rest
    else some false

pub distance : ℕ → ℕ → ℕ
distance a b = (a - b) + (b - a)

-- With a round for each square of the way, and one more.
pub playfield_can_move_xy : List Item → ℕ → ℕ → ℕ → ℕ → Option Bool
unfolding is_piece playfield_get_item is_corner is_throne is_king dx_dy_to_dir path_loop distance
playfield_can_move_xy field sx sy dx dy =
    let item = playfield_get_item field sx sy in
    if not (is_piece item)
    then some false
    else if not (((sy == dy) && leb 1 (distance sx dx)) || ((sx == dx) && leb 1 (distance sy dy)))
    then some false
    else if (not (is_king item) && is_corner dx dy) || is_throne dx dy
    then some false
    else path_loop (suc (distance sx dx + distance sy dy)) field (dx_dy_to_dir sx sy dx dy) sx sy dx
        dy

abbrev pub playfield_initial : List Item
playfield_initial =
    empty ∷ empty ∷ empty ∷ black ∷ black ∷ black ∷ black ∷ black ∷ empty ∷ empty ∷ empty ∷ invalid
    ∷ invalid ∷ invalid ∷ invalid ∷ invalid ∷ empty ∷ empty ∷ empty ∷ empty ∷ empty ∷ black ∷ empty
    ∷ empty ∷ empty ∷ empty ∷ empty ∷ invalid ∷ invalid ∷ invalid ∷ invalid ∷ invalid ∷ empty
    ∷ empty ∷ empty ∷ empty ∷ empty ∷ empty ∷ empty ∷ empty ∷ empty ∷ empty ∷ empty ∷ invalid
    ∷ invalid ∷ invalid ∷ invalid ∷ invalid ∷ black ∷ empty ∷ empty ∷ empty ∷ empty ∷ white ∷ empty
    ∷ empty ∷ empty ∷ empty ∷ black ∷ invalid ∷ invalid ∷ invalid ∷ invalid ∷ invalid ∷ black
    ∷ empty ∷ empty ∷ empty ∷ white ∷ white ∷ white ∷ empty ∷ empty ∷ empty ∷ black ∷ invalid
    ∷ invalid ∷ invalid ∷ invalid ∷ invalid ∷ black ∷ black ∷ empty ∷ white ∷ white ∷ white_king
    ∷ white ∷ white ∷ empty ∷ black ∷ black ∷ invalid ∷ invalid ∷ invalid ∷ invalid ∷ invalid
    ∷ black ∷ empty ∷ empty ∷ empty ∷ white ∷ white ∷ white ∷ empty ∷ empty ∷ empty ∷ black
    ∷ invalid ∷ invalid ∷ invalid ∷ invalid ∷ invalid ∷ black ∷ empty ∷ empty ∷ empty ∷ empty
    ∷ white ∷ empty ∷ empty ∷ empty ∷ empty ∷ black ∷ invalid ∷ invalid ∷ invalid ∷ invalid
    ∷ invalid ∷ empty ∷ empty ∷ empty ∷ empty ∷ empty ∷ empty ∷ empty ∷ empty ∷ empty ∷ empty
    ∷ empty ∷ invalid ∷ invalid ∷ invalid ∷ invalid ∷ invalid ∷ empty ∷ empty ∷ empty ∷ empty
    ∷ empty ∷ black ∷ empty ∷ empty ∷ empty ∷ empty ∷ empty ∷ invalid ∷ invalid ∷ invalid ∷ invalid
    ∷ invalid ∷ empty ∷ empty ∷ empty ∷ black ∷ black ∷ black ∷ black ∷ black ∷ empty ∷ empty
    ∷ empty ∷ invalid ∷ invalid ∷ invalid ∷ invalid ∷ invalid ∷ []
