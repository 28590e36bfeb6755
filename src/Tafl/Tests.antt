-- ===== src/Tafl/Tests.antt =====
-- The initial board of tafl, and moves on it.
use cibyl.Base.{◌≡◌, refl, true, false, some, ◌&&◌}
use cibyl.Tafl.{playfield_get_item, playfield_can_move_xy, playfield_initial, is_piece}
use cibyl.Tafl.Rook.{may_stop, rook_way, playfield_can_move_xy_lem}

-- The black piece at 3, 0 goes down to 3, 2.
playfield_can_move_xy_lem_example :
    let item = playfield_get_item playfield_initial 3 0 in
    playfield_can_move_xy playfield_initial 3 0 3 2
    ≡ some (is_piece item && (may_stop item 3 2 && rook_way playfield_initial 3 0 3 2))
playfield_can_move_xy_lem_example = playfield_can_move_xy_lem playfield_initial 3 0 3 2

down_two : playfield_can_move_xy playfield_initial 3 0 3 2 ≡ some true
unfolding playfield_can_move_xy
down_two = refl

-- It cannot go to the corner, nor pass the piece at 3, 5.
no_corner : playfield_can_move_xy playfield_initial 3 0 0 0 ≡ some false
unfolding playfield_can_move_xy
no_corner = refl

blocked : playfield_can_move_xy playfield_initial 3 0 3 6 ≡ some false
unfolding playfield_can_move_xy
blocked = refl
