-- ===== src/Tafl/Rook.antt =====
-- The way of a piece in examples/j2me/tafl-client/src/playfield.c.
use cibyl.Base.{
  ℕ, zero, suc, ◌+◌, ◌-◌, ◌≡◌, refl, sym, ap, Bool, true, false, not, ◌&&◌, ◌||◌, Option, some,
  List, [], ◌∷◌, ltb, leb, ◌==◌, if◌then◌else◌, arith, inl, inr, Bool-cases,
}
use cibyl.Tafl.{
  Item, left, right, up, down, is_empty, is_king, is_piece, is_corner, is_throne,
  playfield_get_item, dx_dy_to_dir, step, path_loop, distance, playfield_can_move_xy,
}

-- The `n` coordinates above `a`, and those below it, nearest first.
abbrev pub ups : ℕ → ℕ → List ℕ
ups a zero = []
ups a (suc n) = (a + 1) ∷ ups (a + 1) n

abbrev pub downs : ℕ → ℕ → List ℕ
downs a zero = []
downs a (suc n) = (a - 1) ∷ downs (a - 1) n

-- The coordinates behind `a` up to `b`.
abbrev pub between : ℕ → ℕ → List ℕ
between a b = if ltb a b then ups a (b - a) else downs a (a - b)

abbrev pub all_empty : (ℕ → Item) → List ℕ → Bool
all_empty at [] = true
all_empty at (i ∷ is) = is_empty (at i) && all_empty at is

-- The way of a rook that leaves its square: the squares behind it, up to the last, are empty.
abbrev pub rook_way : List Item → ℕ → ℕ → ℕ → ℕ → Bool
rook_way field sx sy dx dy =
    if sy == dy
    then not (sx == dx) && all_empty (λ x. playfield_get_item field x sy) (between sx dx)
    else (sx == dx) && all_empty (λ y. playfield_get_item field sx y) (between sy dy)

-- Nobody may stop on the throne, and only the king on a corner.
abbrev pub may_stop : Item → ℕ → ℕ → Bool
may_stop item x y = not (is_throne x y) && (is_king item || not (is_corner x y))

next :
    (b : Bool) {c : Bool} {o : Option Bool}
    → o ≡ some c
    → (if b then o else some false) ≡ some (b && c)
next true h = h
next false h = refl

never : (b : Bool) → (b && false) ≡ false
never true = refl
never false = refl

-- The loop in each direction, with as many rounds as there are squares and one more.
module _ (field : List Item) where
  right_loop :
      (n x y b : ℕ)
      → b ≡ x + n
      → path_loop (suc n) field right x y b y
        ≡ some (all_empty (λ i. playfield_get_item field i y) (ups x n))
  unfolding path_loop step
  right_loop zero x y b e = ground arith
  right_loop (suc n) x y b e =
      let more : (x == b) ≡ false = ground arith in
      rw more (
        next (is_empty (playfield_get_item field (x + 1) y))
          (right_loop n (x + 1) y b (omega arith)))

  left_loop :
      (n x y b : ℕ)
      → x ≡ b + n
      → path_loop (suc n) field left x y b y
        ≡ some (all_empty (λ i. playfield_get_item field i y) (downs x n))
  unfolding path_loop step
  left_loop zero x y b e = ground arith
  left_loop (suc n) x y b e =
      let more : (x == b) ≡ false = ground arith in
      rw more (
        next (is_empty (playfield_get_item field (x - 1) y))
          (left_loop n (x - 1) y b (omega arith)))

  down_loop :
      (n x y b : ℕ)
      → b ≡ y + n
      → path_loop (suc n) field down x y x b
        ≡ some (all_empty (λ i. playfield_get_item field x i) (ups y n))
  unfolding path_loop step
  down_loop zero x y b e = ground arith
  down_loop (suc n) x y b e =
      let more : (y == b) ≡ false = ground arith in
      rw (more, never (x == x))
        (next (is_empty (playfield_get_item field x (y + 1)))
          (down_loop n x (y + 1) b (omega arith)))

  up_loop :
      (n x y b : ℕ)
      → y ≡ b + n
      → path_loop (suc n) field up x y x b
        ≡ some (all_empty (λ i. playfield_get_item field x i) (downs y n))
  unfolding path_loop step
  up_loop zero x y b e = ground arith
  up_loop (suc n) x y b e =
      let more : (y == b) ≡ false = ground arith in
      rw (more, never (x == x))
        (next (is_empty (playfield_get_item field x (y - 1))) (up_loop n x (y - 1) b (omega arith)))

abbrev rook_like : ℕ → ℕ → ℕ → ℕ → Bool
rook_like sx sy dx dy =
    ((sy == dy) && leb 1 (distance sx dx)) || ((sx == dx) && leb 1 (distance sy dy))

rook_way-other :
    (field : List Item) (sx sy dx dy : ℕ)
    → rook_like sx sy dx dy ≡ false
    → rook_way field sx sy dx dy ≡ false
unfolding distance
rook_way-other field sx sy dx dy h = elim (Bool-cases (sy == dy)) [
  | inl row ↦ let same : (sx == dx) ≡ true = ground arith in rw (row, same) refl
  | inr no_row ↦ let no_column : (sx == dx) ≡ false = ground arith in rw (no_row, no_column) refl
]

path_loop-rook_way :
    (field : List Item) (sx sy dx dy : ℕ)
    → rook_like sx sy dx dy ≡ true
    → path_loop (suc (distance sx dx + distance sy dy)) field (dx_dy_to_dir sx sy dx dy) sx sy dx dy
      ≡ some (rook_way field sx sy dx dy)
unfolding dx_dy_to_dir distance
path_loop-rook_way field sx sy dx dy h = elim (Bool-cases (sy == dy)) [
  | inl row ↦
      let apart : (sx == dx) ≡ false = ground arith in
      let same : sy ≡ dy = ground arith in
      elim (Bool-cases (ltb sx dx)) [
        | inl less ↦
            let back : ltb dx sx ≡ false = ground arith in
            let rounds : sx - dx + (dx - sx) + (sy - dy + (dy - sy)) ≡ dx - sx = ground arith in
            rw (row, apart, back, less, rounds, sym same)
              (right_loop field (dx - sx) sx sy dx (ground arith))
        | inr not_less ↦
            let back : ltb dx sx ≡ true = ground arith in
            let rounds : sx - dx + (dx - sx) + (sy - dy + (dy - sy)) ≡ sx - dx = ground arith in
            rw (row, apart, back, not_less, rounds, sym same)
              (left_loop field (sx - dx) sx sy dx (ground arith))
      ]
  | inr no_row ↦
      let column : (sx == dx) ≡ true = ground arith in
      let same : sx ≡ dx = ground arith in
      let back : ltb dx sx ≡ false = ground arith in
      let forth : ltb sx dx ≡ false = ground arith in
      elim (Bool-cases (ltb sy dy)) [
        | inl less ↦
            let up : ltb dy sy ≡ false = ground arith in
            let rounds : sx - dx + (dx - sx) + (sy - dy + (dy - sy)) ≡ dy - sy = ground arith in
            rw (no_row, column, back, forth, up, less, rounds, sym same)
              (down_loop field (dy - sy) sx sy dy (ground arith))
        | inr not_less ↦
            let up : ltb dy sy ≡ true = ground arith in
            let rounds : sx - dx + (dx - sx) + (sy - dy + (dy - sy)) ≡ sy - dy = ground arith in
            rw (no_row, column, back, forth, up, not_less, rounds, sym same)
              (up_loop field (sy - dy) sx sy dy (ground arith))
      ]
]

guards :
    (p r k c t w : Bool) (o : Option Bool)
    → (r ≡ false → w ≡ false)
    → (r ≡ true → o ≡ some w)
    → (if not p
        then some false
        else if not r
        then some false
        else if (not k && c) || t
        then some false
        else o)
      ≡ some (p && ((not t && (k || not c)) && w))
guards false r k c t w o f g = refl
guards true false k c t w o f g = rw (f refl) (ap some (sym (never (not t && (k || not c)))))
guards true true k c true w o f g = ground arith
guards true true true c false w o f g = g refl
guards true true false true false w o f g = refl
guards true true false false false w o f g = g refl

-- `playfield_can_move_xy` ends, and allows a move exactly if a piece stands on the first square, it
-- may stop on the second, and it gets there as a rook does, over empty squares.
pub playfield_can_move_xy_lem :
    (field : List Item) (sx sy dx dy : ℕ)
    → let item = playfield_get_item field sx sy in
      playfield_can_move_xy field sx sy dx dy
      ≡ some (is_piece item && (may_stop item dx dy && rook_way field sx sy dx dy))
unfolding playfield_can_move_xy
playfield_can_move_xy_lem field sx sy dx dy =
    guards (is_piece (playfield_get_item field sx sy)) (rook_like sx sy dx dy)
      (is_king (playfield_get_item field sx sy)) (is_corner dx dy) (is_throne dx dy)
      (rook_way field sx sy dx dy) _ (rook_way-other field sx sy dx dy)
      (path_loop-rook_way field sx sy dx dy)
