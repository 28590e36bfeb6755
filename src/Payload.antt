-- ===== src/Payload.antt =====
-- The functions of the C library that move the contents of allocated blocks: `realloc` of
-- libs/src/libc/smalloc.c and `strdup` of libs/src/libc/string.c.
--
-- The headers of the blocks and the bytes of their payloads are two parts of the state: a header is
-- written by the allocator only, and lies in no payload (`Smalloc.Tiling`).
pub mod Moves
mod Tests
use cibyl.Base.{ℕ, ◌+◌, ◌%◌, ◌^◌, Option, none, some, ◌==◌, if◌then◌else◌, ◌>>=◌}
use cibyl.Memory.{Memory}
use cibyl.Smalloc.{Heap, word, malloc, free}
use cibyl.Strings.{memcpy, strlen, strcpy}

pub record Process : Type 0 where
  pub memory : Memory
  pub heap : Heap

-- The old contents are moved, and the old block is given back.
move_block : ℕ → ℕ → ℕ → Process → Option (ℕ × Process)
move_block ptr out size st = if ptr == 0 then some (out, st) else do
  m ← memcpy st.memory out ptr size
  g ← free ptr st.heap
  some (out, record { memory = m; heap = g })

pub realloc : ℕ → ℕ → Process → Option (ℕ × Process)
unfolding move_block
realloc ptr size st = do
  (out, h) ← malloc size st.heap
  (if out == 0
      then some (0, record st { heap = h })
      else move_block ptr out size (record st { heap = h }))

copy_string : ℕ → ℕ → ℕ → Process → Option (ℕ × Process)
copy_string k str s st = do m ← strcpy k st.memory str s; some (str, record st { memory = m })

-- The fuel is that of `strlen` and of `strcpy`.
pub strdup : ℕ → ℕ → Process → Option (ℕ × Process)
unfolding copy_string
strdup k s st = do
  n ← strlen k st.memory s
  (str, h) ← malloc ((n + 1) % word) st.heap
  (if str == 0
      then some (0, record st { heap = h })
      else copy_string k str s (record st { heap = h }))
