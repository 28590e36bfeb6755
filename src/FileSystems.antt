-- ===== src/FileSystems.antt =====
-- libs/src/libcrt0/fileops.c: the table of file systems, and `fopen`, which chooses one of them.
--
-- A string is its characters, without the NUL. No URI is NULL: `register_op` compares the URI of an
-- entry with every later one. Memory does not run out: the program panics then. The comparison with
-- the NULL that ends the table of modes is left out.
pub mod Choice
mod Tests
use cibyl.Base.{
  ℕ, zero, suc, ◌+◌, Bool, true, false, not, ◌&&◌, ◌||◌, Option, none, some, List, [], ◌∷◌, ◌++◌,
  ◌==◌, if◌then◌else◌, length, drop,
}
use cibyl.Base.Int.{ℤ, ltb_ℤ}

-- `cibyl_fops_t`, as far as the table needs it; its functions are told apart by a number.
pub record FileSystem : Type 0 where
  pub number : ℕ
  pub keep_uri : Bool
  pub priority : ℤ

-- A place of the two arrays of `all_fops_t`.
pub record Entry : Type 0 where
  pub uri : List ℕ
  pub ops : FileSystem

pub record AllFops : Type 0 where
  pub table : List Entry
  pub fallback : Option FileSystem

-- `strcmp(a, b) == 0`
abbrev pub same : List ℕ → List ℕ → Bool
same [] [] = true
same (x ∷ xs) (y ∷ ys) = (x == y) && same xs ys
same _ _ = false

-- `strncmp(uri, path, strlen(uri)) == 0`
abbrev pub is_prefix : List ℕ → List ℕ → Bool
is_prefix [] path = true
is_prefix (x ∷ uri) [] = false
is_prefix (x ∷ uri) (y ∷ path) = (x == y) && is_prefix uri path

-- The loop of `register_op` and the two writes: an entry is replaced, or a new one is made at the
-- end.
pub put : List ℕ → FileSystem → List Entry → List Entry
put uri fop [] = record { uri = uri; ops = fop } ∷ []
put uri fop (e ∷ table) =
    let rest = put uri fop table in
    if same uri e.uri && ltb_ℤ e.ops.priority fop.priority
    then record { uri = uri; ops = fop } ∷ table
    else e ∷ rest

unfoldable pub register_op : AllFops → List ℕ → FileSystem → Bool → AllFops
unfolding put
register_op f uri fop is_default = record {
  table = put uri fop f.table;
  fallback = if is_default then some fop else f.fallback;
}

-- The URI and the operations of the first entry that fits.
pub get_fops_from_uri : List Entry → List ℕ → Option Entry
get_fops_from_uri [] path = none
get_fops_from_uri (e ∷ table) path =
    let rest = get_fops_from_uri table path in if is_prefix e.uri path then some e else rest

pub data OpenMode : Type 0 where
  read read_write write append read_append read_truncate : OpenMode

-- `cibyl_file_get_mode`: no two strings of the table are the same. `none` is the exception.
pub get_mode : List ℕ → Option OpenMode
get_mode m =
    if same m (b'r' ∷ []) || same m (b'r' ∷ b'b' ∷ [])
    then some read
    else if same m (b'r' ∷ b'w' ∷ []) || same m (b'r' ∷ b'+' ∷ [])
    then some read_write
    else if same m (b'w' ∷ []) || same m (b'w' ∷ b'b' ∷ [])
    then some write
    else if same m (b'a' ∷ [])
    then some append
    else if same m (b'a' ∷ b'+' ∷ [])
    then some read_append
    else if same m (b'w' ∷ b'+' ∷ [])
    then some read_truncate
    else none

-- What `fopen` does: an exception, NULL, or a call of `open` of a file system.
pub data Opened : Type 0 where
  unsupported null : Opened
  opens : FileSystem → List ℕ → OpenMode → Opened

abbrev pub open_default : List ℕ → OpenMode → Option FileSystem → Opened
open_default path mode none = null
open_default path mode (some g) = opens g path mode

abbrev pub open_with : AllFops → List ℕ → OpenMode → Option Entry → Opened
open_with f path mode none = open_default path mode f.fallback
open_with f path mode (some e) =
    opens e.ops (drop (if e.ops.keep_uri then 0 else length e.uri) path) mode

abbrev pub open_mode : AllFops → List ℕ → Option Entry → Option OpenMode → Opened
open_mode f path e none = unsupported
open_mode f path e (some mode) = open_with f path mode e

unfoldable pub fopen : AllFops → List ℕ → List ℕ → Opened
unfolding get_mode get_fops_from_uri
fopen f path in_mode = open_mode f path (get_fops_from_uri f.table path) (get_mode in_mode)
