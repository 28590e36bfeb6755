-- ===== src/FileSystems/Choice.antt =====
-- Which file system a path is opened with, after any registrations.
use cibyl.Base.{
  ℕ, ◌≡◌, Bool, true, false, Option, none, some, List, [], ◌∷◌, if◌then◌else◌, length, drop,
}
use cibyl.Base.Int.{ltb_ℤ}
use cibyl.FileSystems.{
  FileSystem, Entry, AllFops, same, is_prefix, register_op, OpenMode, Opened, null, opens,
}

-- The arguments of one registration.
pub record Registration : Type 0 where
  pub uri : List ℕ
  pub fop : FileSystem
  pub is_default : Bool

unfoldable pub register_all : AllFops → List Registration → AllFops
register_all f [] = f
register_all f (r ∷ rs) = register_all (register_op f r.uri r.fop r.is_default) rs

abbrev pub no_fops : AllFops
no_fops = record { table = []; fallback = none }

-- The new one of two file systems for a URI has to have the higher priority.
abbrev pub better : Option FileSystem → FileSystem → FileSystem
better none g = g
better (some f) g = if ltb_ℤ f.priority g.priority then g else f

-- The file system of highest priority among those that are registered for a URI, the first one if
-- there are several.
abbrev pub best : List ℕ → Option FileSystem → List Registration → Option FileSystem
best uri o [] = o
best uri o (r ∷ rs) = best uri (if same r.uri uri then some (better o r.fop) else o) rs

abbrev pub last_default : Option FileSystem → List Registration → Option FileSystem
last_default o [] = o
last_default o (r ∷ rs) = last_default (if r.is_default then some r.fop else o) rs

-- The first entry for a URI.
abbrev first_of : List Entry → List ℕ → Option FileSystem
first_of [] uri = none
first_of (e ∷ table) uri =
    let rest = first_of table uri in if same e.uri uri then some e.ops else rest

-- What `fopen` should do after these registrations.
pub data IsChosen (rs : List Registration) (path : List ℕ) (mode : OpenMode) (o : Opened)
    : Type 0 where
  by_uri :
      (v : List ℕ) (g : FileSystem)
      → is_prefix v path ≡ true
      → best v none rs ≡ some g
      → o ≡ opens g (drop (if g.keep_uri then 0 else length v) path) mode
      → IsChosen rs path mode o
  by_default :
      (g : FileSystem)
      → ((v : List ℕ) (f : FileSystem) → best v none rs ≡ some f → is_prefix v path ≡ false)
      → last_default none rs ≡ some g
      → o ≡ opens g path mode
      → IsChosen rs path mode o
  nothing :
      ((v : List ℕ) (f : FileSystem) → best v none rs ≡ some f → is_prefix v path ≡ false)
      → last_default none rs ≡ none
      → o ≡ null
      → IsChosen rs path mode o
