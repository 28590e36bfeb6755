-- ===== src/FileSystems/Tests.antt =====
-- Examples for the table of file systems of libs/src/libcrt0/fileops.c.
use cibyl.Base.{◌≡◌, refl, true, false, List, [], ◌∷◌}
use cibyl.Base.Int.{pos}
use cibyl.FileSystems.{FileSystem, read, opens, fopen, register_op}
use cibyl.FileSystems.Choice.{Registration, register_all, no_fops}

abbrev slow : FileSystem
slow = record { number = 1; keep_uri = false; priority = pos 1 }

abbrev fast : FileSystem
fast = record { number = 2; keep_uri = false; priority = pos 5 }

abbrev whole : FileSystem
whole = record { number = 3; keep_uri = true; priority = pos 0 }

-- Two file systems for "f:", and the default for "h:".
abbrev registrations : List Registration
registrations =
    record { uri = b'f' ∷ b':' ∷ []; fop = slow; is_default = false }
    ∷ record { uri = b'h' ∷ b':' ∷ []; fop = whole; is_default = true }
    ∷ record { uri = b'f' ∷ b':' ∷ []; fop = fast; is_default = false }
    ∷ []

opened_fast :
    fopen (register_all no_fops registrations) (b'f' ∷ b':' ∷ b'a' ∷ []) (b'r' ∷ b'b' ∷ [])
    ≡ opens fast (b'a' ∷ []) read
unfolding fopen register_all register_op
opened_fast = refl
