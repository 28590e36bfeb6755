-- ===== src/Files/Tests.antt =====
-- Witnesses: a file of three bytes.
use cibyl.Base.{
  ℕ, ◌+◌, ◌*◌, ◌/◌, ◌<◌, ◌≡◌, sym, ap, false, Option, none, some, ltb, if◌then◌else◌, Bool-cases,
  inl, inr, ◌⊎◌, arith,
}
use cibyl.Files.{File, Transfer, fread, fwrite, fseek, seek_set, Block, MemoryFile, memory_fops}
use cibyl.Files.Contents.{IsValid, Reallocates, Loses, Reads, Writes, fread-Reads, fwrite-Writes}
use cibyl.Files.Streams.{fread-fwrite}

-- A `realloc` that has blocks of up to 8000 bytes, rounded up to a multiple of 16.
abbrev resize : Block → ℕ → Option Block
resize b n =
    if ltb n 8000 then some (record { size = (n + 15) / 16 * 16; bytes = b.bytes }) else none

resize-Reallocates : Reallocates resize
resize-Reallocates b n b' e = elim (Bool-cases (ltb n 8000)) [
  | inl fits ↦
      let same : record { size = (n + 15) / 16 * 16; bytes = b.bytes } ≡ b' = cc (rw fits at e) in
      (
        (let sized = ap Block.size same in omega arith),
        λ i h k. ap (λ (c : Block). c.bytes i) (sym same),
      )
  | inr large ↦ absurd (cc (rw large at e))
]

abbrev short_file : File MemoryFile
short_file = record {
  fptr = 2;
  vfptr = 1;
  file_size = 3;
  eof = false;
  error = false;
  priv = record { block = record { size = 4; bytes = λ i. 65 + i }; allocated_size = 4 };
}

short_file-IsValid : IsValid short_file
short_file-IsValid = record {
  in_file = omega arith;
  aims_in_file = omega arith;
  in_block = omega arith;
  backed = omega arith;
  small = omega arith;
}

fread-Reads_example :
    (t : Transfer MemoryFile) × (fread (memory_fops resize) 1 10 short_file ≡ some t)
    × Reads short_file 10 t
    × IsValid t.file
fread-Reads_example =
    fread-Reads resize short_file 10 short_file-IsValid (omega arith) (omega arith)

fwrite-Writes_example :
    (t : Transfer MemoryFile) × (fwrite (memory_fops resize) (λ i. 97 + i) 1 10 short_file ≡ some t)
    × (Loses resize short_file 10 t ⊎ (Writes short_file (λ i. 97 + i) 10 t × IsValid t.file))
fwrite-Writes_example =
    fwrite-Writes resize short_file (λ i. 97 + i) 10 resize-Reallocates short_file-IsValid
      (omega arith) (omega arith)

fread-fwrite_example :
    (w : Transfer MemoryFile) × (fwrite (memory_fops resize) (λ i. 97 + i) 1 10 short_file ≡ some w)
    × (Loses resize short_file 10 w
        ⊎ ((t : Transfer MemoryFile) × (fread (memory_fops resize) 1 10 (fseek (w.file) 2 seek_set)
              ≡ some t)
            × (t.count ≡ 10)
            × ((i : ℕ) → i < 10 → t.bytes i ≡ 97 + i)))
fread-fwrite_example =
    fread-fwrite resize short_file (λ i. 97 + i) 10 resize-Reallocates short_file-IsValid
      (omega arith) (omega arith)
