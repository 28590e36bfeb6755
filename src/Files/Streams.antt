-- ===== src/Files/Streams.antt =====
-- Reading back what was written.
use cibyl.Base.{
  ℕ, ◌+◌, ◌-◌, ◌%◌, ◌<◌, ◌≡◌, refl, ap, ◌∙◌, true, ◌&&◌, ◌⊎◌, inl, inr, Option, some, ltb, leb,
  if◌then◌else◌, arith,
}
use cibyl.Files.{
  word_size, File, Transfer, fread, fwrite, fseek, seek_set, Block, MemoryFile, memory_fops,
}
use cibyl.Files.Contents.{IsValid, Reallocates, Loses, Writes, byte, fread-Reads, fwrite-Writes}

-- After `fwrite` of `n` bytes and an `fseek` back to where it started, `fread` of `n` bytes returns
-- the same bytes, on a valid stream in memory, where the counters do not wrap; or the file needed a
-- larger block and `realloc` had none.
pub fread-fwrite :
    (realloc : Block → ℕ → Option Block) (fp : File MemoryFile) (ptr : ℕ → ℕ) (n : ℕ)
    → Reallocates realloc
    → IsValid fp
    → 0 < n
    → fp.fptr + n + 4096 < word_size
    → (w : Transfer MemoryFile) × (fwrite (memory_fops realloc) ptr 1 n fp ≡ some w)
      × (Loses realloc fp n w
          ⊎ ((t : Transfer MemoryFile) × (fread
                  (memory_fops realloc)
                  1
                  n
                  (fseek (w.file) fp.fptr seek_set)
                ≡ some t)
              × (t.count ≡ n)
              × ((i : ℕ) → i < n → t.bytes i ≡ ptr i)))
unfolding fseek
fread-fwrite realloc fp ptr n memory v positive fits =
    let (w, wrote, ends) = fwrite-Writes realloc fp ptr n memory v positive fits in
    (w, wrote, elim ends [ inl lost ↦ inl lost | inr (is, ok) ↦ inr (reads w is ok) ])
  where
    chosen :
        (i : ℕ)
        → i < n
        → (if leb fp.fptr (fp.fptr + i) && ltb (fp.fptr + i) (fp.fptr + n)
            then ptr (fp.fptr + i - fp.fptr)
            else byte fp (fp.fptr + i))
          ≡ ptr i
    chosen i h =
        let lower : leb fp.fptr (fp.fptr + i) ≡ true = ground arith in
        let upper : ltb (fp.fptr + i) (fp.fptr + n) ≡ true = ground arith in
        let place : fp.fptr + i - fp.fptr ≡ i = omega arith in rw (lower, upper, place) refl

    reads :
        (w : Transfer MemoryFile)
        → Writes fp ptr n w
        → IsValid w.file
        → (t : Transfer MemoryFile) × (fread
              (memory_fops realloc)
              1
              n
              (fseek (w.file) fp.fptr seek_set)
            ≡ some t)
          × (t.count ≡ n)
          × ((i : ℕ) → i < n → t.bytes i ≡ ptr i)
    reads w is ok =
        let start : fp.fptr % word_size ≡ fp.fptr = omega arith in
        let size = is.size_is in
        let back = record (w.file) { vfptr = fp.fptr } in
        let ok' : IsValid back = record {
          in_file = ok.in_file;
          aims_in_file = omega arith;
          in_block = ok.in_block;
          backed = ok.backed;
          small = ok.small;
        } in
        let (t, read, got, after) = fread-Reads realloc back n ok' positive (omega arith) in
        let seeks : fseek (w.file) fp.fptr seek_set ≡ back =
          ap (λ (k : ℕ). record (w.file) { vfptr = k }) start in
        (
          t,
          ap (fread (memory_fops realloc) 1 n) seeks ∙ read,
          got.count_is ∙ omega arith,
          λ i h. got.bytes_are i ∙ is.bytes_are (fp.fptr + i) (omega arith) ∙ chosen i h,
        )
