-- ===== src/Files.antt =====
-- libs/src/libcrt0/fileops.c and memory-filesystem.c: streams over the operations of a file system,
-- and the file system whose files are in memory.
--
-- A stream is its counters and the private part of its file system. Bytes that are read or written
-- are a function of their place, with a count beside it. An access outside a block is `none`.
pub mod Streams
pub mod Contents
mod Tests
use cibyl.Base.{
  ℕ, ◌+◌, ◌-◌, ◌*◌, ◌/◌, ◌%◌, ◌^◌, Bool, true, false, ◌&&◌, Option, none, some, ltb, leb, ◌==◌,
  if◌then◌else◌, ◌>>=◌, min, max,
}

abbrev pub word_size : ℕ
word_size = 2 ^ 32

-- `FILE`, without the pointer to its operations.
pub record File (P : Type 0) : Type 0 where
  pub fptr : ℕ
  pub vfptr : ℕ
  pub file_size : ℕ
  pub eof : Bool
  pub error : Bool
  pub priv : P

-- What an operation returns: a count, bytes that were read, and the stream.
pub record Transfer (P : Type 0) : Type 0 where
  pub count : ℕ
  pub bytes : ℕ → ℕ
  pub file : File P

-- `cibyl_fops_t`, as far as reading and writing call it.
pub record Fops (P : Type 0) : Type 0 where
  pub read : File P → ℕ → Option (Transfer P)
  pub write : File P → (ℕ → ℕ) → ℕ → Option (Transfer P)
  pub seek : File P → ℕ → File P

pub data Whence : Type 0 where
  seek_set seek_cur seek_end : Whence

module _ {P : Type 0} (ops : Fops P) where
  abbrev at_position : File P → File P
  at_position fp =
      if fp.fptr == fp.vfptr
      then fp
      else record (ops.seek fp ((fp.vfptr + word_size - fp.fptr) % word_size)) { fptr = fp.vfptr }

  -- The counters move on, and the items are counted.
  abbrev after_read : ℕ → Transfer P → Transfer P
  after_read in_size t =
      let next = (t.file.fptr + t.count) % word_size in
      record t { count = t.count / in_size; file = record (t.file) { fptr = next; vfptr = next } }

  unfoldable pub fread : ℕ → ℕ → File P → Option (Transfer P)
  fread in_size nmemb fp =
      let size = in_size * nmemb % word_size in
      if size == 0
      then some (record { count = 0; bytes = λ i. 0; file = fp })
      else do t ← ops.read (at_position fp) size; some (after_read in_size t)

  abbrev after_write : ℕ → Transfer P → Transfer P
  after_write in_size t =
      let items = t.count / in_size in
      let next = (t.file.fptr + items) % word_size in
      record t { count = items; file = record (t.file) { fptr = next; vfptr = next } }

  unfoldable pub fwrite : (ℕ → ℕ) → ℕ → ℕ → File P → Option (Transfer P)
  fwrite ptr in_size nmemb fp =
      let size = in_size * nmemb % word_size in
      if size == 0
      then some (record { count = 0; bytes = λ i. 0; file = fp })
      else do t ← ops.write fp ptr size; some (after_write in_size t)

module _ {P : Type 0} where
  -- The offset is the bit pattern of a `long`.
  unfoldable pub fseek : File P → ℕ → Whence → File P
  fseek fp offset seek_set = record fp { vfptr = offset % word_size }
  fseek fp offset seek_cur = record fp { vfptr = (fp.vfptr + offset) % word_size }
  fseek fp offset seek_end = record fp { vfptr = (fp.file_size + offset) % word_size }

  abbrev pub ftell : File P → ℕ
  ftell fp = fp.vfptr

  abbrev pub rewind : File P → File P
  rewind fp = fseek fp 0 seek_set

  abbrev pub clearerr : File P → File P
  clearerr fp = record fp { eof = false; error = false }

  abbrev pub ferror : File P → Bool
  ferror fp = fp.error

  abbrev pub feof : File P → Bool
  feof fp = fp.eof

-- A block of the heap.
pub record Block : Type 0 where
  pub size : ℕ
  pub bytes : ℕ → ℕ

-- `NOPH_Memory_file_t`, less what `close` writes back.
pub record MemoryFile : Type 0 where
  pub block : Block
  pub allocated_size : ℕ

abbrev pub seek : File MemoryFile → ℕ → File MemoryFile
seek fp offset = fp

unfoldable pub read : File MemoryFile → ℕ → Option (Transfer MemoryFile)
read fp in_size =
    let size = min in_size ((fp.file_size + word_size - fp.fptr) % word_size) in
    if leb (fp.fptr + size) fp.priv.block.size
    then some (record {
      count = size;
      bytes = λ i. fp.priv.block.bytes (fp.fptr + i);
      file = record fp { eof = if leb fp.file_size fp.fptr then true else fp.eof };
    })
    else none

-- `memcpy` to the block.
abbrev pub copied : Block → ℕ → (ℕ → ℕ) → ℕ → Block
copied b p ptr n = record b {
  bytes = λ i. if leb p i && ltb i (p + n) then ptr (i - p) else b.bytes i;
}

abbrev pub put : File MemoryFile → (ℕ → ℕ) → ℕ → Option (Transfer MemoryFile)
put fp ptr in_size =
    if leb (fp.fptr + in_size) fp.priv.block.size
    then some (record {
      count = in_size;
      bytes = λ i. 0;
      file = record fp {
        priv = record (fp.priv) { block = copied fp.priv.block fp.fptr ptr in_size };
      };
    })
    else none

abbrev pub write_extended :
    Transfer MemoryFile → Option (File MemoryFile) → (ℕ → ℕ) → ℕ → Option (Transfer MemoryFile)
write_extended lost none ptr in_size = some lost
write_extended lost (some fp) ptr in_size = put fp ptr in_size

module _ (realloc : Block → ℕ → Option Block) where
  abbrev pub extended : File MemoryFile → ℕ → Option (File MemoryFile)
  extended fp new_size = do
    block ← realloc fp.priv.block ((new_size + 4096) % word_size)
    some (record fp {
      file_size = new_size;
      eof = false;
      priv = record { block = block; allocated_size = (new_size + 4096) % word_size };
    })

  -- Where there is no memory, -1 is returned and the data is gone.
  abbrev pub out_of_memory : File MemoryFile → Transfer MemoryFile
  out_of_memory fp = record {
    count = word_size - 1;
    bytes = λ i. 0;
    file = record fp { priv = record (fp.priv) { block = record { size = 0; bytes = λ i. 0 } } };
  }

  abbrev pub grown : File MemoryFile → ℕ → File MemoryFile
  grown fp new_size = record fp { file_size = max new_size fp.file_size }

  unfoldable pub write : File MemoryFile → (ℕ → ℕ) → ℕ → Option (Transfer MemoryFile)
  write fp ptr in_size =
      let new_size = max ((fp.fptr + in_size) % word_size) fp.file_size in
      if ltb fp.priv.allocated_size new_size
      then write_extended (out_of_memory fp) (extended fp new_size) ptr in_size
      else put (grown fp new_size) ptr in_size

  abbrev pub memory_fops : Fops MemoryFile
  unfolding read write
  memory_fops = record { read = read; write = write; seek = seek }
