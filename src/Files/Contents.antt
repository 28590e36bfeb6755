-- ===== src/Files/Contents.antt =====
-- What reading and writing do to the contents of a file in memory.
use cibyl.Base.{
  ℕ, ◌+◌, ◌-◌, ◌*◌, ◌/◌, ◌%◌, ◌≤◌, ◌<◌, ◌≡◌, refl, sym, ap, true, false, ◌&&◌, inl, inr, Option,
  none, ◌⊎◌, Option-cases, some, ltb, leb, ◌==◌, if◌then◌else◌, min, max, arith, Bool-cases,
}
use cibyl.Files.{
  word_size, File, Transfer, fread, fwrite, Block, MemoryFile, read, write, copied, memory_fops,
  at_position,
}

-- The counters are within the file, and the file within its block.
pub record IsValid (fp : File MemoryFile) : Type 0 where
  pub in_file : fp.fptr ≤ fp.file_size
  pub aims_in_file : fp.vfptr ≤ fp.file_size
  pub in_block : fp.file_size ≤ fp.priv.allocated_size
  pub backed : fp.priv.allocated_size ≤ fp.priv.block.size
  pub small : fp.priv.allocated_size < word_size

-- What `realloc` returns, if it is not NULL: a block with room for what was asked for, which begins
-- with the bytes that the old block had.
abbrev pub Reallocates : (Block → ℕ → Option Block) → Type 0
Reallocates realloc =
    (b : Block) (n : ℕ) (b' : Block)
    → realloc b n ≡ some b'
    → (n ≤ b'.size) × ((i : ℕ) → i < b.size → i < n → b'.bytes i ≡ b.bytes i)

abbrev pub byte : File MemoryFile → ℕ → ℕ
byte fp i = fp.priv.block.bytes i

-- What a read leaves.
pub record Reads (fp : File MemoryFile) (n : ℕ) (t : Transfer MemoryFile) : Type 0 where
  pub count_is : t.count ≡ min n (fp.file_size - fp.vfptr)
  pub bytes_are : (i : ℕ) → t.bytes i ≡ byte fp (fp.vfptr + i)
  pub moved : (t.file.fptr ≡ fp.vfptr + t.count) × (t.file.vfptr ≡ fp.vfptr + t.count)
  pub same_contents : (t.file.priv ≡ fp.priv) × (t.file.file_size ≡ fp.file_size)
  pub at_end : fp.file_size ≤ fp.vfptr → t.file.eof ≡ true

-- What a write leaves.
pub record Writes (fp : File MemoryFile) (ptr : ℕ → ℕ) (n : ℕ) (t : Transfer MemoryFile)
    : Type 0 where
  pub count_is : t.count ≡ n
  pub moved : (t.file.fptr ≡ fp.fptr + n) × (t.file.vfptr ≡ fp.fptr + n)
  pub size_is : t.file.file_size ≡ max (fp.fptr + n) fp.file_size
  pub bytes_are :
      (i : ℕ)
      → i < t.file.file_size
      → byte t.file i
        ≡ (if leb fp.fptr i && ltb i (fp.fptr + n) then ptr (i - fp.fptr) else byte fp i)

-- A write for which `realloc` has no block: it returns -1, and the stream has lost its data.
pub record Loses (realloc : Block → ℕ → Option Block) (fp : File MemoryFile) (n : ℕ)
    (t : Transfer MemoryFile) : Type 0 where
  pub too_long : fp.priv.allocated_size < fp.fptr + n
  pub no_block : realloc fp.priv.block (fp.fptr + n + 4096) ≡ none
  pub count_is : t.count ≡ word_size - 1
  pub lost : t.file.priv.block.size ≡ 0

module _ (realloc : Block → ℕ → Option Block) where
  -- A pending seek is made good.
  at_position-fptr :
      (fp : File MemoryFile) → at_position (memory_fops realloc) fp ≡ record fp { fptr = fp.vfptr }
  unfolding memory_fops
  at_position-fptr fp = elim (Bool-cases (fp.fptr == fp.vfptr)) [
    | inl e ↦
        let here : fp.fptr ≡ fp.vfptr = ground arith in
        rw e (ap (λ (k : ℕ). record fp { fptr = k }) here)
    | inr e ↦ rw e refl
  ]

  -- `fread` of `n` bytes ends on a valid stream, also where a seek is pending: it reads what there
  -- is from the position up to the end of the file and no more, moves the position behind it,
  -- changes nothing of the file, sees the end of the file when it starts there, and leaves the
  -- stream valid.
  pub fread-Reads :
      (fp : File MemoryFile) (n : ℕ)
      → IsValid fp
      → 0 < n
      → n < word_size
      → (t : Transfer MemoryFile) × (fread (memory_fops realloc) 1 n fp ≡ some t)
        × Reads fp n t
        × IsValid t.file
  unfolding fread memory_fops read
  fread-Reads fp n v positive small =
      let a1 = v.in_block in
      let a2 = v.backed in
      let a3 = v.aims_in_file in
      let a4 = v.small in
      let left = fp.file_size - fp.vfptr in
      let size = min n left in
      let is_left : (fp.file_size + word_size - fp.vfptr) % word_size ≡ left = omega arith in
      let asks : (1 * n % word_size == 0) ≡ false = ground arith in
      let all : 1 * n % word_size ≡ n = omega arith in
      let inside : leb (fp.vfptr + size) fp.priv.block.size ≡ true = ground arith in
      let next : (fp.vfptr + size) % word_size ≡ fp.vfptr + size = omega arith in
      let one : size / 1 ≡ size = omega arith in
      let out = fp.vfptr + size in
      (
        record {
          count = size;
          bytes = λ i. byte fp (fp.vfptr + i);
          file = record fp {
            fptr = out;
            vfptr = out;
            eof = if leb fp.file_size fp.vfptr then true else fp.eof;
          };
        },
        rw (asks, at_position-fptr fp, all, is_left, inside, next, one) refl,
        record {
          count_is = refl;
          bytes_are = λ i. refl;
          moved = (refl, refl);
          same_contents = (refl, refl);
          at_end = λ h. ended h;
        },
        record {
          in_file = omega arith;
          aims_in_file = omega arith;
          in_block = v.in_block;
          backed = v.backed;
          small = v.small;
        },
      )
    where
      ended : fp.file_size ≤ fp.vfptr → (if leb fp.file_size fp.vfptr then true else fp.eof) ≡ true
      ended h = let stop : leb fp.file_size fp.vfptr ≡ true = ground arith in rw stop refl

  -- `fwrite` of `n` bytes ends on a valid stream, where the counters do not wrap. It replaces the
  -- bytes from `fptr` on, where the last read or write ended (a pending seek is not made good),
  -- makes the file longer where they reach behind its end, with a larger block if it needs one,
  -- moves the position behind them, keeps every other byte of the file, and leaves the stream
  -- valid; or it needs a larger block and `realloc` has none, and it returns -1 and the data of the
  -- stream are lost.
  pub fwrite-Writes :
      (fp : File MemoryFile) (ptr : ℕ → ℕ) (n : ℕ)
      → Reallocates realloc
      → IsValid fp
      → 0 < n
      → fp.fptr + n + 4096 < word_size
      → (t : Transfer MemoryFile) × (fwrite (memory_fops realloc) ptr 1 n fp ≡ some t)
        × (Loses realloc fp n t ⊎ (Writes fp ptr n t × IsValid t.file))
  unfolding fwrite memory_fops write
  fwrite-Writes fp ptr n memory v positive fits =
      let a1 = v.in_block in
      let a2 = v.backed in
      let a3 = v.in_file in
      let a4 = v.small in
      let out = fp.fptr + n in
      let asks : (1 * n % word_size == 0) ≡ false = ground arith in
      let all : 1 * n % word_size ≡ n = omega arith in
      let plain : out % word_size ≡ out = omega arith in
      let one : n / 1 ≡ n = omega arith in
      elim (Bool-cases (ltb fp.priv.allocated_size (max out fp.file_size))) [
        | inl e ↦
            let longer : max out fp.file_size ≡ out = ground arith in
            let room : (out + 4096) % word_size ≡ out + 4096 = omega arith in
            elim (Option-cases (realloc fp.priv.block (out + 4096))) [
              | inl no_block ↦
                  let minus : (word_size - 1) / 1 ≡ word_size - 1 = omega arith in
                  let next = (fp.fptr + (word_size - 1)) % word_size in
                  (
                    record {
                      count = word_size - 1;
                      bytes = λ i. 0;
                      file = record fp {
                        fptr = next;
                        vfptr = next;
                        priv = record (fp.priv) { block = record { size = 0; bytes = λ i. 0 } };
                      };
                    },
                    rw (asks, all, plain, e, longer, room, no_block, minus) refl,
                    inl (record {
                      too_long = ground arith;
                      no_block = no_block;
                      count_is = refl;
                      lost = refl;
                    }),
                  )
              | inr (b, got) ↦
                  let (sized, kept) = memory fp.priv.block (out + 4096) b got in
                  let inside : leb out b.size ≡ true = ground arith in
                  let same : max out out ≡ out = omega arith in
                  (
                    record {
                      count = n;
                      bytes = λ i. 0;
                      file = record fp {
                        fptr = out;
                        vfptr = out;
                        file_size = out;
                        eof = false;
                        priv = record {
                          block = copied b fp.fptr ptr n;
                          allocated_size = out + 4096;
                        };
                      };
                    },
                    rw (asks, all, plain, e, longer, room, got, inside, one, plain) refl,
                    inr (
                      record {
                        count_is = refl;
                        moved = (refl, refl);
                        size_is = sym longer;
                        bytes_are = λ i h. replaced b i h (λ g. kept i (omega arith) (omega arith));
                      },
                      record {
                        in_file = omega arith;
                        aims_in_file = omega arith;
                        in_block = omega arith;
                        backed = omega arith;
                        small = omega arith;
                      },
                    ),
                  )
            ]
        | inr e ↦
            let size = max out fp.file_size in
            let again : max size fp.file_size ≡ size = omega arith in
            let inside : leb out fp.priv.block.size ≡ true = ground arith in
            (
              record {
                count = n;
                bytes = λ i. 0;
                file = record fp {
                  fptr = out;
                  vfptr = out;
                  file_size = size;
                  priv = record (fp.priv) { block = copied fp.priv.block fp.fptr ptr n };
                };
              },
              rw (asks, all, plain, e, again, inside, one, plain) refl,
              inr (
                record {
                  count_is = refl;
                  moved = (refl, refl);
                  size_is = refl;
                  bytes_are = λ i h. refl;
                },
                record {
                  in_file = omega arith;
                  aims_in_file = omega arith;
                  in_block = ground arith;
                  backed = v.backed;
                  small = v.small;
                },
              ),
            )
      ]
    where
      replaced :
          (b : Block) (i : ℕ)
          → i < fp.fptr + n
          → (i < fp.fptr → b.bytes i ≡ byte fp i)
          → (if leb fp.fptr i && ltb i (fp.fptr + n) then ptr (i - fp.fptr) else b.bytes i)
            ≡ (if leb fp.fptr i && ltb i (fp.fptr + n) then ptr (i - fp.fptr) else byte fp i)
      replaced b i h old = elim (Bool-cases (leb fp.fptr i)) [
        | inl e ↦ let below : ltb i (fp.fptr + n) ≡ true = ground arith in rw (e, below) refl
        | inr e ↦ rw e (old (ground arith))
      ]
