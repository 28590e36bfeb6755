-- ===== src/Strings.antt =====
-- libs/src/libc/string.c over the memory of bytes.
--
-- A loop that runs until it meets a NUL takes fuel, one unit for a round, and `none` means that the
-- fuel ran out before the NUL; a loop that counts `n` down recurs on `n`. A pointer result is an
-- address, with 0 for NULL. `char` values are bytes; the code compares them for equality only.
pub mod Fill
pub mod Copy
pub mod Scan
pub mod Span
pub mod Tokens
mod Tests
use cibyl.Base.{
  ℕ, zero, suc, ◌+◌, ◌-◌, ◌*◌, ◌%◌, ◌^◌, Bool, true, false, ◌&&◌, Option, none, some, ltb, leb,
  ◌==◌, if◌then◌else◌, bit_and, bit_or, ◌>>=◌,
}
use cibyl.Memory.{Memory, store, store_word}

-- The last loop of `memset`.
pub fill_bytes : ℕ → Memory → ℕ → ℕ → Memory
fill_bytes c m p zero = m
fill_bytes c m p (suc n) = fill_bytes c (store m p (c % 256)) (p + 1) n

-- Its first loop: single bytes up to a word boundary.
pub fill_head : ℕ → Memory → ℕ → ℕ → Memory × ℕ × ℕ
fill_head c m p zero = (m, p, 0)
fill_head c m p (suc n) =
    let rest = fill_head c (store m p (c % 256)) (p + 1) n in
    if bit_and p 3 == 0 then (m, p, suc n) else rest

-- Its middle loop, `while (n > sizeof(int))`.
pub fill_words : ℕ → Memory → ℕ → ℕ → Memory × ℕ × ℕ
fill_words w m p (suc (suc (suc (suc (suc n))))) = fill_words w (store_word m p w) (p + 4) (suc n)
fill_words w m p n = (m, p, n)

-- `i_c`
pub splat : ℕ → ℕ
splat c = bit_or (bit_or (bit_or (c * 2 ^ 24) (c * 2 ^ 16)) (c * 2 ^ 8)) c % 2 ^ 32

-- `memset`, where `c` is the bit pattern of the `int`.
pub memset : Memory → ℕ → ℕ → ℕ → Memory
unfolding fill_bytes fill_head fill_words splat
memset m s c n =
    if ltb 4 n
    then (let (m1, p1, n1) = fill_head c m s n in
        let (m2, p2, n2) = fill_words (splat c) m1 p1 n1 in fill_bytes c m2 p2 n2)
    else fill_bytes c m s n

-- The byte loop of `memcpy` and the first loop of `memmove`.
pub copy_bytes : Memory → ℕ → ℕ → ℕ → Memory
copy_bytes m d s zero = m
copy_bytes m d s (suc n) = copy_bytes (store m d (m s)) (d + 1) (s + 1) n

-- `*(int*)d = *(int*)s`: the four bytes are read before they are written.
abbrev pub copy_word : Memory → ℕ → ℕ → Memory
copy_word m d s =
    store (store (store (store m d (m s)) (d + 1) (m (s + 1))) (d + 2) (m (s + 2))) (d + 3)
      (m (s + 3))

-- The word loop of `memcpy`; `none` is a count that would wrap below zero.
pub copy_words : Memory → ℕ → ℕ → ℕ → Option Memory
copy_words m d s zero = some m
copy_words m d s (suc (suc (suc (suc n)))) = copy_words (copy_word m d s) (d + 4) (s + 4) n
copy_words m d s n = none

pub memcpy : Memory → ℕ → ℕ → ℕ → Option Memory
unfolding copy_words copy_bytes
memcpy m d s n =
    if bit_and (bit_or (bit_or s d) n) 3 == 0 then copy_words m d s n else some (copy_bytes m d s n)

-- The second loop of `memmove`.
pub copy_back : Memory → ℕ → ℕ → ℕ → Memory
copy_back m d s zero = m
copy_back m d s (suc n) = copy_back (store m (d + n) (m (s + n))) d s n

pub memmove : Memory → ℕ → ℕ → ℕ → Memory
unfolding copy_bytes copy_back
memmove m d s n = if leb d s then copy_bytes m d s n else copy_back m d s n

pub strlen_loop : ℕ → Memory → ℕ → Option ℕ
strlen_loop zero m p = none
strlen_loop (suc k) m p = let rest = strlen_loop k m (p + 1) in if m p == 0 then some p else rest

pub strlen : ℕ → Memory → ℕ → Option ℕ
unfolding strlen_loop
strlen k m s = do p ← strlen_loop k m s; some (p - s)

pub strcpy : ℕ → Memory → ℕ → ℕ → Option Memory
strcpy zero m d s = none
strcpy (suc k) m d s =
    let rest = strcpy k (store m d (m s)) (d + 1) (s + 1) in
    if m s == 0 then some (store m d (m s)) else rest

pub strchr : ℕ → Memory → ℕ → ℕ → Option ℕ
strchr zero m s c = none
strchr (suc k) m s c =
    let rest = strchr k m (s + 1) c in
    if m s == c % 256 then some s else if m s == 0 then some 0 else rest

-- The loop of `strrchr`, with the last match so far.
pub strrchr_loop : ℕ → Memory → ℕ → ℕ → ℕ → Option ℕ
strrchr_loop zero m s c p = none
strrchr_loop (suc k) m s c p =
    let p' = if m s == c % 256 then s else p in
    let rest = strrchr_loop k m (s + 1) c p' in if m s == 0 then some p' else rest

pub strrchr : ℕ → Memory → ℕ → ℕ → Option ℕ
unfolding strrchr_loop
strrchr k m s c = strrchr_loop k m s c 0

-- The loop of `strspn`, over the positions in both strings.
pub strspn_loop : ℕ → Memory → ℕ → ℕ → ℕ → Option ℕ
strspn_loop zero m s2 s p = none
strspn_loop (suc k) m s2 s p =
    let next = strspn_loop k m s2 (s + 1) s2 in
    let other = strspn_loop k m s2 s (p + 1) in
    if m p == 0 then some s else if m p == m s then next else other

pub strspn : ℕ → Memory → ℕ → ℕ → Option ℕ
unfolding strspn_loop
strspn k m s1 s2 = do s ← strspn_loop k m s2 s1 s2; some (s - s1)

-- The inner loop of `strpbrk` and `strcspn`: does the byte occur in the string at `p`?
pub occurs : ℕ → Memory → ℕ → ℕ → Option Bool
occurs zero m p c = none
occurs (suc k) m p c =
    let rest = occurs k m (p + 1) c in
    if m p == 0 then some false else if m p == c then some true else rest

-- Their outer loop: where `s` stands when it ends, and whether it was left by the inner loop.
pub break_loop : ℕ → Memory → ℕ → ℕ → Option (ℕ × Bool)
unfolding occurs
break_loop zero m s2 s = none
break_loop (suc k) m s2 s =
    let rest = break_loop k m s2 (s + 1) in
    if m s == 0
    then some (s, false)
    else (occurs (suc k) m s2 (m s) >>= λ hit. if hit then some (s, true) else rest)

pub strpbrk : ℕ → Memory → ℕ → ℕ → Option ℕ
unfolding break_loop
strpbrk k m s1 s2 = do (s, hit) ← break_loop k m s2 s1; some (if hit then s else 0)

pub strcspn : ℕ → Memory → ℕ → ℕ → Option ℕ
unfolding break_loop
strcspn k m s1 s2 = do (s, hit) ← break_loop k m s2 s1; some (s - s1)

-- What `strtok_r` returns, and leaves in memory and in `*next_start`.
pub record Token : Type 0 where
  pub result : ℕ
  pub memory : Memory
  pub next_start : ℕ

-- From the start of a token on.
pub cut_token : ℕ → Memory → ℕ → ℕ → Option Token
unfolding strpbrk
cut_token k m s s2 =
    if m s == 0 then some (record { result = 0; memory = m; next_start = 0 }) else do
      p ← strpbrk k m s s2
      some (
          if p == 0
          then record { result = s; memory = m; next_start = 0 }
          else record { result = s; memory = store m p 0; next_start = p + 1 })

-- `strtok_r` from the pointer `s` that it goes on from.
pub next_token : ℕ → Memory → ℕ → ℕ → ℕ → Option Token
unfolding cut_token strspn
next_token k m s s2 next =
    if s == 0
    then some (record { result = 0; memory = m; next_start = next })
    else do n ← strspn k m s s2; cut_token k m (s + n) s2

pub strtok_r : ℕ → Memory → ℕ → ℕ → ℕ → Option Token
unfolding next_token
strtok_r k m s1 s2 next = next_token k m (if s1 == 0 then next else s1) s2 next

-- `strtok`, which keeps `next_start` in a static variable.
pub strtok : ℕ → Memory → ℕ → ℕ → ℕ → Option Token
unfolding strtok_r
strtok k m s1 s2 next = strtok_r k m s1 s2 next
