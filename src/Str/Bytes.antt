-- ===== src/Str/Bytes.antt =====
-- string.c on memory as bytes: `memset` and `memmove`. A pointer is its address, and the blocks do not
-- reach beyond the address space.
pub mod Copying
use swe3004_operating_system.Prelude.{
  ℕ, zero, suc, ◌+◌, ◌-◌, ◌*◌, ◌/◌, ◌%◌, ◌^◌, Bool, true, false, ◌&&◌, ltb, ◌==◌, if◌then◌else◌,
  update,
}

-- `stosb` of x86.h: `n` times the low byte of `c`.
pub stosb : (n addr c : ℕ) → (ℕ → ℕ) → ℕ → ℕ
stosb zero addr c m = m
stosb (suc n) addr c m = stosb n (addr + 1) c (update m addr (c % 256))

-- A word, the low byte first.
unfoldable pub put_word : (addr w : ℕ) → (ℕ → ℕ) → ℕ → ℕ
put_word addr w m =
    update
      (update (update (update m addr (w % 256)) (addr + 1) (w / 2 ^ 8 % 256)) (addr + 2)
        (w / 2 ^ 16 % 256))
      (addr + 3) (w / 2 ^ 24 % 256)

-- `stosl` of x86.h
pub stosl : (n addr w : ℕ) → (ℕ → ℕ) → ℕ → ℕ
stosl zero addr w m = m
stosl (suc n) addr w m = stosl n (addr + 4) w (put_word addr w m)

-- `(c<<24)|(c<<16)|(c<<8)|c` for one byte
abbrev pub four_times : ℕ → ℕ
four_times c = c * 2 ^ 24 + c * 2 ^ 16 + c * 2 ^ 8 + c

pub memset : (dst c n : ℕ) → (ℕ → ℕ) → ℕ → ℕ
unfolding stosl stosb
memset dst c n m =
    if (dst % 4 == 0) && (n % 4 == 0)
    then stosl (n / 4) dst (four_times (c % 256)) m
    else stosb n dst c m

-- `while(n-- > 0) *--d = *--s`
pub copy_down : (n d s : ℕ) → (ℕ → ℕ) → ℕ → ℕ
copy_down zero d s m = m
copy_down (suc n) d s m = copy_down n (d - 1) (s - 1) (update m (d - 1) (m (s - 1)))

-- `while(n-- > 0) *d++ = *s++`
pub copy_up : (n d s : ℕ) → (ℕ → ℕ) → ℕ → ℕ
copy_up zero d s m = m
copy_up (suc n) d s m = copy_up n (d + 1) (s + 1) (update m d (m s))

pub memmove : (dst src n : ℕ) → (ℕ → ℕ) → ℕ → ℕ
unfolding copy_down copy_up
memmove dst src n m =
    if ltb src dst && ltb dst (src + n)
    then copy_down n (dst + n) (src + n) m
    else copy_up n dst src m

pub memcpy : (dst src n : ℕ) → (ℕ → ℕ) → ℕ → ℕ
memcpy dst src n m = memmove dst src n m
