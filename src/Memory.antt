-- ===== src/Memory.antt =====
-- The memory routines of kernel/lib/string.c, on a memory from addresses to bytes. Addresses do not
-- wrap around.
pub mod Move
mod Tests
use lufira_os.Base.{
  ℕ, zero, suc, ◌+◌, ◌-◌, ◌*◌, ◌/◌, ◌%◌, ◌^◌, Bool, true, false, ◌&&◌, ◌||◌, ltb, leb, ◌==◌,
  if◌then◌else◌,
}

abbrev pub Bytes : Type 0
Bytes = ℕ → ℕ

unfoldable pub store : Bytes → ℕ → ℕ → Bytes
store m a v x = if x == a then v else m x

-- The `n` lowest bytes of a word, stored from `a` on, the lowest first.
unfoldable pub store_word : ℕ → Bytes → ℕ → ℕ → Bytes
store_word zero m a w = m
store_word (suc n) m a w = store_word n (store m a (w % 256)) (a + 1) (w / 256)

unfoldable pub load_word : ℕ → Bytes → ℕ → ℕ
load_word zero m a = 0
load_word (suc n) m a = m a + 256 * load_word n m (a + 1)

-- `while (n--) *p++ = byte;`
unfoldable pub set_bytes : ℕ → Bytes → ℕ → ℕ → Bytes
set_bytes zero m p byte = m
set_bytes (suc n) m p byte = set_bytes n (store m p byte) (p + 1) byte

-- The loop over bytes up to an aligned address: the memory, the address and what is left of `n`.
unfoldable pub set_unaligned : ℕ → Bytes → ℕ → ℕ → Bytes × ℕ × ℕ
set_unaligned zero m p byte = (m, p, 0)
set_unaligned (suc n) m p byte =
    let rest = set_unaligned n (store m p byte) (p + 1) byte in
    if p % 8 == 0 then (m, p, suc n) else rest

unfoldable pub set_words : ℕ → Bytes → ℕ → ℕ → Bytes
set_words zero m p word = m
set_words (suc k) m p word = set_words k (store_word 8 m p word) (p + 8) word

-- `memset`
unfoldable pub memset : Bytes → (s c n : ℕ) → Bytes
memset m s c n =
    let byte = c % 256 in
    let (m₁, p, left) = set_unaligned n m s byte in
    let words = set_words (left / 8) m₁ p (byte * 0x0101010101010101 % 2 ^ 64) in
    set_bytes (left % 8) words (p + left / 8 * 8) byte

-- `while (n--) *d++ = *s++;`
unfoldable pub copy_forward : ℕ → Bytes → (d s : ℕ) → Bytes
copy_forward zero m d s = m
copy_forward (suc n) m d s = copy_forward n (store m d (m s)) (d + 1) (s + 1)

-- `while (n--) *--d = *--s;` from the ends `d + n` and `s + n`
unfoldable pub copy_back : ℕ → Bytes → (d s : ℕ) → Bytes
copy_back zero m d s = m
copy_back (suc n) m d s = copy_back n (store m (d + n) (m (s + n))) d s

unfoldable pub copy_unaligned : ℕ → Bytes → (d s : ℕ) → Bytes × ℕ
copy_unaligned zero m d s = (m, 0)
copy_unaligned (suc n) m d s =
    let rest = copy_unaligned n (store m d (m s)) (d + 1) (s + 1) in
    if d % 8 == 0 then (m, suc n) else rest

unfoldable pub copy_words : ℕ → Bytes → (d s : ℕ) → Bytes
copy_words zero m d s = m
copy_words (suc k) m d s = copy_words k (store_word 8 m d (load_word 8 m s)) (d + 8) (s + 8)

-- `memcpy`: in words when both addresses are aligned alike.
unfoldable pub memcpy : Bytes → (d s n : ℕ) → Bytes
memcpy m d s n =
    let (m₁, left) = copy_unaligned n m d s in
    let done = n - left in
    let words = copy_words (left / 8) m₁ (d + done) (s + done) in
    let at = done + left / 8 * 8 in
    if d % 8 == s % 8 then copy_forward (left % 8) words (d + at) (s + at) else copy_forward n m d s

-- `memmove`
unfoldable pub memmove : Bytes → (d s n : ℕ) → Bytes
memmove m d s n =
    if d == s || n == 0 then m else (if ltb d s then copy_forward n m d s else copy_back n m d s)
