-- ===== src/Libc.antt =====
-- Strings and numbers of the C library for programs, libc/src/string.c and libc/src/stdlib.c. A C
-- string is the list of the bytes before its NUL, a pointer into it the list from there on.
pub mod Agree
mod Tests
use lufira_os.Base.{
  ℕ, zero, suc, ◌+◌, ◌-◌, ◌*◌, ◌%◌, ◌^◌, Bool, true, false, ◌&&◌, ◌||◌, Option, none, some, List,
  [], ◌∷◌, ◌++◌, length, replicate, ltb, leb, ◌==◌, if◌then◌else◌,
}
use lufira_os.Memory.{Bytes, store}
use lufira_os.Strings.{ℤ, pos, minus, first}

-- `strncmp`
pub strncmp : List ℕ → List ℕ → ℕ → ℤ
strncmp a b zero = pos 0
strncmp [] b (suc n) = minus 0 (first b)
strncmp (x ∷ xs) [] (suc n) = minus x 0
strncmp (x ∷ xs) (y ∷ ys) (suc n) = let rest = strncmp xs ys n in if x == y then rest else minus x y

-- `strncpy`: the `n` bytes that are written.
pub strncpy : List ℕ → ℕ → List ℕ
strncpy src zero = []
strncpy [] (suc n) = replicate (suc n) 0
strncpy (x ∷ xs) (suc n) = x ∷ strncpy xs n

-- `strchr`
pub strchr : List ℕ → ℕ → Option (List ℕ)
strchr [] c = if c == 0 then some [] else none
strchr (x ∷ xs) c = let rest = strchr xs c in if x == c then some (x ∷ xs) else rest

-- The loop of `strrchr`, with the last occurrence so far.
pub strrchr_from : List ℕ → ℕ → Option (List ℕ) → Option (List ℕ)
strrchr_from [] c last = last
strrchr_from (x ∷ xs) c last = strrchr_from xs c (if x == c then some (x ∷ xs) else last)

-- `strrchr`
pub strrchr : List ℕ → ℕ → Option (List ℕ)
strrchr s c = strrchr_from s c (if c == 0 then some [] else none)

-- The inner loop of `strstr`: does the whole needle stand here?
pub stands_at : List ℕ → List ℕ → Bool
stands_at h [] = true
stands_at [] (n ∷ ns) = false
stands_at (h ∷ hs) (n ∷ ns) = let rest = stands_at hs ns in if h == n then rest else false

-- `strstr`
pub strstr : List ℕ → List ℕ → Option (List ℕ)
strstr haystack [] = some haystack
strstr [] (n ∷ ns) = none
strstr (h ∷ hs) (n ∷ ns) =
    let rest = strstr hs (n ∷ ns) in if stands_at (h ∷ hs) (n ∷ ns) then some (h ∷ hs) else rest

-- `is_space`
pub is_space : ℕ → Bool
is_space c = c == 32 || c == 9 || c == 10 || c == 13 || c == 11 || c == 12

-- `digit_value`; -1 is `none`.
pub digit_value : ℕ → Option ℕ
digit_value c =
    if leb 48 c && leb c 57
    then some (c - 48)
    else (if leb 97 c && leb c 122
        then some (c - 97 + 10)
        else (if leb 65 c && leb c 90 then some (c - 65 + 10) else none))

pub skip_space : List ℕ → List ℕ
skip_space [] = []
skip_space (x ∷ xs) = let rest = skip_space xs in if is_space x then rest else x ∷ xs

-- The loop of `strtol` over digits: the value as a 64-bit pattern and the text behind.
pub strtol_digits : List ℕ → (base value : ℕ) → ℕ × List ℕ
strtol_digits [] base value = (value, [])
strtol_digits (x ∷ xs) base value = elim (digit_value x) [
  | none ↦ (value, x ∷ xs)
  | some d ↦
      let more = strtol_digits xs base ((value * base + d) % 2 ^ 64) in
      if ltb d base then more else (value, x ∷ xs)
]

-- The prefix "0x": the text behind it and the base.
pub base_prefix : List ℕ → ℕ → List ℕ × ℕ
base_prefix (c ∷ d ∷ s) base =
    if (base == 0 || base == 16) && c == 48 && (d == 120 || d == 88)
    then (s, 16)
    else (c ∷ d ∷ s, if base == 0 then 10 else base)
base_prefix s base = (s, if base == 0 then 10 else base)

-- The sign: whether it is '-', and the text behind it.
pub sign : List ℕ → Bool × List ℕ
sign [] = (false, [])
sign (x ∷ xs) = if x == 43 || x == 45 then (x == 45, xs) else (false, x ∷ xs)

-- `strtol`: the value as a 64-bit pattern and the end pointer.
pub strtol : List ℕ → ℕ → ℕ × List ℕ
strtol s base₀ =
    let (neg, s₁) = sign (skip_space s) in
    let (start, base) = base_prefix s₁ base₀ in
    let (value, rest) = strtol_digits start base 0 in
    (
      if neg then (2 ^ 64 - value) % 2 ^ 64 else value,
      if length rest == length start then s else rest,
    )

-- `memcpy`: upwards, byte by byte.
pub memcpy : Bytes → (dst src n : ℕ) → Bytes
memcpy m dst src zero = m
memcpy m dst src (suc n) = memcpy (store m dst (m src)) (dst + 1) (src + 1) n

-- `memset`
pub memset : Bytes → (dst value n : ℕ) → Bytes
memset m dst value zero = m
memset m dst value (suc n) = memset (store m dst (value % 256)) (dst + 1) value n

-- The downward loop of `memmove`.
pub move_down : Bytes → (dst src n : ℕ) → Bytes
move_down m dst src zero = m
move_down m dst src (suc n) = move_down (store m (dst + n) (m (src + n))) dst src n

-- `memmove`
pub memmove : Bytes → (dst src n : ℕ) → Bytes
memmove m dst src n =
    if dst == src || n == 0
    then m
    else (if ltb dst src then memcpy m dst src n else move_down m dst src n)

-- `memcmp` of the `n` bytes from `a` and from `b` on
pub memcmp : Bytes → (a b n : ℕ) → ℤ
memcmp m a b zero = pos 0
memcmp m a b (suc n) =
    let rest = memcmp m (a + 1) (b + 1) n in if m a == m b then rest else minus (m a) (m b)

-- `strlen`
pub strlen : List ℕ → ℕ
strlen [] = 0
strlen (x ∷ xs) = strlen xs + 1

-- `strcmp`
pub strcmp : List ℕ → List ℕ → ℤ
strcmp [] b = minus 0 (first b)
strcmp (x ∷ xs) [] = minus x 0
strcmp (x ∷ xs) (y ∷ ys) = let rest = strcmp xs ys in if x == y then rest else minus x y

-- `strcat`: the string in `dst` after it.
pub strcat : List ℕ → List ℕ → List ℕ
strcat [] src = src
strcat (x ∷ dst) src = x ∷ strcat dst src
