-- ===== src/Sha256.antt =====
-- SHA-256, kernel/lib/sha256.c. A 32-bit word is a number below 2^32 and a byte one below 2^8; a
-- `uint8_t` array is the list of its bytes, and `memcpy` into it is `put`.
mod Lists
pub mod Stream
pub mod Final
pub mod Padding
pub mod Constants
pub mod Message
mod Tests
use lufira_os.Base.{
  ℕ, zero, suc, ◌+◌, ◌-◌, ◌*◌, ◌/◌, ◌%◌, ◌^◌, min, bit_and, bit_or, bit_xor, List, [], ◌∷◌, ◌++◌,
  map, length, get_or, take, drop, replicate, ltb, leb, if◌then◌else◌,
}

abbrev pub block_size : ℕ
block_size = 64

-- The constants K of FIPS 180-4, section 4.2.2.
abbrev pub constants : List ℕ
constants =
    0x428a2f98 ∷ 0x71374491 ∷ 0xb5c0fbcf ∷ 0xe9b5dba5 ∷ 0x3956c25b ∷ 0x59f111f1 ∷ 0x923f82a4
    ∷ 0xab1c5ed5 ∷ 0xd807aa98 ∷ 0x12835b01 ∷ 0x243185be ∷ 0x550c7dc3 ∷ 0x72be5d74 ∷ 0x80deb1fe
    ∷ 0x9bdc06a7 ∷ 0xc19bf174 ∷ 0xe49b69c1 ∷ 0xefbe4786 ∷ 0x0fc19dc6 ∷ 0x240ca1cc ∷ 0x2de92c6f
    ∷ 0x4a7484aa ∷ 0x5cb0a9dc ∷ 0x76f988da ∷ 0x983e5152 ∷ 0xa831c66d ∷ 0xb00327c8 ∷ 0xbf597fc7
    ∷ 0xc6e00bf3 ∷ 0xd5a79147 ∷ 0x06ca6351 ∷ 0x14292967 ∷ 0x27b70a85 ∷ 0x2e1b2138 ∷ 0x4d2c6dfc
    ∷ 0x53380d13 ∷ 0x650a7354 ∷ 0x766a0abb ∷ 0x81c2c92e ∷ 0x92722c85 ∷ 0xa2bfe8a1 ∷ 0xa81a664b
    ∷ 0xc24b8b70 ∷ 0xc76c51a3 ∷ 0xd192e819 ∷ 0xd6990624 ∷ 0xf40e3585 ∷ 0x106aa070 ∷ 0x19a4c116
    ∷ 0x1e376c08 ∷ 0x2748774c ∷ 0x34b0bcb5 ∷ 0x391c0cb3 ∷ 0x4ed8aa4a ∷ 0x5b9cca4f ∷ 0x682e6ff3
    ∷ 0x748f82ee ∷ 0x78a5636f ∷ 0x84c87814 ∷ 0x8cc70208 ∷ 0x90befffa ∷ 0xa4506ceb ∷ 0xbef9a3f7
    ∷ 0xc67178f2 ∷ []

pub add32 : ℕ → ℕ → ℕ
add32 a b = (a + b) % 2 ^ 32

-- `(v >> n) | (v << (32 - n))`
pub rotr32 : ℕ → ℕ → ℕ
rotr32 v n = bit_or (v / 2 ^ n) (v * 2 ^ (32 - n) % 2 ^ 32)

pub not32 : ℕ → ℕ
not32 v = 2 ^ 32 - 1 - v

abbrev pub xor3 : ℕ → ℕ → ℕ → ℕ
xor3 a b c = bit_xor (bit_xor a b) c

-- The eight words of the state, and of the working variables a to h.
pub record Words : Type 0 where
  pub a : ℕ
  pub b : ℕ
  pub c : ℕ
  pub d : ℕ
  pub e : ℕ
  pub f : ℕ
  pub g : ℕ
  pub h : ℕ

-- The big-endian words of a block, `n` of them.
pub load_words : ℕ → List ℕ → List ℕ
load_words zero block = []
load_words (suc n) block =
    let at = get_or block in
    bit_or (bit_or (bit_or (at 0 0 * 2 ^ 24) (at 1 0 * 2 ^ 16)) (at 2 0 * 2 ^ 8)) (at 3 0)
    ∷ load_words n (drop 4 block)

-- The next word of the schedule, from the `i` words that are there.
pub next_word : List ℕ → ℕ → ℕ
next_word w i =
    let w15 = get_or w (i - 15) 0 in
    let w2 = get_or w (i - 2) 0 in
    let s0 = xor3 (rotr32 w15 7) (rotr32 w15 18) (w15 / 2 ^ 3) in
    let s1 = xor3 (rotr32 w2 17) (rotr32 w2 19) (w2 / 2 ^ 10) in
    add32 (add32 (add32 (get_or w (i - 16) 0) s0) (get_or w (i - 7) 0)) s1

pub extend : ℕ → List ℕ → ℕ → List ℕ
extend zero w i = w
extend (suc n) w i = extend n (w ++ (next_word w i ∷ [])) (i + 1)

-- One round with its constant `k` and its word `w`.
pub round : Words → ℕ → ℕ → Words
round v k w =
    let s1 = xor3 (rotr32 v.e 6) (rotr32 v.e 11) (rotr32 v.e 25) in
    let ch = bit_xor (bit_and v.e v.f) (bit_and (not32 v.e) v.g) in
    let t1 = add32 (add32 (add32 (add32 v.h s1) ch) k) w in
    let s0 = xor3 (rotr32 v.a 2) (rotr32 v.a 13) (rotr32 v.a 22) in
    let maj = xor3 (bit_and v.a v.b) (bit_and v.a v.c) (bit_and v.b v.c) in
    let t2 = add32 s0 maj in
    record {
      a = add32 t1 t2;
      b = v.a;
      c = v.b;
      d = v.c;
      e = add32 v.d t1;
      f = v.e;
      g = v.f;
      h = v.g;
    }

pub rounds : List ℕ → List ℕ → Words → Words
rounds [] ws v = v
rounds (k ∷ ks) [] v = v
rounds (k ∷ ks) (w ∷ ws) v = rounds ks ws (round v k w)

-- `sha256_compress`
pub compress : Words → List ℕ → Words
compress s block =
    let v = rounds constants (extend 48 (load_words 16 block) 16) s in
    record {
      a = add32 s.a v.a;
      b = add32 s.b v.b;
      c = add32 s.c v.c;
      d = add32 s.d v.d;
      e = add32 s.e v.e;
      f = add32 s.f v.f;
      g = add32 s.g v.g;
      h = add32 s.h v.h;
    }

-- `sha256_ctx_t`
pub record Context : Type 0 where
  pub state : Words
  pub total_len : ℕ
  pub block_len : ℕ
  pub block : List ℕ

-- `sha256_init`: the buffer keeps what it holds.
pub sha256_init : Context → Context
sha256_init ctx = record ctx {
  state = record {
    a = 0x6a09e667;
    b = 0xbb67ae85;
    c = 0x3c6ef372;
    d = 0xa54ff53a;
    e = 0x510e527f;
    f = 0x9b05688c;
    g = 0x1f83d9ab;
    h = 0x5be0cd19;
  };
  total_len = 0;
  block_len = 0;
}

-- `memcpy(block + at, bytes, length bytes)`
pub put : List ℕ → ℕ → List ℕ → List ℕ
put block at bytes = take at block ++ bytes ++ drop (at + length bytes) block

-- The loop over whole blocks: the state after it and the bytes left over. The fuel counts blocks.
pub whole_blocks : ℕ → Words → List ℕ → Words × List ℕ
whole_blocks zero s p = (s, p)
whole_blocks (suc n) s p =
    let rest = whole_blocks n (compress s (take block_size p)) (drop block_size p) in
    if leb block_size (length p) then rest else (s, p)

-- What `sha256_update` does when no byte is pending. Every whole block takes 64 bytes, so that the
-- length is enough fuel.
pub update_aligned : Context → List ℕ → Context
update_aligned ctx p =
    let (s, rest) = whole_blocks (length p) ctx.state p in
    if ltb 0 (length rest)
    then record ctx { state = s; block_len = length rest; block = put ctx.block 0 rest }
    else record ctx { state = s }

-- `sha256_update`
pub sha256_update : Context → List ℕ → Context
sha256_update ctx₀ p =
    let ctx = record ctx₀ { total_len = (ctx₀.total_len + length p) % 2 ^ 64 } in
    let n = min (length p) (block_size - ctx.block_len) in
    let filled = put ctx.block ctx.block_len (take n p) in
    let full =
      update_aligned
        (record ctx { state = compress ctx.state filled; block_len = 0; block = filled })
        (drop n p) in
    let part =
      if ltb (ctx.block_len + n) block_size
      then record ctx { block_len = ctx.block_len + n; block = filled }
      else full in
    if ltb 0 ctx.block_len then part else update_aligned ctx p

-- The `n` low bytes of a number, the highest first.
pub big_endian : ℕ → ℕ → List ℕ
big_endian zero v = []
big_endian (suc n) v = v / 2 ^ (8 * n) % 2 ^ 8 ∷ big_endian n v

-- The end of `sha256_final`: zeros up to byte 56 from `len` on, the length in bits, the last block.
pub close_block : Words → List ℕ → ℕ → ℕ → Words
close_block s block len total_len =
    let zeros = put block len (replicate (56 - len) 0) in
    compress s (put zeros 56 (big_endian 8 (total_len * 8 % 2 ^ 64)))

pub digest : Words → List ℕ
digest s =
    big_endian 4 s.a
    ++ big_endian 4 s.b
    ++ big_endian 4 s.c
    ++ big_endian 4 s.d
    ++ big_endian 4 s.e
    ++ big_endian 4 s.f
    ++ big_endian 4 s.g
    ++ big_endian 4 s.h

-- `sha256_final`
pub sha256_final : Context → List ℕ
sha256_final ctx =
    let marked = put ctx.block ctx.block_len (128 ∷ []) in
    let len = ctx.block_len + 1 in
    let filled = put marked len (replicate (block_size - len) 0) in
    let two = close_block (compress ctx.state filled) filled 0 ctx.total_len in
    digest (if ltb 56 len then two else close_block ctx.state marked len ctx.total_len)

-- `sha256`; `ctx` is the uninitialised context on the stack.
pub sha256 : Context → List ℕ → List ℕ
sha256 ctx bytes = sha256_final (sha256_update (sha256_init ctx) bytes)
