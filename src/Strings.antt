-- ===== src/Strings.antt =====
-- The string routines of kernel/lib/string.c. A C string is the list of the bytes before its NUL; an
-- `int` that the code adds and multiplies in is its 32-bit pattern, a number below 2^32.
pub mod Compare
mod Tests
use lufira_os.Base.{
  ℕ, zero, suc, ◌+◌, ◌-◌, ◌*◌, ◌%◌, ◌^◌, Bool, true, false, ◌&&◌, ◌||◌, Option, none, some, List,
  [], ◌∷◌, ltb, leb, ◌==◌, if◌then◌else◌,
}

-- The difference of two bytes, an `int`.
pub data ℤ : Type 0 where
  pos negsuc : ℕ → ℤ

abbrev pub minus : ℕ → ℕ → ℤ
minus a b = if leb b a then pos (a - b) else negsuc (b - a - 1)

-- `*s`
abbrev pub first : List ℕ → ℕ
first [] = 0
first (x ∷ xs) = x

-- `strlen`
pub strlen : List ℕ → ℕ
strlen [] = 0
strlen (x ∷ xs) = strlen xs + 1

-- `memcmp` of `n` bytes
pub memcmp : ℕ → List ℕ → List ℕ → ℤ
memcmp zero a b = pos 0
memcmp (suc n) [] b = pos 0
memcmp (suc n) (x ∷ xs) [] = pos 0
memcmp (suc n) (x ∷ xs) (y ∷ ys) = let rest = memcmp n xs ys in if x == y then rest else minus x y

-- `strcmp`
unfoldable pub strcmp : List ℕ → List ℕ → ℤ
strcmp [] t = minus 0 (first t)
strcmp (x ∷ xs) [] = minus x 0
strcmp (x ∷ xs) (y ∷ ys) = let rest = strcmp xs ys in if x == y then rest else minus x y

-- `strncmp`
unfoldable pub strncmp : List ℕ → List ℕ → ℕ → ℤ
strncmp s t zero = pos 0
strncmp s t (suc zero) = minus (first s) (first t)
strncmp [] t (suc (suc n)) = minus 0 (first t)
strncmp (x ∷ xs) [] (suc (suc n)) = minus x 0
strncmp (x ∷ xs) (y ∷ ys) (suc (suc n)) =
    let rest = strncmp xs ys (suc n) in if x == y then rest else minus x y

-- `to_lower`
pub to_lower : ℕ → ℕ
to_lower c = if leb 65 c && leb c 90 then c + (97 - 65) else c

abbrev pub is_blank : ℕ → Bool
is_blank c = c == 32 || c == 9

-- `skip_spaces`
pub skip_spaces : List ℕ → List ℕ
skip_spaces [] = []
skip_spaces (x ∷ xs) = let rest = skip_spaces xs in if is_blank x then rest else x ∷ xs

-- `token_length`
pub token_length : List ℕ → ℕ
token_length [] = 0
token_length (x ∷ xs) = let rest = token_length xs in if is_blank x then 0 else rest + 1

-- `token_equals`
pub token_equals : List ℕ → List ℕ → Bool
token_equals [] [] = true
token_equals (x ∷ xs) [] = is_blank x
token_equals [] (w ∷ ws) = false
token_equals (x ∷ xs) (w ∷ ws) = let rest = token_equals xs ws in if x == w then rest else false

-- `is_help_flag`, of "-help", "--help" and "-h"; `none` is the null pointer.
pub is_help_flag : Option (List ℕ) → Bool
is_help_flag none = false
is_help_flag (some args) =
    token_equals args (45 ∷ 104 ∷ 101 ∷ 108 ∷ 112 ∷ [])
    || token_equals args (45 ∷ 45 ∷ 104 ∷ 101 ∷ 108 ∷ 112 ∷ [])
    || token_equals args (45 ∷ 104 ∷ [])

-- The loop of `atoi` over digits.
unfoldable pub atoi_digits : List ℕ → ℕ → ℕ
atoi_digits [] result = result
atoi_digits (x ∷ xs) result =
    let more = atoi_digits xs ((result * 10 + (x - 48)) % 2 ^ 32) in
    if leb 48 x && leb x 57 then more else result

-- `atoi`
unfoldable pub atoi : List ℕ → ℕ
atoi [] = 0
atoi (x ∷ xs) = if x == 45 then (2 ^ 32 - atoi_digits xs 0) % 2 ^ 32 else atoi_digits (x ∷ xs) 0

-- The value of a hexadecimal digit.
unfoldable pub hex_value : ℕ → Option ℕ
hex_value c =
    if leb 48 c && leb c 57
    then some (c - 48)
    else (if leb 97 c && leb c 102
        then some (c - 97 + 10)
        else (if leb 65 c && leb c 70 then some (c - 65 + 10) else none))

-- The loop of `hex_to_int`, and the whole from 0.
unfoldable pub hex_from : List ℕ → ℕ → ℕ
hex_from [] result = result
hex_from (x ∷ xs) result = elim (hex_value x) [
  | none ↦ result
  | some digit ↦ hex_from xs ((result * 16 + digit) % 2 ^ 32)
]

unfoldable pub hex_to_int : List ℕ → ℕ
hex_to_int hex = hex_from hex 0
