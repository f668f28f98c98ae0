-- ===== src/Users/Text.antt =====
-- The texts of kernel/system/users/users.c: bounded copies, numbers and bytes as digits, and lines
-- cut into fields.
use lufira_os.Base.{
  ℕ, zero, suc, ◌+◌, ◌-◌, ◌*◌, ◌/◌, ◌%◌, Option, none, some, List, [], ◌∷◌, ◌++◌, length, take,
  replicate, ltb, ◌==◌, if◌then◌else◌,
}
use lufira_os.Strings.{hex_value}

-- `copy_bounded`
unfoldable pub copy_bounded : List ℕ → ℕ → List ℕ
copy_bounded src max_len = take (max_len - 1) src

-- `digits[k]`
unfoldable pub hex_digit : ℕ → ℕ
hex_digit k = if ltb k 10 then 48 + k else 87 + k

-- The loop of `format_hex8` over `n` digits, the lowest one last.
unfoldable pub format_hex : ℕ → ℕ → List ℕ
format_hex zero v = []
format_hex (suc n) v = format_hex n (v / 16) ++ (hex_digit (v % 16) ∷ [])

unfoldable pub format_hex8 : ℕ → List ℕ
format_hex8 v = format_hex 8 v

-- `bytes_to_hex`
unfoldable pub bytes_to_hex : List ℕ → List ℕ
bytes_to_hex [] = []
bytes_to_hex (b ∷ bs) = hex_digit (b / 16 % 16) ∷ hex_digit (b % 16) ∷ bytes_to_hex bs

-- `hex_to_bytes`: from the first pair that is not two digits on, zeros.
unfoldable pub hex_to_bytes : List ℕ → ℕ → List ℕ
hex_to_bytes hex zero = []
hex_to_bytes [] (suc n) = replicate (suc n) 0
hex_to_bytes (c ∷ []) (suc n) = replicate (suc n) 0
hex_to_bytes (c ∷ d ∷ hex) (suc n) = elim (hex_value c) [
  | none ↦ replicate (suc n) 0
  | some hi ↦ elim (hex_value d) [
    | none ↦ replicate (suc n) 0
    | some lo ↦ (hi * 16 + lo) % 256 ∷ hex_to_bytes hex n
  ]
]

-- The loop of `format_dec`: the lowest digit is put before those that are there. A `uint32_t` has at
-- most ten digits.
unfoldable pub dec_digits : ℕ → ℕ → List ℕ → List ℕ
dec_digits zero v digits = digits
dec_digits (suc n) v digits =
    let more = dec_digits n (v / 10) ((48 + v % 10) ∷ digits) in if v == 0 then digits else more

-- `format_dec`
unfoldable pub format_dec : ℕ → List ℕ
format_dec v = if v == 0 then 48 ∷ [] else dec_digits 10 v []

-- The bytes before the first `c`, and those behind it if there is one.
unfoldable pub cut : ℕ → List ℕ → List ℕ × Option (List ℕ)
cut c [] = ([], none)
cut c (x ∷ xs) = let (front, rest) = cut c xs in if x == c then ([], some xs) else (x ∷ front, rest)

-- `split_fields` into at most `n + 1` fields: the last one keeps its colons.
unfoldable pub split_fields : ℕ → List ℕ → List (List ℕ)
split_fields zero line = line ∷ []
split_fields (suc n) line =
    let (front, rest) = cut 58 line in
    elim rest [ none ↦ front ∷ [] | some r ↦ front ∷ split_fields n r ]

-- `while (*s && pos < cap - 1) line[pos++] = *s++`
unfoldable pub emit : ℕ → List ℕ → List ℕ → List ℕ
emit cap line s = line ++ take (cap - 1 - length line) s
