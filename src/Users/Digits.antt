-- ===== src/Users/Digits.antt =====
-- Numbers and bytes written as digits are read back by `atoi`, `hex_to_int` and `hex_to_bytes`.
use lufira_os.Base.{
  ℕ, zero, suc, ◌+◌, ◌-◌, ◌*◌, ◌/◌, ◌%◌, ◌^◌, ◌≤◌, ◌<◌, ◌≡◌, refl, sym, ap, ◌∙◌, true, false, some,
  List, [], ◌∷◌, ◌++◌, append-nil, append_assoc, length, All, arith, ltb, leb, ◌==◌, Bool-cases,
  inl, inr,
}
use lufira_os.Strings.{hex_value, hex_from, hex_to_int, atoi, atoi_digits}
use lufira_os.Users.Text.{
  hex_digit, format_hex, format_hex8, bytes_to_hex, hex_to_bytes, dec_digits, format_dec,
}

hex_value-hex_digit : (k : ℕ) → k < 16 → hex_value (hex_digit k) ≡ some k
unfolding hex_value hex_digit
hex_value-hex_digit k h = elim (Bool-cases (ltb k 10)) [
  | inl e ↦
      let low : k < 10 = ground arith in
      let a : leb 48 (48 + k) ≡ true = ground arith in
      let b : leb (48 + k) 57 ≡ true = ground arith in
      let z : 48 + k - 48 ≡ k = omega arith in rw (e, a, b, z) refl
  | inr e ↦
      let high : 10 ≤ k = ground arith in
      let a : leb (87 + k) 57 ≡ false = ground arith in
      let a' : leb 48 (87 + k) ≡ true = ground arith in
      let b : leb 97 (87 + k) ≡ true = ground arith in
      let c : leb (87 + k) 102 ≡ true = ground arith in
      let z : 87 + k - 97 + 10 ≡ k = omega arith in rw (e, a', a, b, c, z) refl
]

hex_to_bytes-pair :
    (c d hi lo n : ℕ) (hex : List ℕ)
    → hex_value c ≡ some hi
    → hex_value d ≡ some lo
    → hex_to_bytes (c ∷ d ∷ hex) (suc n) ≡ (hi * 16 + lo) % 256 ∷ hex_to_bytes hex n
unfolding hex_to_bytes
hex_to_bytes-pair c d hi lo n hex e f = rw (hex_to_bytes, e, f) refl

hex_from-digit :
    (c k r : ℕ) (hex : List ℕ)
    → hex_value c ≡ some k
    → hex_from (c ∷ hex) r ≡ hex_from hex ((r * 16 + k) % 2 ^ 32)
unfolding hex_from
hex_from-digit c k r hex e = rw (hex_from, e) refl

-- Bytes written as two hexadecimal digits each are read back as they were.
pub hex_to_bytes-bytes_to_hex :
    (bs : List ℕ) → All (λ b. b < 256) bs → hex_to_bytes (bytes_to_hex bs) (length bs) ≡ bs
unfolding bytes_to_hex hex_to_bytes
hex_to_bytes-bytes_to_hex [] h = refl
hex_to_bytes-bytes_to_hex (b ∷ bs) h =
    let z : (b / 16 % 16 * 16 + b % 16) % 256 ≡ b = omega (arith, h.0) in
    hex_to_bytes-pair (hex_digit (b / 16 % 16)) (hex_digit (b % 16)) (b / 16 % 16) (b % 16)
      (length bs) (bytes_to_hex bs) (hex_value-hex_digit (b / 16 % 16) (omega arith))
      (hex_value-hex_digit (b % 16) (omega arith))
    ∙ rw z (ap (λ xs. b ∷ xs) (hex_to_bytes-bytes_to_hex bs h.1))

-- 16 to the power `n`
abbrev hex_bound : ℕ → ℕ
hex_bound zero = 1
hex_bound (suc n) = hex_bound n * 16

hex_from-format_hex :
    (n v : ℕ) (rest : List ℕ)
    → v < hex_bound n
    → v < 2 ^ 32
    → hex_from (format_hex n v ++ rest) 0 ≡ hex_from rest v
unfolding hex_from format_hex
hex_from-format_hex zero v rest h small = let z : v ≡ 0 = omega (arith, h) in rw z refl
hex_from-format_hex (suc n) v rest h small =
    let z : (v / 16 * 16 + v % 16) % 2 ^ 32 ≡ v = omega (arith, small) in
    ap (λ q. hex_from q 0) (append_assoc (format_hex n (v / 16)) (hex_digit (v % 16) ∷ []) rest)
    ∙ hex_from-format_hex n (v / 16) (hex_digit (v % 16) ∷ rest) (omega (arith, h))
        (omega (arith, small))
    ∙ hex_from-digit (hex_digit (v % 16)) (v % 16) (v / 16) rest
        (hex_value-hex_digit (v % 16) (omega arith))
    ∙ ap (hex_from rest) z

-- A 32-bit number written as eight hexadecimal digits is read back as it was.
pub hex_to_int-format_hex8 : (v : ℕ) → v < 2 ^ 32 → hex_to_int (format_hex8 v) ≡ v
unfolding hex_to_int format_hex8 hex_from
hex_to_int-format_hex8 v h =
    ap (λ q. hex_from q 0) (sym (append-nil (format_hex 8 v)))
    ∙ hex_from-format_hex 8 v [] (omega (arith, h)) h

-- 10 to the power `n`
abbrev dec_bound : ℕ → ℕ
dec_bound zero = 1
dec_bound (suc n) = dec_bound n * 10

atoi_digits-dec_digits :
    (n v : ℕ) (rest : List ℕ)
    → v < dec_bound n
    → v < 2 ^ 32
    → atoi_digits (dec_digits n v rest) 0 ≡ atoi_digits rest v
unfolding atoi_digits dec_digits
atoi_digits-dec_digits zero v rest h small = let z : v ≡ 0 = omega (arith, h) in rw z refl
atoi_digits-dec_digits (suc n) v rest h small = elim (Bool-cases (v == 0)) [
  | inl e ↦ let z : v ≡ 0 = ground arith in rw (e, z) refl
  | inr e ↦
      let z : (v / 10 * 10 + (48 + v % 10 - 48)) % 2 ^ 32 ≡ v = omega (arith, small) in
      let a : leb 48 (48 + v % 10) ≡ true = ground arith in
      let b : leb (48 + v % 10) 57 ≡ true = ground arith in
      rw e (
        atoi_digits-dec_digits n (v / 10) ((48 + v % 10) ∷ rest) (omega (arith, h))
          (omega (arith, small))
        ∙ rw (a, b, z) refl)
]

-- The text starts with a digit, not with a sign.
abbrev StartsWithDigit : List ℕ → Type 0
StartsWithDigit [] = Unit
StartsWithDigit (x ∷ xs) = 48 ≤ x

dec_digits-StartsWithDigit :
    (n v : ℕ) (rest : List ℕ) → StartsWithDigit rest → StartsWithDigit (dec_digits n v rest)
unfolding dec_digits
dec_digits-StartsWithDigit zero v rest h = h
dec_digits-StartsWithDigit (suc n) v rest h = elim (Bool-cases (v == 0)) [
  | inl e ↦ rw e h
  | inr e ↦ rw e (dec_digits-StartsWithDigit n (v / 10) ((48 + v % 10) ∷ rest) (omega arith))
]

atoi_unsigned : (s : List ℕ) → StartsWithDigit s → atoi s ≡ atoi_digits s 0
unfolding atoi atoi_digits
atoi_unsigned [] h = refl
atoi_unsigned (x ∷ xs) h = let e : (x == 45) ≡ false = ground arith in rw e refl

-- A 32-bit number written in decimal is read back as it was.
pub atoi-format_dec : (v : ℕ) → v < 2 ^ 32 → atoi (format_dec v) ≡ v
unfolding format_dec atoi atoi_digits
atoi-format_dec v h = elim (Bool-cases (v == 0)) [
  | inl e ↦ let z : v ≡ 0 = ground arith in rw (e, z) refl
  | inr e ↦ rw e (
      atoi_unsigned (dec_digits 10 v []) (dec_digits-StartsWithDigit 10 v [] tt)
      ∙ atoi_digits-dec_digits 10 v [] (omega (arith, h)) h)
]
