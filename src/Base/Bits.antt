-- ===== src/Base/Bits.antt =====
-- The bits of a byte, through tables over all 256 values.
use Prim.Native.Nat.{ℕ, zero, suc, ◌-◌, ◌^◌, ◌<◌, bit_and, bit_or}
use mathlib.Core.Path.{◌≡◌, refl}
use mathlib.Core.Bool.{Bool, true, false, not, ◌&&◌, ◌||◌}
use native.Mathlib.Omega.{arith}
use lufira_os.Base.Tests.{◌==◌, ltb, ltb→lt}

-- Every number from 0 up to `bound`, which is not included, passes `test`.
unfoldable pub holds_to : (ℕ → Bool) → ℕ → Bool
holds_to test zero = true
holds_to test (suc bound) = holds_to test bound && test bound

pub holds_to-lt :
    (test : ℕ → Bool) (bound : ℕ) → holds_to test bound ≡ true → (i : ℕ) → i < bound → test i ≡ true
unfolding holds_to
holds_to-lt test (suc bound) all i below =
    let earlier = holds_to-lt test bound in ground (arith, earlier _ i)
holds_to-lt test zero all i below = absurd (omega (arith, below))

-- Bit k of byte x is set: `(x & (1 << k)) != 0`.
abbrev pub bit_test : ℕ → ℕ → Bool
bit_test x k = not (bit_and x (2 ^ k) == 0)

abbrev same : Bool → Bool → Bool
same true b = b
same false b = not b

same_sound : (a b : Bool) → same a b ≡ true → a ≡ b
same_sound a b h = ground arith

module _ (f : ℕ → ℕ → ℕ) (g : ℕ → ℕ → Bool → Bool) where
  abbrev row : ℕ → ℕ → ℕ → Bool
  row x k j = same (bit_test (f x k) j) (g j k (bit_test x j)) && ltb (f x k) 256

  abbrev table : Bool
  table = holds_to (λ x. holds_to (λ k. holds_to (row x k) 8) 8) 256

  row_of_table : table ≡ true → (x k j : ℕ) → x < 256 → k < 8 → j < 8 → row x k j ≡ true
  row_of_table t x k j hx hk hj =
      let of_x = holds_to-lt (λ x'. holds_to (λ k'. holds_to (row x' k') 8) 8) 256 t x hx in
      let of_k = holds_to-lt (λ k'. holds_to (row x k') 8) 8 of_x k hk in
      holds_to-lt (row x k) 8 of_k j hj

-- `x |= 1 << k` and `x &= ~(1 << k)` of a byte.
abbrev pub set_bit : ℕ → ℕ → ℕ
set_bit x k = bit_or x (2 ^ k)

abbrev pub clear_bit : ℕ → ℕ → ℕ
clear_bit x k = bit_and x (255 - 2 ^ k)

abbrev set_rule : ℕ → ℕ → Bool → Bool
set_rule j k b = j == k || b

abbrev clear_rule : ℕ → ℕ → Bool → Bool
clear_rule j k b = not (j == k) && b

set_table : table set_bit set_rule ≡ true
unfolding holds_to
set_table = refl

clear_table : table clear_bit clear_rule ≡ true
unfolding holds_to
clear_table = refl

and_parts : (a b : Bool) → (a && b) ≡ true → (a ≡ true) × (b ≡ true)
and_parts a b h = ground arith

module _ (x k j : ℕ) (hx : x < 256) (hk : k < 8) (hj : j < 8) where
  pub bit_test-set_bit : (bit_test (set_bit x k) j ≡ (j == k || bit_test x j)) × (set_bit x k < 256)
  bit_test-set_bit =
      let (a, b) = and_parts _ _ (row_of_table set_bit set_rule set_table x k j hx hk hj) in
      (same_sound _ _ a, ltb→lt _ _ b)

  pub bit_test-clear_bit :
      (bit_test (clear_bit x k) j ≡ (not (j == k) && bit_test x j)) × (clear_bit x k < 256)
  bit_test-clear_bit =
      let (a, b) = and_parts _ _ (row_of_table clear_bit clear_rule clear_table x k j hx hk hj) in
      (same_sound _ _ a, ltb→lt _ _ b)
