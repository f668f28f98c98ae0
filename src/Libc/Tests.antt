-- ===== src/Libc/Tests.antt =====
-- Tests of the C library.
use lufira_os.Base.{ℕ, ◌≡◌, refl, some, List, [], ◌∷◌, ◌++◌}
use lufira_os.Libc.{
  strncmp, strstr, stands_at, strrchr, strrchr_from, strtol, strtol_digits, base_prefix, sign,
  skip_space, is_space, digit_value,
}
use lufira_os.Libc.Agree.{strncmp-strncmp, strstr_lem}

-- "  -0x1Fz" in base 0
minus_31 :
    strtol (32 ∷ 32 ∷ 45 ∷ 48 ∷ 120 ∷ 49 ∷ 70 ∷ 122 ∷ []) 0 ≡ (18446744073709551585, 122 ∷ [])
unfolding strtol strtol_digits base_prefix sign skip_space is_space digit_value
minus_31 = refl

last_slash : strrchr (47 ∷ 97 ∷ 47 ∷ 98 ∷ []) 47 ≡ some (47 ∷ 98 ∷ [])
unfolding strrchr strrchr_from
last_slash = refl

found_bc : strstr (97 ∷ 98 ∷ 99 ∷ 100 ∷ []) (98 ∷ 99 ∷ []) ≡ some (98 ∷ 99 ∷ 100 ∷ [])
unfolding strstr stands_at
found_bc = refl

strncmp-strncmp_example :
    strncmp (97 ∷ 98 ∷ []) (97 ∷ 99 ∷ []) 2
    ≡ lufira_os.Strings.strncmp (97 ∷ 98 ∷ []) (97 ∷ 99 ∷ []) 2
strncmp-strncmp_example = strncmp-strncmp (97 ∷ 98 ∷ []) (97 ∷ 99 ∷ []) 2

strstr_lem_example :
    (before rest : List ℕ) × (97 ∷ 98 ∷ 99 ∷ 100 ∷ [] ≡ before ++ (98 ∷ 99 ∷ 100 ∷ []))
    × (98 ∷ 99 ∷ 100 ∷ [] ≡ (98 ∷ 99 ∷ []) ++ rest)
strstr_lem_example =
    strstr_lem (97 ∷ 98 ∷ 99 ∷ 100 ∷ []) (98 ∷ 99 ∷ []) (98 ∷ 99 ∷ 100 ∷ []) found_bc
