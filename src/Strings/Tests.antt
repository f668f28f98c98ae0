-- ===== src/Strings/Tests.antt =====
-- Tests of the string routines.
use lufira_os.Base.{ℕ, ◌≡◌, ◌↔◌, refl, true, some, List, [], ◌∷◌, take, arith}
use lufira_os.Strings.{strcmp, strncmp, pos, negsuc, token_equals, is_help_flag, atoi, atoi_digits}
use lufira_os.Strings.Compare.{IsString, strcmp_lem, strncmp_lem}

abbrev ab : List ℕ
ab = 97 ∷ 98 ∷ []

abbrev abc : List ℕ
abc = 97 ∷ 98 ∷ 99 ∷ []

ab-IsString : IsString ab
ab-IsString = (omega arith, (omega arith, tt))

abc-IsString : IsString abc
abc-IsString = (omega arith, (omega arith, (omega arith, tt)))

shorter : strcmp ab abc ≡ negsuc 98
unfolding strcmp
shorter = refl

help_flag : is_help_flag (some (45 ∷ 104 ∷ 32 ∷ 97 ∷ [])) ≡ true
unfolding is_help_flag token_equals
help_flag = refl

minus_twelve : atoi (45 ∷ 49 ∷ 50 ∷ 97 ∷ []) ≡ 4294967284
unfolding atoi atoi_digits
minus_twelve = refl

strcmp_lem_example : (strcmp ab abc ≡ pos 0) ↔ (ab ≡ abc)
strcmp_lem_example = strcmp_lem ab abc ab-IsString abc-IsString

strncmp_lem_example : (strncmp ab abc 2 ≡ pos 0) ↔ (take 2 ab ≡ take 2 abc)
strncmp_lem_example = strncmp_lem ab abc 2 ab-IsString abc-IsString
