-- ===== src/Users/Tests.antt =====
-- Tests of the users, on the files that the system is shipped with.
use lufira_os.Base.{ℕ, ◌<◌, ◌≡◌, refl, true, none, some, [], ◌∷◌, replicate, arith}
use lufira_os.Sha256.{Context}
use lufira_os.Strings.{atoi, hex_to_int, strcmp}
use lufira_os.Users.Text.{bytes_to_hex, hex_to_bytes, format_hex8, format_dec}
use lufira_os.Users.Digits.{hex_to_bytes-bytes_to_hex, hex_to_int-format_hex8, atoi-format_dec}
use lufira_os.Users.FreeIds.{FreeFrom, users_next_free_uid-FreeFrom}
use lufira_os.Users.Passwords.{users_check_password-users_set_password}
use lufira_os.Users.Adding.{users_lookup_by_name-users_add, users_check_password-users_add}
use lufira_os.Users.{
  User, Accounts, no_user, no_group, users_lookup_by_name, users_check_password,
  users_next_free_uid, users_add, users_set_password, put_password, rewrite_passwd_file,
  write_lines, free_user_slot, new_user, generate_salt,
}

abbrev stack : ℕ → Context
stack junk = record {
  state = record { a = 0; b = 0; c = 0; d = 0; e = 0; f = 0; g = 0; h = 0 };
  total_len = 0;
  block_len = 0;
  block = replicate 64 junk;
}

-- root and guest
abbrev root : User
root = record no_user { username = 114 ∷ 111 ∷ 111 ∷ 116 ∷ []; home = 47 ∷ []; in_use = true }

abbrev guest : User
guest = record no_user {
  username = 103 ∷ 117 ∷ 101 ∷ 115 ∷ 116 ∷ [];
  uid = 1000;
  gid = 1000;
  home = 47 ∷ [];
  in_use = true;
}

abbrev accounts : Accounts
accounts = record {
  users = root ∷ guest ∷ replicate 30 no_user;
  groups = replicate 32 no_group;
  passwd = some [];
  group = some [];
  counter = 0;
}

added_tom :
    (users_add (stack 5) true 100 accounts (116 ∷ 111 ∷ 109 ∷ []) 1001 1001 (1 ∷ []) []).1 ≡ true
unfolding users_add users_lookup_by_name free_user_slot strcmp
added_tom = refl

set_guest :
    (users_set_password (stack 5) true 2 100 accounts (103 ∷ 117 ∷ 101 ∷ 115 ∷ 116 ∷ []) (1 ∷ [])).1
    ≡ true
unfolding users_set_password put_password rewrite_passwd_file write_lines strcmp
set_guest = refl

hex_to_bytes-bytes_to_hex_example :
    hex_to_bytes (bytes_to_hex (0 ∷ 171 ∷ 255 ∷ [])) 3 ≡ 0 ∷ 171 ∷ 255 ∷ []
hex_to_bytes-bytes_to_hex_example =
    hex_to_bytes-bytes_to_hex (0 ∷ 171 ∷ 255 ∷ []) (omega arith, (omega arith, (omega arith, tt)))

hex_to_int-format_hex8_example : hex_to_int (format_hex8 0x12345678) ≡ 0x12345678
hex_to_int-format_hex8_example = hex_to_int-format_hex8 0x12345678 (omega arith)

atoi-format_dec_example : atoi (format_dec 4294967295) ≡ 4294967295
atoi-format_dec_example = atoi-format_dec 4294967295 (omega arith)

users_next_free_uid-FreeFrom_example :
    (found : ℕ) × (users_next_free_uid accounts.users ≡ some found)
    × FreeFrom accounts.users 1000 found
    × (found < 1033)
users_next_free_uid-FreeFrom_example = users_next_free_uid-FreeFrom accounts.users (omega arith)

users_check_password-users_set_password_example :
    users_check_password
      (stack 9)
      (users_set_password
        (stack 5)
        true
        2
        100
        accounts
        (103 ∷ 117 ∷ 101 ∷ 115 ∷ 116 ∷ [])
        (1 ∷ [])).0.users
      (103 ∷ 117 ∷ 101 ∷ 115 ∷ 116 ∷ [])
      (1 ∷ [])
    ≡ true
users_check_password-users_set_password_example =
    users_check_password-users_set_password (stack 5) (stack 9) true 2 100 accounts
      (103 ∷ 117 ∷ 101 ∷ 115 ∷ 116 ∷ []) (1 ∷ []) refl refl set_guest

users_lookup_by_name-users_add_example :
    (users_lookup_by_name accounts.users (116 ∷ 111 ∷ 109 ∷ []) ≡ none)
    × (users_lookup_by_name
          (users_add
            (stack 5)
            true
            100
            accounts
            (116 ∷ 111 ∷ 109 ∷ [])
            1001
            1001
            (1 ∷ [])
            []).0.users
          (116 ∷ 111 ∷ 109 ∷ [])
        ≡ some
            (new_user (stack 5) (generate_salt 100 0) (116 ∷ 111 ∷ 109 ∷ []) 1001 1001 (1 ∷ []) []))
users_lookup_by_name-users_add_example =
    users_lookup_by_name-users_add (stack 5) true 100 accounts 116 (111 ∷ 109 ∷ []) 1001 1001
      (1 ∷ []) [] (omega arith) added_tom

users_check_password-users_add_example :
    users_check_password
      (stack 9)
      (users_add (stack 5) true 100 accounts (116 ∷ 111 ∷ 109 ∷ []) 1001 1001 (1 ∷ []) []).0.users
      (116 ∷ 111 ∷ 109 ∷ [])
      (1 ∷ [])
    ≡ true
users_check_password-users_add_example =
    users_check_password-users_add (stack 5) true 100 accounts 116 (111 ∷ 109 ∷ []) 1001 1001
      (1 ∷ []) [] (stack 9) refl refl (omega arith) added_tom
