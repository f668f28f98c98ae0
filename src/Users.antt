-- ===== src/Users.antt =====
-- The users and groups of the system, kernel/system/users/users.c, kept in two tables of 32 slots and
-- in the files /etc/passwd and /etc/group. A file is `none` when it cannot be found; whether a write
-- to the disk succeeds is an argument. Texts are lists of bytes without the NUL at their end.
pub mod Text
pub mod Digits
pub mod FreeIds
pub mod Passwords
pub mod Adding
mod Tests
use lufira_os.Base.{
  ℕ, zero, suc, ◌+◌, ◌-◌, ◌*◌, ◌/◌, ◌%◌, ◌^◌, bit_xor, Bool, true, false, not, ◌&&◌, ◌||◌, Option,
  none, some, List, [], ◌∷◌, ◌++◌, length, get_or, set, take, drop, replicate, leb, ◌==◌,
  if◌then◌else◌,
}
use lufira_os.Sha256.{Context, sha256_init, sha256_update, sha256_final}
use lufira_os.Strings.{ℤ, pos, negsuc, strcmp, memcmp, atoi, hex_to_int}
use lufira_os.Users.Text.{
  copy_bounded, format_hex8, bytes_to_hex, hex_to_bytes, format_dec, cut, split_fields, emit,
}

abbrev pub max_users : ℕ
max_users = 32

abbrev pub max_groups : ℕ
max_groups = 32

-- `user_entry_t`
pub record User : Type 0 where
  pub username : List ℕ
  pub uid : ℕ
  pub gid : ℕ
  pub password_salt : ℕ
  pub password_hash : List ℕ
  pub home : List ℕ
  pub in_use : Bool

-- `group_entry_t`
pub record Group : Type 0 where
  pub groupname : List ℕ
  pub gid : ℕ
  pub in_use : Bool

abbrev pub no_user : User
no_user = record {
  username = [];
  uid = 0;
  gid = 0;
  password_salt = 0;
  password_hash = replicate 32 0;
  home = [];
  in_use = false;
}

abbrev pub no_group : Group
no_group = record { groupname = []; gid = 0; in_use = false }

abbrev pub is_zero : ℤ → Bool
is_zero (pos zero) = true
is_zero (pos (suc n)) = false
is_zero (negsuc n) = false

-- `salted_password_hash`; `ctx` is the uninitialised context on the stack.
pub salted_password_hash : Context → ℕ → List ℕ → List ℕ
salted_password_hash ctx salt password =
    let salt_be =
      salt / 2 ^ 24 % 256 ∷ salt / 2 ^ 16 % 256 ∷ salt / 2 ^ 8 % 256 ∷ salt % 256 ∷ [] in
    sha256_final (sha256_update (sha256_update (sha256_init ctx) salt_be) password)

-- `generate_salt`, from the timer's ticks and the counter of the calls before.
pub generate_salt : (ticks counter : ℕ) → ℕ
generate_salt ticks counter =
    bit_xor (bit_xor (ticks % 2 ^ 32) ((counter + 1) * 0x9e3779b9 % 2 ^ 32)) 0xA5A5A5A5

-- The fields of a line of /etc/passwd as a user: five, or six with the home directory.
pub user_of : List (List ℕ) → Option User
user_of (name ∷ uid ∷ gid ∷ salt ∷ hash ∷ homes) = some (record {
  username = copy_bounded name 32;
  uid = atoi uid;
  gid = atoi gid;
  password_salt = hex_to_int salt;
  password_hash = hex_to_bytes hash 32;
  home = elim homes [ [] ↦ 47 ∷ [] | home ∷ more ↦ copy_bounded home 64 ];
  in_use = true;
})
user_of _ = none

abbrev starts_with : ℕ → List ℕ → Bool
starts_with c [] = false
starts_with c (x ∷ xs) = x == c

-- An empty line and one that starts with '#' are passed over.
pub parse_user_line : List ℕ → Option User
parse_user_line [] = none
parse_user_line (x ∷ xs) = if x == 35 then none else user_of (split_fields 5 (x ∷ xs))

-- The loop of `parse_passwd` over lines: at most `room` more users. Every turn takes at least one
-- byte off, so that the length of the content is enough fuel.
pub parse_users : ℕ → ℕ → List ℕ → List User
parse_users zero room content = []
parse_users (suc n) zero content = []
parse_users (suc n) (suc room) [] = []
parse_users (suc n) (suc room) (x ∷ xs) =
    let (line, rest) = cut 10 (x ∷ xs) in
    let left : List ℕ = elim rest [ none ↦ [] | some r ↦ r ] in
    elim (parse_user_line line) [
      | none ↦ parse_users n (suc room) left
      | some u ↦ u ∷ parse_users n room left
    ]

-- `parse_passwd`
pub parse_passwd : Option (List ℕ) → List User
parse_passwd none = replicate max_users no_user
parse_passwd (some content) =
    let us = parse_users (length content) max_users content in
    us ++ replicate (max_users - length us) no_user

pub group_of : List (List ℕ) → Option Group
group_of (name ∷ gid ∷ more) =
    some (record { groupname = copy_bounded name 32; gid = atoi gid; in_use = true })
group_of _ = none

pub parse_group_line : List ℕ → Option Group
parse_group_line [] = none
parse_group_line (x ∷ xs) = if x == 35 then none else group_of (split_fields 1 (x ∷ xs))

pub parse_groups : ℕ → ℕ → List ℕ → List Group
parse_groups zero room content = []
parse_groups (suc n) zero content = []
parse_groups (suc n) (suc room) [] = []
parse_groups (suc n) (suc room) (x ∷ xs) =
    let (line, rest) = cut 10 (x ∷ xs) in
    let left : List ℕ = elim rest [ none ↦ [] | some r ↦ r ] in
    elim (parse_group_line line) [
      | none ↦ parse_groups n (suc room) left
      | some u ↦ u ∷ parse_groups n room left
    ]

-- `parse_group`
pub parse_group : Option (List ℕ) → List Group
parse_group none = replicate max_groups no_group
parse_group (some content) =
    let gs = parse_groups (length content) max_groups content in
    gs ++ replicate (max_groups - length gs) no_group

-- The lookups: the first entry in use that matches.
pub users_lookup_by_name : List User → List ℕ → Option User
users_lookup_by_name [] name = none
users_lookup_by_name (u ∷ us) name =
    let rest = users_lookup_by_name us name in
    if u.in_use && is_zero (strcmp u.username name) then some u else rest

pub users_lookup_by_uid : List User → ℕ → Option User
users_lookup_by_uid [] uid = none
users_lookup_by_uid (u ∷ us) uid =
    let rest = users_lookup_by_uid us uid in if u.in_use && u.uid == uid then some u else rest

pub groups_lookup_by_name : List Group → List ℕ → Option Group
groups_lookup_by_name [] name = none
groups_lookup_by_name (g ∷ gs) name =
    let rest = groups_lookup_by_name gs name in
    if g.in_use && is_zero (strcmp g.groupname name) then some g else rest

pub groups_lookup_by_gid : List Group → ℕ → Option Group
groups_lookup_by_gid [] gid = none
groups_lookup_by_gid (g ∷ gs) gid =
    let rest = groups_lookup_by_gid gs gid in if g.in_use && g.gid == gid then some g else rest

-- `users_check_password`; a null password is the empty text.
pub users_check_password : Context → List User → (name password : List ℕ) → Bool
users_check_password ctx us name password = elim (users_lookup_by_name us name) [
  | none ↦ false
  | some u ↦ is_zero (memcmp 32 (salted_password_hash ctx u.password_salt password) u.password_hash)
]

-- `build_user_line`, in a buffer of `size` bytes.
pub build_user_line : User → ℕ → List ℕ
build_user_line u size =
    let colon = 58 ∷ [] in
    let fields =
      emit size
        (emit size
          (emit size
            (emit size
              (emit size
                (emit size
                  (emit size (emit size (emit size [] u.username) colon) (format_dec u.uid)) colon)
                (format_dec u.gid))
              colon)
            (format_hex8 u.password_salt))
          colon)
        (bytes_to_hex u.password_hash) in
    let home : List ℕ = elim u.home [ [] ↦ 47 ∷ [] | x ∷ xs ↦ x ∷ xs ] in
    emit size (emit size (emit size fields colon) home) (10 ∷ [])

pub free_user_slot : List User → ℕ → Option ℕ
free_user_slot [] i = none
free_user_slot (u ∷ us) i =
    let rest = free_user_slot us (i + 1) in if u.in_use then rest else some i

pub free_group_slot : List Group → ℕ → Option ℕ
free_group_slot [] i = none
free_group_slot (g ∷ gs) i =
    let rest = free_group_slot gs (i + 1) in if g.in_use then rest else some i

-- The tables, the files, and the counter of `generate_salt`.
pub record Accounts : Type 0 where
  pub users : List User
  pub groups : List Group
  pub passwd : Option (List ℕ)
  pub group : Option (List ℕ)
  pub counter : ℕ

-- `users_init`
pub users_init : Accounts → Accounts
users_init s = record s { users = parse_passwd s.passwd; groups = parse_group s.group }

-- The entry that `users_add` makes.
pub new_user :
    Context → (salt : ℕ) → (name : List ℕ) → (uid gid : ℕ) → (password home : List ℕ) → User
new_user ctx salt name uid gid password home = record {
  username = copy_bounded name 32;
  uid = uid;
  gid = gid;
  password_salt = salt;
  password_hash = salted_password_hash ctx salt password;
  home = copy_bounded (elim home [ [] ↦ 47 ∷ [] | x ∷ xs ↦ x ∷ xs ]) 64;
  in_use = true;
}

-- `users_add`: the state after it and whether it returns 0. A null name is the empty one, as are a
-- null password and home. `written` says whether the write to the disk succeeds.
pub users_add :
    Context
    → (written : Bool) → (ticks : ℕ) → Accounts
    → (name : List ℕ) → (uid gid : ℕ) → (password home : List ℕ) → Accounts × Bool
users_add ctx written ticks s [] uid gid password home = (s, false)
users_add ctx written ticks s (c ∷ cs) uid gid password home =
    let name : List ℕ = c ∷ cs in
    let u = new_user ctx (generate_salt ticks s.counter) name uid gid password home in
    let salted : Accounts = record s { counter = (s.counter + 1) % 2 ^ 32 } in
    elim (users_lookup_by_name s.users name) [
      | some old ↦ (s, false)
      | none ↦ elim (free_user_slot s.users 0) [
        | none ↦ (s, false)
        | some slot ↦ elim s.passwd [
          | none ↦ (s, false)
          | some content ↦
              if written
              then (
                record salted {
                  users = set s.users slot u;
                  passwd = some (content ++ build_user_line u 256);
                },
                true,
              )
              else (salted, false)
        ]
      ]
    ]

-- The loop of `rewrite_passwd_file`: the lines of the users in use, one behind another, and whether
-- all were written; `writes` is how many writes the disk takes.
pub write_lines : (writes : ℕ) → List User → List ℕ → List ℕ × Bool
write_lines writes [] content = (content, true)
write_lines zero (u ∷ us) content =
    if u.in_use then (content, false) else write_lines zero us content
write_lines (suc n) (u ∷ us) content =
    let next = write_lines n us (content ++ build_user_line u 256) in
    let passed = write_lines (suc n) us content in if u.in_use then next else passed

-- `rewrite_passwd_file`; `truncated` says whether the file can be emptied.
pub rewrite_passwd_file : (truncated : Bool) → (writes : ℕ) → Accounts → Accounts × Bool
rewrite_passwd_file truncated writes s =
    let (content, done) = write_lines writes s.users [] in
    elim s.passwd [
      | none ↦ (s, false)
      | some old ↦ if truncated then (record s { passwd = some content }, done) else (s, false)
    ]

-- The loop of `users_set_password`: the table with the new password, `none` when no name matches.
pub put_password : Context → (salt : ℕ) → List User → (name password : List ℕ) → Option (List User)
put_password ctx salt [] name password = none
put_password ctx salt (u ∷ us) name password =
    let changed : User = record u {
      password_salt = salt;
      password_hash = salted_password_hash ctx salt password;
    } in
    let later : Option (List User) = elim (put_password ctx salt us name password) [
      | none ↦ none
      | some us' ↦ some (u ∷ us')
    ] in
    if u.in_use && is_zero (strcmp u.username name) then some (changed ∷ us) else later

-- `users_set_password`: the table changes even when the file cannot be written.
pub users_set_password :
    Context
    → (truncated : Bool) → (writes ticks : ℕ) → Accounts
    → (name password : List ℕ) → Accounts × Bool
users_set_password ctx truncated writes ticks s name password =
    elim (put_password ctx (generate_salt ticks s.counter) s.users name password) [
      | none ↦ (s, false)
      | some us ↦
          rewrite_passwd_file truncated writes
            (record s { users = us; counter = (s.counter + 1) % 2 ^ 32 })
    ]

-- The loops of `users_next_free_uid` and `groups_next_free_gid`, on fuel.
pub next_uid : ℕ → List User → ℕ → Option ℕ
next_uid zero us candidate = none
next_uid (suc n) us candidate =
    let rest = next_uid n us ((candidate + 1) % 2 ^ 32) in
    elim (users_lookup_by_uid us candidate) [ none ↦ some candidate | some u ↦ rest ]

pub users_next_free_uid : List User → Option ℕ
users_next_free_uid us = next_uid (max_users + 1) us 1000

pub next_gid : ℕ → List Group → ℕ → Option ℕ
next_gid zero gs candidate = none
next_gid (suc n) gs candidate =
    let rest = next_gid n gs ((candidate + 1) % 2 ^ 32) in
    elim (groups_lookup_by_gid gs candidate) [ none ↦ some candidate | some g ↦ rest ]

pub groups_next_free_gid : List Group → Option ℕ
groups_next_free_gid gs = next_gid (max_groups + 1) gs 1000

-- `groups_add`: the state after it and whether it returns 0.
pub groups_add : (written : Bool) → Accounts → (name : List ℕ) → (gid : ℕ) → Accounts × Bool
groups_add written s [] gid = (s, false)
groups_add written s (c ∷ cs) gid =
    let name : List ℕ = c ∷ cs in
    let line = emit 80 (emit 80 (emit 80 (emit 80 [] name) (58 ∷ [])) (format_dec gid)) (10 ∷ []) in
    let g : Group = record { groupname = copy_bounded name 32; gid = gid; in_use = true } in
    elim (groups_lookup_by_name s.groups name) [
      | some old ↦ (s, false)
      | none ↦ elim (free_group_slot s.groups 0) [
        | none ↦ (s, false)
        | some slot ↦ elim s.group [
          | none ↦ (s, false)
          | some content ↦
              if written
              then (record s { groups = set s.groups slot g; group = some (content ++ line) }, true)
              else (s, false)
        ]
      ]
    ]

-- `users_root_has_default_password`: the password "toor" of the user with uid 0.
pub users_root_has_default_password : Context → List User → Bool
users_root_has_default_password ctx us = elim (users_lookup_by_uid us 0) [
  | none ↦ false
  | some root ↦ is_zero (
      memcmp 32 (salted_password_hash ctx root.password_salt (116 ∷ 111 ∷ 111 ∷ 114 ∷ []))
        root.password_hash)
]
