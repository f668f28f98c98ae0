-- ===== src/Users/Passwords.antt =====
-- A password that has been set, or that a new user has, is accepted.
use lufira_os.Base.{
  ℕ, ◌≡◌, refl, sym, ap, subst, ◌∙◌, Bool, true, false, Option, none, some, List, [], ◌∷◌, length,
  ◌&&◌, Bool-cases, Option-cases, inl, inr,
}
use lufira_os.Sha256.{Context, block_size}
use lufira_os.Sha256.Message.{sha256_any_stack}
use lufira_os.Strings.{memcmp, strcmp}
use lufira_os.Strings.Compare.{memcmp_self}
use lufira_os.Users.{
  User, Accounts, is_zero, salted_password_hash, generate_salt, users_lookup_by_name,
  users_check_password, put_password, rewrite_passwd_file, users_set_password,
}

salted_password_hash_same :
    (ctx ctx' : Context) (salt : ℕ) (password : List ℕ)
    → length ctx.block ≡ block_size
    → length ctx'.block ≡ block_size
    → salted_password_hash ctx salt password ≡ salted_password_hash ctx' salt password
unfolding salted_password_hash
salted_password_hash_same ctx ctx' salt password a b = sha256_any_stack ctx ctx' _ password a b

-- The first user in use with this name has the salted hash of the password.
unfoldable pub HasPassword : Context → ℕ → List User → (name password : List ℕ) → Type 0
HasPassword ctx salt us name password =
    (u : User) × (users_lookup_by_name us name ≡ some u)
    × (u.password_salt ≡ salt)
    × (u.password_hash ≡ salted_password_hash ctx salt password)

put_password-HasPassword :
    (ctx : Context) (salt : ℕ) (us us' : List User) (name password : List ℕ)
    → put_password ctx salt us name password ≡ some us'
    → HasPassword ctx salt us' name password
unfolding put_password HasPassword users_lookup_by_name
put_password-HasPassword ctx salt [] us' name password h = absurd cc
put_password-HasPassword ctx salt (u ∷ us) us' name password h =
    let changed : User = record u {
      password_salt = salt;
      password_hash = salted_password_hash ctx salt password;
    } in
    elim (Bool-cases (u.in_use && is_zero (strcmp u.username name))) [
      | inl e ↦
          let made : some (changed ∷ us) ≡ some us' = rw e at h in
          let new_table : changed ∷ us ≡ us' = cc in
          subst (λ t. HasPassword ctx salt t name password) new_table
            (changed, rw e refl, refl, refl)
      | inr e ↦ elim (Option-cases (put_password ctx salt us name password)) [
        | inl f ↦
            let failed : Option (List User) = none in
            let made : failed ≡ some us' = rw (e, f) at h in absurd cc
        | inr (later, f) ↦
            let made : some (u ∷ later) ≡ some us' = rw (e, f) at h in
            let new_table : u ∷ later ≡ us' = cc in
            let (v, found, s, p) = put_password-HasPassword ctx salt us later name password f in
            subst (λ t. HasPassword ctx salt t name password) new_table (v, rw e found, s, p)
      ]
    ]

pub HasPassword-check :
    (ctx ctx' : Context) (salt : ℕ) (us : List User) (name password : List ℕ)
    → length ctx.block ≡ block_size
    → length ctx'.block ≡ block_size
    → HasPassword ctx salt us name password
    → users_check_password ctx' us name password ≡ true
unfolding HasPassword users_check_password
HasPassword-check ctx ctx' salt us name password a b (u, found, s, p) =
    let same : salted_password_hash ctx' u.password_salt password ≡ u.password_hash =
      ap (λ n. salted_password_hash ctx' n password) s
      ∙ salted_password_hash_same ctx' ctx salt password b a
      ∙ sym p in
    rw (users_check_password, found)
      (ap (λ q. is_zero (memcmp 32 q u.password_hash)) same
        ∙ ap is_zero (memcmp_self 32 u.password_hash))

users-rewrite_passwd_file :
    (truncated : Bool) (writes : ℕ) (s : Accounts)
    → (rewrite_passwd_file truncated writes s).0.users ≡ s.users
unfolding rewrite_passwd_file
users-rewrite_passwd_file truncated writes s = elim (Option-cases s.passwd) [
  | inl e ↦ rw e refl
  | inr (old, e) ↦ elim (Bool-cases truncated) [ inl t ↦ rw (e, t) refl | inr f ↦ rw (e, f) refl ]
]

-- When `users_set_password` returns 0, `users_check_password` accepts the new password for that name,
-- whatever the buffers on the two stacks hold.
pub users_check_password-users_set_password :
    (ctx ctx' : Context) (truncated : Bool) (writes ticks : ℕ) (s : Accounts)
    (name password : List ℕ)
    → length ctx.block ≡ block_size
    → length ctx'.block ≡ block_size
    → (users_set_password ctx truncated writes ticks s name password).1 ≡ true
    → users_check_password ctx'
        (users_set_password ctx truncated writes ticks s name password).0.users
        name
        password
      ≡ true
unfolding users_set_password
users_check_password-users_set_password ctx ctx' truncated writes ticks s name password a b ok =
    let salt = generate_salt ticks s.counter in
    elim (Option-cases (put_password ctx salt s.users name password)) [
      | inl e ↦ let no : false ≡ true = rw (users_set_password, e) at ok in absurd cc
      | inr (us, e) ↦
          rw (users_set_password, e, users-rewrite_passwd_file)
            (HasPassword-check ctx ctx' salt us name password a b
              (put_password-HasPassword ctx salt s.users us name password e))
    ]
