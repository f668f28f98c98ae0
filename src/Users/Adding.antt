-- ===== src/Users/Adding.antt =====
-- A user who has been added is found under the name, and the password is accepted.
use lufira_os.Base.{
  ℕ, zero, suc, ◌+◌, ◌-◌, ◌≤◌, ◌≡◌, refl, ap, ◌∙◌, Bool, true, false, Option, none, some, List, [],
  ◌∷◌, length, set, take, arith, ◌&&◌, Bool-cases, Option-cases, inl, inr,
}
use lufira_os.Sha256.{Context, block_size}
use lufira_os.Strings.{strcmp}
use lufira_os.Strings.Compare.{strcmp_self}
use lufira_os.Users.Text.{copy_bounded}
use lufira_os.Users.{
  User, Accounts, is_zero, generate_salt, new_user, users_lookup_by_name, users_check_password,
  free_user_slot, users_add,
}
use lufira_os.Users.Passwords.{HasPassword, HasPassword-check}

take_short : (n : ℕ) (xs : List ℕ) → length xs ≤ n → take n xs ≡ xs
take_short zero [] h = refl
take_short zero (x ∷ xs) h = absurd (omega arith)
take_short (suc n) [] h = refl
take_short (suc n) (x ∷ xs) h = ap (λ ys. x ∷ ys) (take_short n xs (omega arith))

-- No name before the first free slot is in the way.
lookup-set_free :
    (us : List User) (i slot : ℕ) (name : List ℕ) (u : User)
    → users_lookup_by_name us name ≡ none
    → free_user_slot us i ≡ some slot
    → (u.in_use && is_zero (strcmp u.username name)) ≡ true
    → (i ≤ slot) × (users_lookup_by_name (set us (slot - i) u) name ≡ some u)
unfolding users_lookup_by_name free_user_slot
lookup-set_free [] i slot name u absent free own = absurd cc
lookup-set_free (v ∷ us) i slot name u absent free own =
    elim (Bool-cases (v.in_use && is_zero (strcmp v.username name))) [
      | inl e ↦
          let no_user : Option User = none in
          let found : some v ≡ no_user = rw e at absent in absurd cc
      | inr e ↦
          let later : users_lookup_by_name us name ≡ none = rw e at absent in
          elim (Bool-cases v.in_use) [
            | inl used ↦
                let free' : free_user_slot us (i + 1) ≡ some slot = rw used at free in
                let (le, found) = lookup-set_free us (i + 1) slot name u later free' own in
                let z : slot - i ≡ suc (slot - (i + 1)) = omega (arith, le) in
                (omega (arith, le), rw (z, e) found)
            | inr unused ↦
                let at : some i ≡ some slot = rw unused at free in
                let here : i ≡ slot = cc in
                let z : slot - i ≡ 0 = omega (arith, here) in
                (omega (arith, here), rw (z, own) refl)
          ]
    ]

module _ (ctx : Context) (written : Bool) (ticks : ℕ) (s : Accounts) (c : ℕ) (cs : List ℕ)
    (uid gid : ℕ) (password home : List ℕ) where
  abbrev name : List ℕ
  name = c ∷ cs

  abbrev added : Accounts × Bool
  added = users_add ctx written ticks s name uid gid password home

  abbrev entry : User
  entry = new_user ctx (generate_salt ticks s.counter) name uid gid password home

  entry-own : length name ≤ 31 → (entry.in_use && is_zero (strcmp entry.username name)) ≡ true
  unfolding new_user copy_bounded
  entry-own short =
      ap (λ q. is_zero (strcmp q name)) (take_short 31 name short) ∙ ap is_zero (strcmp_self name)

  -- When `users_add` returns 0 for a name of at most 31 bytes, that name was not in the table, and
  -- the lookup now finds the new entry.
  pub users_lookup_by_name-users_add :
      length name ≤ 31
      → added.1 ≡ true
      → (users_lookup_by_name s.users name ≡ none)
        × (users_lookup_by_name added.0.users name ≡ some entry)
  unfolding users_add
  users_lookup_by_name-users_add short ok =
      let refused : Bool = false in
      elim (Option-cases (users_lookup_by_name s.users name)) [
        | inr (old, e) ↦ let no : refused ≡ true = rw (users_add, e) at ok in absurd cc
        | inl e ↦ elim (Option-cases (free_user_slot s.users 0)) [
          | inl f ↦ let no : refused ≡ true = rw (users_add, e, f) at ok in absurd cc
          | inr (slot, f) ↦ elim (Option-cases s.passwd) [
            | inl g ↦ let no : refused ≡ true = rw (users_add, e, f, g) at ok in absurd cc
            | inr (content, g) ↦ elim (Bool-cases written) [
              | inr w ↦ let no : refused ≡ true = rw (users_add, e, f, g, w) at ok in absurd cc
              | inl w ↦
                  let z : slot - 0 ≡ slot = omega arith in
                  let set_slot = lookup-set_free s.users 0 slot name entry e f (entry-own short) in
                  (e, rw (users_add, e, f, g, w) (rw z at (set_slot.1)))
            ]
          ]
        ]
      ]

  -- When `users_add` returns 0 for a name of at most 31 bytes, `users_check_password` accepts the
  -- password that was given, whatever the buffers of 64 bytes on the two stacks hold.
  pub users_check_password-users_add :
      (ctx' : Context)
      → length ctx.block ≡ block_size
      → length ctx'.block ≡ block_size
      → length name ≤ 31
      → added.1 ≡ true
      → users_check_password ctx' added.0.users name password ≡ true
  unfolding HasPassword new_user
  users_check_password-users_add ctx' a b short ok =
      HasPassword-check ctx ctx' (generate_salt ticks s.counter) added.0.users name password a b
        (entry, (users_lookup_by_name-users_add short ok).1, refl, refl)
