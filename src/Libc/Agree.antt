-- ===== src/Libc/Agree.antt =====
-- The kernel's and the C library's routines agree, and what `strstr` finds.
use lufira_os.Base.{
  ◌+◌, ℕ, zero, suc, ◌≡◌, refl, sym, ap, ◌∙◌, true, false, some, List, [], ◌∷◌, ◌++◌, arith, ◌==◌,
  if◌then◌else◌, Bool-cases, inl, inr,
}
use lufira_os.Strings.{ℤ, pos, minus, first}
use lufira_os.Strings.Compare.{minus_self}
use lufira_os.Memory.{Bytes, store, copy_forward, copy_back}
use lufira_os.Libc.{memcpy, memmove, move_down, strncmp, stands_at, strstr}

-- `strncmp` of the C library and of the kernel return the same for all strings and lengths.
pub strncmp-strncmp : (a b : List ℕ) (n : ℕ) → strncmp a b n ≡ lufira_os.Strings.strncmp a b n
unfolding strncmp lufira_os.Strings.strncmp
strncmp-strncmp a b zero = refl
strncmp-strncmp [] b (suc zero) = refl
strncmp-strncmp (x ∷ xs) [] (suc zero) = refl
strncmp-strncmp (x ∷ xs) (y ∷ ys) (suc zero) = elim (Bool-cases (x == y)) [
  | inl e ↦ let z : x ≡ y = ground arith in rw (e, z) (sym (minus_self y))
  | inr e ↦ rw e refl
]
strncmp-strncmp [] b (suc (suc n)) = refl
strncmp-strncmp (x ∷ xs) [] (suc (suc n)) = refl
strncmp-strncmp (x ∷ xs) (y ∷ ys) (suc (suc n)) =
    ap (λ r. if x == y then r else minus x y) (strncmp-strncmp xs ys (suc n))

stands_at_front : (h n : List ℕ) → stands_at h n ≡ true → (rest : List ℕ) × (h ≡ n ++ rest)
unfolding stands_at
stands_at_front h [] e = (h, refl)
stands_at_front [] (n ∷ ns) e = absurd cc
stands_at_front (h ∷ hs) (n ∷ ns) e = elim (Bool-cases (h == n)) [
  | inl f ↦
      let z : h ≡ n = ground arith in
      let (rest, tails) = stands_at_front hs ns (rw f at e) in
      (rest, rw z (ap (λ xs. n ∷ xs) tails))
  | inr f ↦ let no : false ≡ true = rw f at e in absurd cc
]

-- What `strstr` returns is the end of the haystack from an occurrence of the needle on.
pub strstr_lem :
    (haystack needle found : List ℕ)
    → strstr haystack needle ≡ some found
    → (before rest : List ℕ) × (haystack ≡ before ++ found) × (found ≡ needle ++ rest)
unfolding strstr
strstr_lem haystack [] found e = let z : haystack ≡ found = cc in ([], found, z, refl)
strstr_lem [] (n ∷ ns) found e = absurd cc
strstr_lem (h ∷ hs) (n ∷ ns) found e = elim (Bool-cases (stands_at (h ∷ hs) (n ∷ ns))) [
  | inl f ↦
      let at : some (h ∷ hs) ≡ some found = rw f at e in
      let here : h ∷ hs ≡ found = cc in
      let (rest, front) = stands_at_front (h ∷ hs) (n ∷ ns) f in ([], rest, here, sym here ∙ front)
  | inr f ↦
      let (before, rest, all, front) = strstr_lem hs (n ∷ ns) found (rw f at e) in
      (h ∷ before, rest, ap (λ xs. h ∷ xs) all, front)
]

memcpy-copy_forward : (m : Bytes) (dst src n : ℕ) → memcpy m dst src n ≡ copy_forward n m dst src
unfolding memcpy copy_forward
memcpy-copy_forward m dst src zero = refl
memcpy-copy_forward m dst src (suc n) =
    memcpy-copy_forward (store m dst (m src)) (dst + 1) (src + 1) n

move_down-copy_back : (m : Bytes) (dst src n : ℕ) → move_down m dst src n ≡ copy_back n m dst src
unfolding move_down copy_back
move_down-copy_back m dst src zero = refl
move_down-copy_back m dst src (suc n) =
    move_down-copy_back (store m (dst + n) (m (src + n))) dst src n

-- `memmove` of the C library and of the kernel leave the same memory.
pub memmove-memmove :
    (m : Bytes) (dst src n : ℕ) → memmove m dst src n ≡ lufira_os.Memory.memmove m dst src n
unfolding memmove lufira_os.Memory.memmove
memmove-memmove m dst src n =
    rw (memcpy-copy_forward m dst src n, move_down-copy_back m dst src n) refl
