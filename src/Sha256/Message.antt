-- ===== src/Sha256/Message.antt =====
-- The digest of a whole message, and of one that comes in pieces.
use lufira_os.Base.{
  ℕ, ◌+◌, ◌%◌, ◌^◌, ◌<◌, ◌≡◌, sym, ap, ◌∙◌, true, List, [], ◌++◌, length, take, length-append,
  length-take, arith,
}
use lufira_os.Sha256.{
  Context, block_size, constants, sha256_init, sha256_update, sha256_final, sha256, digest,
}
use lufira_os.Sha256.Constants.{
  primes, are_root_fractions, words_of, sha256_init_square_roots, constants_cube_roots,
}
use lufira_os.Sha256.Stream.{Pending, absorb_all, absorb_all-append, length-absorb_all}
use lufira_os.Sha256.Final.{IsOpen, pending, Taken, sha256_update-Taken}
use lufira_os.Sha256.Padding.{padding, sha256_final_lem}

block_len_after :
    (v : Pending) (total_len : ℕ) (p : List ℕ) (ctx : Context)
    → length v.1 < block_size
    → Taken v total_len p ctx
    → ctx.block_len ≡ (length v.1 + length p) % block_size
block_len_after v total_len p ctx h t =
    let n : length (take ctx.block_len ctx.block) ≡ ctx.block_len =
      omega (arith, t.open_again.buffer, t.open_again.part, length-take ctx.block_len ctx.block) in
    sym n ∙ ap (λ (w : Pending). length w.1) t.absorbed ∙ length-absorb_all v.0 v.1 p h

-- The digest of the padded message, on a context with any buffer of 64 bytes.
sha256_padded :
    (ctx : Context) (bytes : List ℕ)
    → length ctx.block ≡ block_size
    → sha256 ctx bytes
      ≡ digest
          (absorb_all
            ((sha256_init ctx).state, [])
            (bytes ++ padding (length bytes % block_size) (length bytes % 2 ^ 64))).0
unfolding sha256 sha256_init
sha256_padded ctx bytes size =
    let ctx₀ : Context = sha256_init ctx in
    let t = sha256_update-Taken ctx₀ bytes (record { buffer = size; part = omega arith }) in
    let ctx₁ : Context = sha256_update ctx₀ bytes in
    let len : ctx₁.block_len ≡ length bytes % block_size =
      block_len_after (ctx₀.state, []) ((0 + length bytes) % 2 ^ 64) bytes ctx₁ (omega arith) t
      ∙ ap (λ n. n % block_size) (omega arith) in
    let total : ctx₁.total_len ≡ length bytes % 2 ^ 64 =
      t.counted ∙ ap (λ n. n % 2 ^ 64) (omega arith) in
    sha256_final_lem ctx₁ t.open_again
    ∙ ap (λ v. digest (absorb_all v (padding ctx₁.block_len ctx₁.total_len)).0) t.absorbed
    ∙ ap (λ n. digest (absorb_all (absorb_all (ctx₀.state, []) bytes) (padding n ctx₁.total_len)).0)
        len
    ∙ ap
        (λ n.
          digest
            (absorb_all (absorb_all (ctx₀.state, []) bytes)
              (padding (length bytes % block_size) n)).0)
        total
    ∙ ap (λ (v : Pending). digest v.0) (sym (absorb_all-append (ctx₀.state, []) bytes _))

-- The digest of a message, on a context that may hold anything in its buffer of 64 bytes: the message,
-- 0x80, zeros and the length in bits are taken in byte by byte from the initial words on, and each 64
-- bytes go through the code's own compression. The initial words are the first 32 bits of the
-- fractional parts of the square roots of the first 8 primes, and the constants of the rounds those of
-- the cube roots of the first 64. That the rounds are those of FIPS 180-4 is not stated.
pub sha256_lem :
    (ctx : Context) (bytes : List ℕ)
    → length ctx.block ≡ block_size
    → (sha256 ctx bytes
        ≡ digest
            (absorb_all
              ((sha256_init ctx).state, [])
              (bytes ++ padding (length bytes % block_size) (length bytes % 2 ^ 64))).0)
      × (are_root_fractions 2 (take 8 primes) (words_of (sha256_init ctx).state) ≡ true)
      × (are_root_fractions 3 primes constants ≡ true)
sha256_lem ctx bytes size =
    (sha256_padded ctx bytes size, sha256_init_square_roots ctx, constants_cube_roots)

-- From a context between two calls, two calls of `sha256_update` give the digest that one call with
-- the two pieces joined gives.
pub sha256_update-append :
    (ctx : Context) (xs ys : List ℕ)
    → IsOpen ctx
    → sha256_final (sha256_update (sha256_update ctx xs) ys)
      ≡ sha256_final (sha256_update ctx (xs ++ ys))
sha256_update-append ctx xs ys o =
    let one = sha256_update-Taken ctx (xs ++ ys) o in
    let first = sha256_update-Taken ctx xs o in
    let second = sha256_update-Taken (sha256_update ctx xs) ys first.open_again in
    let a : Context = sha256_update (sha256_update ctx xs) ys in
    let b : Context = sha256_update ctx (xs ++ ys) in
    let same : pending a ≡ pending b =
      second.absorbed
      ∙ ap (λ v. absorb_all v ys) first.absorbed
      ∙ sym (absorb_all-append (pending ctx) xs ys)
      ∙ sym one.absorbed in
    let len : a.block_len ≡ b.block_len = lengths a b second.open_again one.open_again same in
    let total : a.total_len ≡ b.total_len =
      omega (arith, first.counted, second.counted, one.counted, length-append xs ys) in
    sha256_final_lem a second.open_again
    ∙ ap (λ v. digest (absorb_all v (padding a.block_len a.total_len)).0) same
    ∙ ap (λ n. digest (absorb_all (pending b) (padding n a.total_len)).0) len
    ∙ ap (λ n. digest (absorb_all (pending b) (padding b.block_len n)).0) total
    ∙ sym (sha256_final_lem b one.open_again)
  where
    lengths :
        (a b : Context) → IsOpen a → IsOpen b → pending a ≡ pending b → a.block_len ≡ b.block_len
    lengths a b oa ob e = omega (
      arith,
      oa.buffer,
      oa.part,
      ob.buffer,
      ob.part,
      length-take a.block_len a.block,
      length-take b.block_len b.block,
      ap (λ (v : Pending). length v.1) e,
    )

-- What the context on the stack holds before makes no difference to the digest of two pieces.
pub sha256_any_stack :
    (ctx ctx' : Context) (xs ys : List ℕ)
    → length ctx.block ≡ block_size
    → length ctx'.block ≡ block_size
    → sha256_final (sha256_update (sha256_update (sha256_init ctx) xs) ys)
      ≡ sha256_final (sha256_update (sha256_update (sha256_init ctx') xs) ys)
unfolding sha256 sha256_init
sha256_any_stack ctx ctx' xs ys a b =
    let o : IsOpen (sha256_init ctx) = record { buffer = a; part = omega arith } in
    let o' : IsOpen (sha256_init ctx') = record { buffer = b; part = omega arith } in
    sha256_update-append (sha256_init ctx) xs ys o
    ∙ sha256_padded ctx (xs ++ ys) a
    ∙ sym (sha256_padded ctx' (xs ++ ys) b)
    ∙ sym (sha256_update-append (sha256_init ctx') xs ys o')
