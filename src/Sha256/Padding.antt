-- ===== src/Sha256/Padding.antt =====
-- `sha256_final` compared with the padding of FIPS 180-4, section 5.1.1.
use lufira_os.Base.{
  ℕ, zero, suc, ◌+◌, ◌-◌, ◌*◌, ◌%◌, ◌^◌, ◌≤◌, ◌<◌, ◌≡◌, refl, sym, ap, ◌∙◌, List, [], ◌∷◌, ◌++◌,
  append-nil, append_assoc, length, take, drop, replicate, length-append, length-take, length-drop,
  length-replicate, arith, ltb, Bool-cases, inl, inr,
}
use lufira_os.Sha256.{
  Words, Context, compress, put, block_size, sha256_final, close_block, digest, big_endian,
}
use lufira_os.Sha256.Lists.{take-drop, drop_all, put_after}
use lufira_os.Sha256.Stream.{
  Pending, absorb_all, absorb_all-append, absorb_all_part, absorb_all_whole,
}
use lufira_os.Sha256.Final.{IsOpen, pending}

length-big_endian : (n v : ℕ) → length (big_endian n v) ≡ n
unfolding big_endian
length-big_endian zero v = refl
length-big_endian (suc n) v = ap suc (length-big_endian n v)

replicate_append : (m n : ℕ) (x : ℕ) → replicate m x ++ replicate n x ≡ replicate (m + n) x
replicate_append zero n x = let z : 0 + n ≡ n = omega arith in rw z refl
replicate_append (suc m) n x =
    let z : suc m + n ≡ suc (m + n) = omega arith in
    rw z (ap (λ xs. x ∷ xs) (replicate_append m n x))

abbrev bit_count : ℕ → List ℕ
bit_count total_len = big_endian 8 (total_len * 8 % 2 ^ 64)

-- The padding behind `n` bytes of the last block: 0x80, zeros up to byte 56 of a block, and the
-- length of the message in bits.
abbrev pub padding : (n total_len : ℕ) → List ℕ
padding n total_len = 128 ∷ (replicate ((119 - n) % 64) 0 ++ bit_count total_len)

-- The end of the last block, from `front` on.
close_block_lem :
    (s : Words) (front rest : List ℕ) (total_len : ℕ)
    → length front ≤ 56
    → length front + length rest ≡ block_size
    → close_block s (front ++ rest) (length front) total_len
      ≡ (absorb_all (s, front) (replicate (56 - length front) 0 ++ bit_count total_len)).0
unfolding close_block
close_block_lem s front rest total_len h e =
    let n : ℕ = 56 - length front in
    let zeros : List ℕ = replicate n 0 in
    let bits : List ℕ = bit_count total_len in
    let z : length zeros ≡ n = length-replicate n 0 in
    let b : length bits ≡ 8 = length-big_endian 8 _ in
    let left : List ℕ = drop (length zeros) rest in
    let none_left : drop (length bits) left ≡ [] =
      drop_all (length bits) left (omega (arith, b, z, e, length-drop (length zeros) rest)) in
    let last : put (put (front ++ rest) (length front) zeros) 56 bits ≡ front ++ (zeros ++ bits) =
      ap (λ q. put q 56 bits) (put_after front rest zeros (length front) refl)
      ∙ put_after (front ++ zeros) left bits 56 (omega (arith, z, h, length-append front zeros))
      ∙ ap (λ q. (front ++ zeros ++ bits) ++ q) none_left
      ∙ append-nil (front ++ zeros ++ bits)
      ∙ append_assoc front zeros bits in
    ap (compress s) last
    ∙ ap (λ (v : Pending). v.0)
        (sym (
          absorb_all_whole s front (zeros ++ bits) (omega (arith, h))
            (omega (arith, h, z, b, length-append zeros bits))))

module _ (ctx : Context) (o : IsOpen ctx) where
  abbrev front : List ℕ
  front = take ctx.block_len ctx.block

  abbrev rest : List ℕ
  rest = drop ctx.block_len ctx.block

  length-front : length front ≡ ctx.block_len
  length-front = omega (arith, o.buffer, o.part, length-take ctx.block_len ctx.block)

  length-rest : length rest ≡ block_size - ctx.block_len
  length-rest = omega (arith, o.buffer, length-drop ctx.block_len ctx.block)

  -- The buffer with 0x80 in it.
  abbrev marked : List ℕ
  marked = (front ++ (128 ∷ [])) ++ drop 1 rest

  marked_is : put ctx.block ctx.block_len (128 ∷ []) ≡ marked
  marked_is =
      ap (λ q. put q ctx.block_len (128 ∷ [])) (sym (take-drop ctx.block_len ctx.block))
      ∙ put_after front rest (128 ∷ []) ctx.block_len length-front

  length-marked : length (front ++ (128 ∷ [])) ≡ ctx.block_len + 1
  length-marked = omega (arith, length-front, length-append front (128 ∷ []))

  close_at :
      ctx.block_len < 56
      → close_block ctx.state marked (ctx.block_len + 1) ctx.total_len
        ≡ (absorb_all (pending ctx) (padding ctx.block_len ctx.total_len)).0
  close_at lt =
      let k : 56 - length (front ++ (128 ∷ [])) ≡ (119 - ctx.block_len) % 64 =
        omega (arith, length-marked) in
      let tail : List ℕ = replicate ((119 - ctx.block_len) % 64) 0 ++ bit_count ctx.total_len in
      ap (λ n. close_block ctx.state marked n ctx.total_len) (sym length-marked)
      ∙ close_block_lem ctx.state (front ++ (128 ∷ [])) (drop 1 rest) ctx.total_len
          (omega (arith, length-marked))
          (omega (arith, length-marked, length-rest, length-drop 1 rest))
      ∙ ap
          (λ n.
            (absorb_all (ctx.state, front ++ (128 ∷ []))
              (replicate n 0 ++ bit_count ctx.total_len)).0)
          k
      ∙ ap (λ v. (absorb_all v tail).0)
          (sym (absorb_all_part ctx.state front (128 ∷ []) (omega (arith, length-front))))
      ∙ ap (λ (v : Pending). v.0) (sym (absorb_all-append (pending ctx) (128 ∷ []) tail))

  close_next :
      56 ≤ ctx.block_len
      → close_block
          (compress ctx.state (put marked (ctx.block_len + 1) (replicate (63 - ctx.block_len) 0)))
          (put marked (ctx.block_len + 1) (replicate (63 - ctx.block_len) 0))
          0
          ctx.total_len
        ≡ (absorb_all (pending ctx) (padding ctx.block_len ctx.total_len)).0
  close_next ge =
      let first : List ℕ = replicate (63 - ctx.block_len) 0 in
      let bits : List ℕ = bit_count ctx.total_len in
      let filled : List ℕ = front ++ ((128 ∷ []) ++ first) in
      let size : length first ≡ 63 - ctx.block_len = length-replicate (63 - ctx.block_len) 0 in
      let is_filled : put marked (ctx.block_len + 1) first ≡ filled =
        put_after (front ++ (128 ∷ [])) (drop 1 rest) first (ctx.block_len + 1) length-marked
        ∙ ap (λ q. (front ++ (128 ∷ []) ++ first) ++ q)
            (drop_all (length first) (drop 1 rest)
              (omega (arith, size, length-rest, length-drop 1 rest)))
        ∙ append-nil _
        ∙ append_assoc front (128 ∷ []) first in
      let whole : absorb_all (pending ctx) ((128 ∷ []) ++ first) ≡ (compress ctx.state filled, []) =
        absorb_all_whole ctx.state front ((128 ∷ []) ++ first) (omega (arith, length-front, o.part))
          (omega (arith, length-front, o.part, size)) in
      let zeros : first ++ replicate 56 0 ≡ replicate ((119 - ctx.block_len) % 64) 0 =
        replicate_append (63 - ctx.block_len) 56 0
        ∙ ap (λ n. replicate n 0) (omega (arith, ge, o.part)) in
      ap (λ q. close_block (compress ctx.state q) q 0 ctx.total_len) is_filled
      ∙ close_block_lem (compress ctx.state filled) [] filled ctx.total_len (omega arith)
          (omega (arith, length-front, o.part, size, length-append front ((128 ∷ []) ++ first)))
      ∙ ap (λ v. (absorb_all v (replicate 56 0 ++ bits)).0) (sym whole)
      ∙ ap (λ (v : Pending). v.0)
          (sym (absorb_all-append (pending ctx) ((128 ∷ []) ++ first) (replicate 56 0 ++ bits)))
      ∙ ap (λ q. (absorb_all (pending ctx) (128 ∷ q)).0)
          (sym (append_assoc first (replicate 56 0) bits) ∙ ap (λ q. q ++ bits) zeros)

  -- What `sha256_final` returns: the digest after the padding.
  pub sha256_final_lem :
      sha256_final ctx ≡ digest (absorb_all (pending ctx) (padding ctx.block_len ctx.total_len)).0
  unfolding sha256_final
  sha256_final_lem = rw marked_is (elim (Bool-cases (ltb 56 (ctx.block_len + 1))) [
    | inl e ↦
        let k : block_size - (ctx.block_len + 1) ≡ 63 - ctx.block_len = omega arith in
        rw (e, k) (ap digest (close_next (ground arith)))
    | inr e ↦ rw e (ap digest (close_at (ground arith)))
  ])
