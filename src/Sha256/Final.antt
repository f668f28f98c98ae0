-- ===== src/Sha256/Final.antt =====
-- A message given to `sha256_update` in pieces has the digest of the whole message.
use lufira_os.Base.{
  ℕ, suc, ◌+◌, ◌-◌, ◌%◌, ◌^◌, ◌≤◌, ◌<◌, ◌≡◌, refl, sym, ap, subst, ◌∙◌, true, List, [], ◌∷◌, ◌++◌,
  append-nil, min, length, take, drop, length-append, length-take, length-drop, arith, ltb,
  if◌then◌else◌, Bool-cases, inl, inr,
}
use lufira_os.Sha256.{
  Context, compress, put, block_size, whole_blocks, update_aligned, sha256_update,
}
use lufira_os.Sha256.Lists.{take-drop, take_append, drop_all}
use lufira_os.Sha256.Stream.{
  Pending, absorb_all, absorb_all-append, absorb_all_part, absorb_all_whole, whole_blocks_lem,
}

-- Between two calls: the buffer has its 64 bytes and is not full.
pub record IsOpen (ctx : Context) : Type 0 where
  pub buffer : length ctx.block ≡ block_size
  pub part : ctx.block_len < block_size

abbrev pub pending : Context → Pending
pending ctx = (ctx.state, take ctx.block_len ctx.block)

-- What a call that takes in `p` leaves behind.
pub record Taken (v : Pending) (total_len : ℕ) (p : List ℕ) (ctx : Context) : Type 0 where
  pub absorbed : pending ctx ≡ absorb_all v p
  pub counted : ctx.total_len ≡ total_len
  pub open_again : IsOpen ctx

length-put :
    (block bytes : List ℕ) (at : ℕ)
    → at + length bytes ≤ length block
    → length (put block at bytes) ≡ length block
unfolding put
length-put block bytes at h = omega (
  arith,
  length-append (take at block ++ bytes) (drop (at + length bytes) block),
  length-append (take at block) bytes,
  length-take at block,
  length-drop (at + length bytes) block,
)

take-put :
    (block bytes : List ℕ) (at : ℕ)
    → at ≤ length block
    → take (at + length bytes) (put block at bytes) ≡ take at block ++ bytes
unfolding put
take-put block bytes at h =
    let e : length (take at block ++ bytes) ≡ at + length bytes =
      omega (arith, length-append (take at block) bytes, length-take at block) in
    subst (λ n. take n (put block at bytes) ≡ take at block ++ bytes) e
      (take_append (take at block ++ bytes) _)

take-put_front : (block bytes : List ℕ) → take (length bytes) (put block 0 bytes) ≡ bytes
unfolding put
take-put_front block bytes = take_append bytes _

take_all : (n : ℕ) (p : List ℕ) → length p ≤ n → take n p ≡ p
take_all n p h =
    sym (append-nil (take n p)) ∙ ap (λ q. take n p ++ q) (sym (drop_all n p h)) ∙ take-drop n p

update_aligned-Taken :
    (ctx : Context) (p : List ℕ)
    → length ctx.block ≡ block_size
    → ctx.block_len ≡ 0
    → Taken (ctx.state, []) ctx.total_len p (update_aligned ctx p)
unfolding update_aligned
update_aligned-Taken ctx p full none_left =
    let w = whole_blocks_lem (length p) ctx.state p (omega arith) in
    by_rest (whole_blocks (length p) ctx.state p) w.0 w.1
  where
    by_rest :
        (r : Pending)
        → absorb_all (ctx.state, []) p ≡ r
        → length r.1 < block_size
        → Taken
            (ctx.state, [])
            ctx.total_len
            p
            (if ltb 0 (length r.1)
              then record ctx { state = r.0; block_len = length r.1; block = put ctx.block 0 r.1 }
              else record ctx { state = r.0 })
    by_rest (s, []) e lt = record {
      absorbed = ap (λ n. (s, take n ctx.block)) none_left ∙ sym e;
      counted = refl;
      open_again = record { buffer = full; part = omega (arith, none_left) };
    }
    by_rest (s, x ∷ xs) e lt = rw (lt→ltb_suc (length xs)) (record {
      absorbed = ap (λ q. (s, q)) (take-put_front ctx.block (x ∷ xs)) ∙ sym e;
      counted = refl;
      open_again = record {
        buffer = omega (arith, full, length-put ctx.block (x ∷ xs) 0 (omega (arith, full, lt)));
        part = lt;
      };
    })
      where
        lt→ltb_suc : (n : ℕ) → ltb 0 (suc n) ≡ true
        lt→ltb_suc n = ground arith

-- The bytes that complete the buffer.
module _ (ctx : Context) (p : List ℕ) (o : IsOpen ctx) (n : ℕ) where
  length-front : length (take ctx.block_len ctx.block) ≡ ctx.block_len
  length-front = omega (arith, o.buffer, o.part, length-take ctx.block_len ctx.block)

  put_part :
      n ≡ length p
      → ctx.block_len + n < block_size
      → Taken (pending ctx) ctx.total_len p (record ctx {
        block_len = ctx.block_len + n;
        block = put ctx.block ctx.block_len (take n p);
      })
  put_part e lt =
      let all : take n p ≡ p = take_all n p (omega (arith, e)) in
      let front = length-front in
      record {
        absorbed =
            ap (λ m. (ctx.state, take (ctx.block_len + m) (put ctx.block ctx.block_len (take n p))))
              e
            ∙ ap (λ q. (ctx.state, take (ctx.block_len + length p) (put ctx.block ctx.block_len q)))
                all
            ∙ ap (λ q. (ctx.state, q))
                (take-put ctx.block p ctx.block_len (omega (arith, o.buffer, o.part)))
            ∙ sym (
                absorb_all_part ctx.state (take ctx.block_len ctx.block) p
                  (omega (arith, front, e, lt)));
        counted = refl;
        open_again = record {
          buffer = omega (
            arith,
            o.buffer,
            length-put ctx.block (take n p) ctx.block_len
                (omega (arith, o.buffer, lt, length-take n p)),
          );
          part = lt;
        };
      }

  filled_is :
      n ≤ length p
      → ctx.block_len + n ≡ block_size
      → put ctx.block ctx.block_len (take n p) ≡ take ctx.block_len ctx.block ++ take n p
  unfolding put
  filled_is many e =
      rw
        (drop_all (ctx.block_len + length (take n p)) ctx.block
          (omega (arith, o.buffer, e, length-take n p, many)))
        (append-nil _)

  put_whole :
      n ≤ length p
      → ctx.block_len + n ≡ block_size
      → Taken (pending ctx) ctx.total_len p (
          update_aligned
            (record ctx {
              state = compress ctx.state (put ctx.block ctx.block_len (take n p));
              block_len = 0;
              block = put ctx.block ctx.block_len (take n p);
            })
            (drop n p))
  put_whole many e =
      let filled = put ctx.block ctx.block_len (take n p) in
      let ctx' : Context = record ctx {
        state = compress ctx.state filled;
        block_len = 0;
        block = filled;
      } in
      let size : length filled ≡ block_size = omega (
        arith,
        o.buffer,
        e,
        length-put ctx.block (take n p) ctx.block_len (omega (arith, o.buffer, e, length-take n p)),
      ) in
      let t = update_aligned-Taken ctx' (drop n p) size refl in
      let whole : absorb_all (pending ctx) (take n p) ≡ (compress ctx.state filled, []) =
        absorb_all_whole ctx.state (take ctx.block_len ctx.block) (take n p)
          (omega (arith, length-front, o.part))
          (omega (arith, length-front, e, many, length-take n p))
        ∙ ap (λ q. (compress ctx.state q, [])) (sym (filled_is many e)) in
      record {
        absorbed =
            t.absorbed
            ∙ ap (λ v. absorb_all v (drop n p)) (sym whole)
            ∙ sym (absorb_all-append (pending ctx) (take n p) (drop n p))
            ∙ ap (absorb_all (pending ctx)) (take-drop n p);
        counted = t.counted;
        open_again = t.open_again;
      }

pub sha256_update-Taken :
    (ctx : Context) (p : List ℕ)
    → IsOpen ctx
    → Taken (pending ctx) ((ctx.total_len + length p) % 2 ^ 64) p (sha256_update ctx p)
unfolding sha256_update
sha256_update-Taken ctx₀ p o₀ =
    let ctx : Context = record ctx₀ { total_len = (ctx₀.total_len + length p) % 2 ^ 64 } in
    let o : IsOpen ctx = record { buffer = o₀.buffer; part = o₀.part } in
    let n = min (length p) (block_size - ctx.block_len) in
    elim (Bool-cases (ltb 0 ctx₀.block_len)) [
      | inr e ↦
          let none_left : ctx₀.block_len ≡ 0 = ground arith in
          rw e (
            subst
              (λ k. Taken (ctx₀.state, take k ctx₀.block) ctx.total_len p (update_aligned ctx p))
              (sym none_left) (update_aligned-Taken ctx p o.buffer none_left))
      | inl e ↦ elim (Bool-cases (ltb (ctx₀.block_len + n) block_size)) [
        | inl lt ↦
            let less : ctx₀.block_len + n < block_size = ground arith in
            rw (e, lt) (put_part ctx p o n (omega (arith, less)) less)
        | inr ge ↦
            let more : block_size ≤ ctx₀.block_len + n = ground arith in
            rw (e, ge) (put_whole ctx p o n (omega (arith, more)) (omega (arith, more, o₀.part)))
      ]
    ]
