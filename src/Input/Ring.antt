-- ===== src/Input/Ring.antt =====
-- The console's ring as a queue of bytes.
use lufira_os.Base.{
  ℕ, zero, suc, ◌+◌, ◌-◌, ◌%◌, ◌≤◌, ◌<◌, ◌≡◌, ◌≢◌, refl, sym, ap, ap₂, ◌∙◌, false, none, some, List,
  [], ◌∷◌, ◌++◌, length, get_or, set, take, drop, get_or-set_self, get_or-set_ne, length-set, arith,
  leb, ◌==◌, Bool-cases, inl, inr, ◌⊎◌,
}
use lufira_os.Input.{
  Console, buf_size, console_input_push, read_bytes, console_input_read, got, blocks,
}

-- The `n` bytes from index `i` on, going round at the end.
unfoldable pub bytes_from : List ℕ → ℕ → ℕ → List ℕ
bytes_from buf i zero = []
bytes_from buf i (suc n) = get_or buf (i % buf_size) 0 ∷ bytes_from buf (i + 1) n

-- The bytes that wait, the oldest first.
abbrev pub contents : Console → List ℕ
contents c = bytes_from c.buf ((c.head + buf_size - c.count) % buf_size) c.count

pub record IsValid (c : Console) : Type 0 where
  pub size : length c.buf ≡ buf_size
  pub head : c.head < buf_size
  pub count : c.count ≤ buf_size

bytes_from_last :
    (buf : List ℕ) (i n : ℕ)
    → bytes_from buf i (suc n) ≡ bytes_from buf i n ++ (get_or buf ((i + n) % buf_size) 0 ∷ [])
unfolding bytes_from
bytes_from_last buf i zero = let z : i + 0 ≡ i = omega arith in rw z refl
bytes_from_last buf i (suc n) =
    let z : i + suc n ≡ i + 1 + n = omega arith in
    rw z (ap (λ xs. get_or buf (i % buf_size) 0 ∷ xs) (bytes_from_last buf (i + 1) n))

bytes_from_around :
    (buf : List ℕ) (i j n : ℕ)
    → i % buf_size ≡ j % buf_size
    → bytes_from buf i n ≡ bytes_from buf j n
unfolding bytes_from
bytes_from_around buf i j zero e = refl
bytes_from_around buf i j (suc n) e =
    ap₂ (λ k xs. get_or buf k 0 ∷ xs) e (bytes_from_around buf (i + 1) (j + 1) n (omega (arith, e)))

bytes_from-set :
    (buf : List ℕ) (i n at v : ℕ)
    → ((k : ℕ) → k < n → at ≢ (i + k) % buf_size)
    → bytes_from (set buf at v) i n ≡ bytes_from buf i n
unfolding bytes_from
bytes_from-set buf i zero at v h = refl
bytes_from-set buf i (suc n) at v h =
    let z : i + 0 ≡ i = omega arith in
    ap₂ (λ x xs. x ∷ xs) (get_or-set_ne buf at (i % buf_size) v 0 (rw z at (h 0 (omega arith))))
      (bytes_from-set buf (i + 1) n at v
        (λ k lt. let w : i + 1 + k ≡ i + (k + 1) = omega arith in rw w (h (k + 1) (omega arith))))

read_bytes_lem :
    (max : ℕ) (buf : List ℕ) (i n : ℕ)
    → ((read_bytes max buf i n).0 ≡ take max (bytes_from buf i n))
      × ((read_bytes max buf i n).1 ≡ n - max)
      × (bytes_from buf (i + (n - (n - max))) (n - max) ≡ drop max (bytes_from buf i n))
unfolding read_bytes bytes_from
read_bytes_lem zero buf i n =
    let z : n - 0 ≡ n = omega arith in
    let w : i + (n - n) ≡ i = omega arith in (refl, sym z, rw (z, w) refl)
read_bytes_lem (suc m) buf i zero = let z : 0 - suc m ≡ 0 = omega arith in (refl, sym z, rw z refl)
read_bytes_lem (suc m) buf i (suc n) =
    let (bytes, left, rest) = read_bytes_lem m buf (i + 1) n in
    let z : suc n - suc m ≡ n - m = omega arith in
    let w : i + (suc n - (n - m)) ≡ i + 1 + (n - (n - m)) = omega arith in
    (ap (λ xs. get_or buf (i % buf_size) 0 ∷ xs) bytes, left ∙ sym z, rw (z, w) rest)

module _ (c : Console) (v : IsValid c) where
  abbrev start : ℕ
  start = (c.head + buf_size - c.count) % buf_size

  -- On a valid ring with room the byte is put behind those that wait, the waiter becomes ready and is
  -- forgotten; on a full one nothing happens. The ring stays valid.
  pub contents-console_input_push :
      (byte : ℕ)
      → IsValid (console_input_push c byte).0
        × (((c.count ≡ buf_size) × (console_input_push c byte ≡ (c, none)))
            ⊎ ((c.count < buf_size)
                × (contents (console_input_push c byte).0 ≡ contents c ++ (byte ∷ []))
                × ((console_input_push c byte).1 ≡ c.waiter)
                × ((console_input_push c byte).0.waiter ≡ none)))
  unfolding console_input_push
  contents-console_input_push byte = elim (Bool-cases (leb buf_size c.count)) [
    | inl e ↦ rw e (v, inl ((ground (arith, v.count)), refl))
    | inr e ↦
        let room : c.count < buf_size = ground arith in
        let at : (start + c.count) % buf_size ≡ c.head = omega (arith, v.head, room) in
        let begins : ((c.head + 1) % buf_size + buf_size - (c.count + 1)) % buf_size ≡ start =
          omega (arith, v.head, room) in
        let more : c.count + 1 ≡ suc c.count = omega arith in
        let buf' : List ℕ = set c.buf c.head byte in
        let kept : bytes_from buf' start c.count ≡ contents c =
          bytes_from-set c.buf start c.count c.head byte (λ k lt. omega (arith, at, room)) in
        let last : get_or buf' ((start + c.count) % buf_size) 0 ≡ byte =
          ap (λ j. get_or buf' j 0) at
          ∙ get_or-set_self c.buf c.head byte 0 (omega (arith, v.head, v.size)) in
        rw e (
          record {
            size = omega (arith, v.size, length-set {0} c.buf c.head byte);
            head = omega arith;
            count = omega (arith, room);
          },
          inr (
            room,
            ap₂ (bytes_from buf') begins more
                ∙ bytes_from_last buf' start c.count
                ∙ ap₂ (λ xs x. xs ++ (x ∷ [])) kept last,
            refl,
            refl,
          ),
        )
  ]

  -- On a valid ring a read of at least one byte blocks as the waiter when no byte waits, and else
  -- returns the oldest bytes, at most `max`, and leaves the others in order; the ring stays valid.
  pub contents-console_input_read :
      (pid max : ℕ)
      → 0 < max
      → IsValid (console_input_read c pid max).0
        × (((contents c ≡ [])
              × ((console_input_read c pid max).1 ≡ blocks)
              × ((console_input_read c pid max).0.waiter ≡ some pid))
            ⊎ ((0 < c.count)
                × ((console_input_read c pid max).1 ≡ got (take max (contents c)))
                × (contents (console_input_read c pid max).0 ≡ drop max (contents c))))
  unfolding console_input_read bytes_from
  contents-console_input_read pid max pos =
      let m : (max == 0) ≡ false = ground arith in
      elim (Bool-cases (c.count == 0)) [
        | inl e ↦
            let z : c.count ≡ 0 = ground arith in
            rw (m, e)
              (
                record { size = v.size; head = v.head; count = v.count },
                inl (ap (bytes_from c.buf start) z, refl, refl),
              )
        | inr e ↦
            let some_wait : 0 < c.count = ground arith in
            let (bytes, left, rest) = read_bytes_lem max c.buf start c.count in
            let begins : ((c.head + buf_size - (c.count - max)) % buf_size) % buf_size
                ≡ (start + (c.count - (c.count - max))) % buf_size =
              omega (arith, v.head, v.count) in
            rw (m, e, left)
              (
                record { size = v.size; head = v.head; count = omega (arith, v.count) },
                inr (
                  some_wait,
                  ap got bytes,
                  bytes_from_around c.buf _ _ (c.count - max) begins ∙ rest,
                ),
              )
      ]
