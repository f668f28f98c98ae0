-- ===== src/Mailbox/Queue.antt =====
-- A mailbox as a queue of messages: what a reader sees of each message, oldest first.
use lufira_os.Base.{
  ℕ, zero, suc, ◌+◌, ◌-◌, ◌%◌, ◌≤◌, ◌<◌, ◌≡◌, refl, ap, ap₂, sym, ◌∙◌, none, some, List, [], ◌∷◌,
  ◌++◌, ◌⊎◌, inl, inr, arith, Bool-cases, length, length-append, length-set, length-take,
  length-drop, get_or, get_or-set_self, get_or-set_ne, set, take, drop, All, All-set, All-get_or,
  ltb,
}
use lufira_os.Mailbox.{
  Msg, Mailbox, no_msg, max_slots, max_payload, fill_slot, push, pop, mailbox_init,
}

-- The sender and the bytes of a message, without what an earlier message left in the slot.
abbrev pub view : Msg → ℕ × List ℕ
view m = (m.sender_pid, take m.len m.payload)

-- The `n` messages from slot `h` on, going round at the last slot.
pub entries : List Msg → ℕ → ℕ → List (ℕ × List ℕ)
entries slots h zero = []
entries slots h (suc n) = entries slots h n ++ view (get_or slots ((h + n) % max_slots) no_msg) ∷ []

abbrev pub contents : Mailbox → List (ℕ × List ℕ)
contents mb = entries mb.slots mb.head mb.count

pub record IsValid (mb : Mailbox) : Type 0 where
  pub slots : length mb.slots ≡ max_slots
  pub payloads : All (λ (m : Msg). length m.payload ≡ max_payload) mb.slots
  pub head : mb.head < max_slots
  pub tail : mb.tail ≡ (mb.head + mb.count) % max_slots
  pub count : mb.count ≤ max_slots

pub length-entries : (slots : List Msg) (h n : ℕ) → length (entries slots h n) ≡ n
unfolding entries
length-entries slots h zero = refl
length-entries slots h (suc n) = omega (
  arith,
  length-entries slots h n,
  length-append (entries slots h n) (view (get_or slots ((h + n) % max_slots) no_msg) ∷ []),
)

-- A store behind the entries leaves them alone.
entries-set :
    (slots : List Msg) (h k n : ℕ) (m : Msg)
    → k ≤ n
    → n < max_slots
    → entries (set slots ((h + n) % max_slots) m) h k ≡ entries slots h k
unfolding entries
entries-set slots h zero n m le lt = refl
entries-set slots h (suc k) n m le lt =
    ap₂ (λ xs e. xs ++ view e ∷ []) (entries-set slots h k n m (omega arith) lt)
      (get_or-set_ne slots ((h + n) % max_slots) ((h + k) % max_slots) m no_msg (omega arith))

-- The first of the entries, and those behind it.
entries_first :
    (slots : List Msg) (h n : ℕ)
    → h < max_slots
    → entries slots h (suc n) ≡ view (get_or slots h no_msg) ∷ entries slots ((h + 1) % max_slots) n
unfolding entries
entries_first slots h zero lt = let e : (h + 0) % max_slots ≡ h = omega arith in rw e
entries_first slots h (suc n) lt =
    let e : (h + suc n) % max_slots ≡ ((h + 1) % max_slots + n) % max_slots = omega arith in
    ap₂ (λ xs k. xs ++ view (get_or slots k no_msg) ∷ []) (entries_first slots h n lt) e

take-append {ℓ} : {A : Type ℓ} (n : ℕ) (xs ys : List A) → length xs ≡ n → take n (xs ++ ys) ≡ xs
take-append zero [] ys h = refl
take-append zero (x ∷ xs) ys h = absurd (omega arith)
take-append (suc n) [] ys h = absurd (omega arith)
take-append (suc n) (x ∷ xs) ys h = ap (◌∷◌ x) (take-append n xs ys (omega arith))

module _ (mb : Mailbox) (v : IsValid mb) where
  module _ (sender : ℕ) (bytes : List ℕ) (len : ℕ) (room : mb.count < max_slots)
      (small : len ≤ max_payload) (given : len ≤ length bytes) where
    abbrev old : Msg
    old = get_or mb.slots mb.tail no_msg

    old_payload : length old.payload ≡ max_payload
    old_payload =
        All-get_or (λ (m : Msg). length m.payload ≡ max_payload) mb.slots mb.tail no_msg v.payloads
          refl

    new_payload : length (take len bytes ++ drop len old.payload) ≡ max_payload
    new_payload = omega (
      arith,
      length-append (take len bytes) (drop len old.payload),
      length-take {0} len bytes,
      length-drop {0} len old.payload,
      old_payload,
    )

    -- The slot that is filled shows its reader the sender and the bytes of this message alone.
    view-fill_slot : view (fill_slot old sender bytes len) ≡ (sender, take len bytes)
    view-fill_slot =
        ap (λ xs. (sender, xs))
          (take-append len (take len bytes) (drop len old.payload)
            (omega (arith, length-take {0} len bytes)))

    abbrev new : Msg
    new = fill_slot old sender bytes len

    abbrev filled : List Msg
    filled = set mb.slots mb.tail new

    kept_entries : entries filled mb.head mb.count ≡ contents mb
    kept_entries =
        ap (λ t. entries (set mb.slots t new) mb.head mb.count) v.tail
        ∙ entries-set mb.slots mb.head mb.count mb.count new (omega arith) room

    last_entry :
        view (get_or filled ((mb.head + mb.count) % max_slots) no_msg) ≡ (sender, take len bytes)
    last_entry =
        ap (λ t. view (get_or filled t no_msg)) (sym v.tail)
        ∙ (ap view (get_or-set_self mb.slots mb.tail new no_msg (omega (arith, v.tail, v.slots)))
            ∙ view-fill_slot)

    -- On a valid mailbox with a free slot, a message of at most 96 bytes is put behind those that
    -- wait, seen with its sender and its own bytes only, and the mailbox stays valid.
    pub contents-push :
        (contents (push mb sender bytes len) ≡ contents mb ++ (sender, take len bytes) ∷ [])
        × IsValid (push mb sender bytes len)
    unfolding push entries
    contents-push = (
      ap (entries filled mb.head) (let e : mb.count + 1 ≡ suc mb.count = omega arith in e)
          ∙ ap₂ (λ xs y. xs ++ y ∷ []) kept_entries last_entry,
      record {
        slots = omega (arith, v.slots, length-set {0} mb.slots mb.tail new);
        payloads =
            All-set (λ (m : Msg). length m.payload ≡ max_payload) mb.slots mb.tail new v.payloads
              new_payload;
        head = v.head;
        tail = omega (arith, v.tail);
        count = omega arith;
      },
    )

  pop_some :
      0 < mb.count
      → entries mb.slots mb.head mb.count
        ≡ view (get_or mb.slots mb.head no_msg)
          ∷ entries mb.slots ((mb.head + 1) % max_slots) (mb.count - 1)
  pop_some h =
      ap (entries mb.slots mb.head) (let e : mb.count ≡ suc (mb.count - 1) = omega arith in e)
      ∙ entries_first mb.slots mb.head (mb.count - 1) v.head

  -- On a valid mailbox `pop` fails exactly when no message waits; otherwise it takes the oldest, the
  -- others wait on in order, and the mailbox stays valid.
  pub contents-pop :
      ((contents mb ≡ []) × (pop mb ≡ none))
      ⊎ ((m : Msg) × (mb' : Mailbox) × (pop mb ≡ some (m, mb'))
          × (contents mb ≡ view m ∷ contents mb')
          × IsValid mb')
  unfolding pop entries
  contents-pop = elim (Bool-cases (ltb 0 mb.count)) [
    | inl y ↦
        let h : 0 < mb.count = ground arith in
        inr (
          get_or mb.slots mb.head no_msg,
          record mb { head = (mb.head + 1) % max_slots; count = mb.count - 1 },
          rw y,
          pop_some h,
          record {
            slots = v.slots;
            payloads = v.payloads;
            head = omega arith;
            tail = omega (arith, v.tail);
            count = omega (arith, v.count);
          },
        )
    | inr n ↦ let z : mb.count ≡ 0 = ground arith in inl (ap (entries mb.slots mb.head) z, rw n)
  ]

-- After `mailbox_init` no message waits, and a mailbox with its slots is valid.
pub mailbox_init-IsValid :
    (mb : Mailbox)
    → length mb.slots ≡ max_slots
    → All (λ (m : Msg). length m.payload ≡ max_payload) mb.slots
    → IsValid (mailbox_init mb) × (contents (mailbox_init mb) ≡ [])
unfolding mailbox_init entries
mailbox_init-IsValid mb slots payloads = (
  record {
    slots = slots;
    payloads = payloads;
    head = omega arith;
    tail = refl;
    count = omega arith;
  },
  refl,
)
