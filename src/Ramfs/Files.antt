-- ===== src/Ramfs/Files.antt =====
-- What is written to a file is read again.
use lufira_os.Base.{
  ℕ, zero, suc, ◌+◌, ◌-◌, ◌^◌, ◌≤◌, ◌<◌, ◌≡◌, refl, sym, ap, ◌∙◌, false, List, [], ◌∷◌, ◌++◌,
  length, length-append, length-take, length-drop, take, drop, ltb, leb, if◌then◌else◌, Bool-cases,
  ◌⊎◌, inl, inr, arith,
}
use lufira_os.Ramfs.{Node, File, ramfs_file_read, wrote, copy_in, write_in, write_offset, write_end}

take_all : (b r : List ℕ) → take (length b) (b ++ r) ≡ b
take_all [] r = refl
take_all (x ∷ b) r = ap (λ l. x ∷ l) (take_all b r)

-- The bytes that were copied in.
pub copied :
    (d b r : List ℕ) (k : ℕ) → k ≤ length d → take (length b) (drop k (take k d ++ (b ++ r))) ≡ b
copied d b r zero le = take_all b r
copied [] b r (suc k) le = absurd (omega arith)
copied (x ∷ d) b r (suc k) le = copied d b r k (omega arith)

-- The bytes before them.
pub kept : (d r : List ℕ) (k j : ℕ) → j ≤ k → k ≤ length d → take j (take k d ++ r) ≡ take j d
kept d r k zero jk le = refl
kept d r zero (suc j) jk le = absurd (omega arith)
kept [] r (suc k) (suc j) jk le = absurd (omega arith)
kept (x ∷ d) r (suc k) (suc j) jk le = ap (λ l. x ∷ l) (kept d r k j (omega arith) (omega arith))

pub length-copy_in :
    (d b : List ℕ) (k : ℕ) → k + length b ≤ length d → length (copy_in d k b) ≡ length d
unfolding copy_in
length-copy_in d b k le =
    let one = length-append (take k d) (b ++ drop (k + length b) d) in
    let two = length-append b (drop (k + length b) d) in
    let three = length-take k d in
    let four = length-drop (k + length b) d in omega (arith, one, two, three, four)

empty_list : (b : List ℕ) → length b ≡ 0 → b ≡ []
empty_list [] e = refl
empty_list (x ∷ b) e = absurd (omega (arith, e))

pub read_back :
    (h : File) (m : Node) (b : List ℕ)
    → take (length b) (drop h.offset m.data_block) ≡ b
    → h.offset + length b ≤ m.size
    → (ramfs_file_read h m (length b)).1 ≡ b
unfolding ramfs_file_read
read_back h m b e le = elim (Bool-cases (leb m.size h.offset)) [
  | inl z ↦ let none_left : length b ≡ 0 = ground arith in rw z (sym (empty_list b none_left))
  | inr z ↦
      let c : (if ltb (length b) (m.size - h.offset) then length b else m.size - h.offset)
          ≡ length b =
        elim (Bool-cases (ltb (length b) (m.size - h.offset))) [
          | inl l ↦ rw l refl
          | inr l ↦ rw l (ground arith)
        ] in
      rw z (ap (λ k. take k (drop h.offset m.data_block)) c ∙ e)
]

-- The node and the file after a write into a block that is large enough.
unfoldable pub after_node : Node → (k : ℕ) → List ℕ → Node
after_node n k b = record {
  data_block = copy_in n.data_block k b;
  size = if ltb n.size (k + length b) then k + length b else n.size;
}

unfoldable pub after_file : File → Node → (k : ℕ) → List ℕ → File
after_file f n k b = record f {
  offset = k + length b;
  inode_size = if ltb n.size (k + length b) then k + length b else n.size;
}

pub write_in-wrote :
    (f : File) (n : Node) (k : ℕ) (b : List ℕ)
    → k + length b ≤ length n.data_block
    → write_in f n k (k + length b) b ≡ wrote (after_file f n k b) (after_node n k b)
unfolding write_in after_node after_file
write_in-wrote f n k b le =
    let inside : ltb (length n.data_block) (k + length b) ≡ false = ground arith in
    rw (write_in, inside) refl

pub size_after :
    (n : Node) (k : ℕ) (b : List ℕ)
    → (k + length b ≤ (after_node n k b).size)
      × (n.size ≤ (after_node n k b).size)
      × (((after_node n k b).size ≡ k + length b) ⊎ ((after_node n k b).size ≡ n.size))
unfolding after_node
size_after n k b = elim (Bool-cases (ltb n.size (k + length b))) [
  | inl e ↦ rw e (omega arith, ground arith, inl refl)
  | inr e ↦ rw e (ground arith, omega arith, inr refl)
]

-- The node in the block that `ramfs_file_write` uses.
unfoldable pub moved : Node → List ℕ → Node
moved n block = record n { data_block = take n.size n.data_block ++ drop n.size block }

pub length-moved :
    (n : Node) (block : List ℕ)
    → n.size ≤ length n.data_block
    → n.size ≤ length block
    → length (moved n block).data_block ≡ length block
unfolding moved
length-moved n block le room =
    let one = length-append (take n.size n.data_block) (drop n.size block) in
    let two = length-take n.size n.data_block in
    let three = length-drop n.size block in omega (arith, one, two, three)

pub write_end-small :
    (f : File) (n : Node) (b : List ℕ)
    → write_offset f n + length b < 2 ^ 32
    → write_end f n b ≡ write_offset f n + length b
unfolding write_end
write_end-small f n b lt = omega arith
