-- ===== src/Ramfs/Round.antt =====
-- Writing to a file and reading it back.
use lufira_os.Base.{
  ℕ, ◌+◌, ◌-◌, ◌^◌, ◌≤◌, ◌<◌, ◌≡◌, refl, sym, subst, ◌∙◌, true, false, some, List, ◌++◌, length,
  take, drop, min, ltb, Bool-cases, inl, inr, ◌⊎◌, arith,
}
use lufira_os.Ramfs.{
  Node, File, ramfs_file_read, Outcome, wrote, outside, copy_in, write_in, write_offset, write_end,
  ramfs_file_write,
}
use lufira_os.Ramfs.Files.{
  copied, kept, length-copy_in, read_back, after_node, after_file, write_in-wrote, size_after,
  moved, length-moved, write_end-small,
}

-- What a write that fits leaves in a block of the node `n`.
pub record Written (f : File) (n : Node) (b : List ℕ) (o : Outcome) : Type 0 where
  pub file : File
  pub node : Node
  pub done : o ≡ wrote file node
  pub valid : node.size ≤ length node.data_block
  pub offset : file.offset ≡ write_offset f n + length b
  pub before :
      take (min n.size (write_offset f n)) node.data_block
      ≡ take (min n.size (write_offset f n)) n.data_block
  pub read : (ramfs_file_read (record file { offset = write_offset f n }) node (length b)).1 ≡ b

fits : (s e n l d : ℕ) → (s ≡ e) ⊎ (s ≡ n) → l ≡ d → e ≤ d → n ≤ d → s ≤ l
fits s e n l d (inl h) k le ln = omega arith
fits s e n l d (inr h) k le ln = omega arith

grow_not : (l e x : ℕ) → ltb l e ≡ false → e ≡ x → x ≤ l
grow_not l e x h k = ground arith

written :
    (f : File) (n m : Node) (b : List ℕ)
    → m.size ≡ n.size
    → m.size ≤ length m.data_block
    → write_offset f n + length b ≤ length m.data_block
    → take (min n.size (write_offset f n)) m.data_block
      ≡ take (min n.size (write_offset f n)) n.data_block
    → Written f n b (write_in f m (write_offset f n) (write_offset f n + length b) b)
unfolding after_node after_file copy_in
written f n m b same valid room prefix =
    let k = write_offset f n in
    let (reach, grown, either) = size_after m k b in
    let size = length-copy_in m.data_block b k room in
    let node = after_node m k b in
    record {
      file = after_file f m k b;
      node = node;
      done = write_in-wrote f m k b room;
      valid =
          fits node.size (k + length b) m.size (length node.data_block) (length m.data_block) either
            size room valid;
      offset = refl;
      before =
          kept m.data_block (b ++ drop (k + length b) m.data_block) k (min n.size k) (omega arith)
            (omega (arith, room))
          ∙ prefix;
      read =
          read_back (record (after_file f m k b) { offset = k }) node b
            (copied m.data_block b (drop (k + length b) m.data_block) k (omega (arith, room)))
            reach;
    }

-- A write whose end stays below 2 ^ 32, into a file whose size is at most its block's: with memory
-- for a larger block, of exactly the bytes asked for, it succeeds; the size is again at most the
-- block's, the offset moves behind the bytes, the file's bytes before them are kept, and a read of as
-- many bytes at the same place gives the bytes written.
pub ramfs_file_write-ramfs_file_read :
    (f : File) (n : Node) (b block : List ℕ)
    → n.size ≤ length n.data_block
    → write_offset f n + length b < 2 ^ 32
    → length block ≡ write_end f n b
    → Written f n b (ramfs_file_write f n b (some block))
unfolding ramfs_file_write moved
ramfs_file_write-ramfs_file_read f n b block valid small size =
    let k = write_offset f n in
    let end = write_end-small f n b small in
    elim (Bool-cases (ltb (length n.data_block) (write_end f n b))) [
      | inr e ↦
          let room : k + length b ≤ length n.data_block =
            grow_not (length n.data_block) (write_end f n b) (k + length b) e end in
          rw (ramfs_file_write, e)
            (subst (λ x. Written f n b (write_in f n k x b)) (sym end)
              (written f n n b refl valid room refl))
      | inl e ↦
          let larger : length n.data_block < write_end f n b = ground arith in
          let m = moved n block in
          let long = length-moved n block valid (omega arith) in
          rw (ramfs_file_write, e)
            (subst (λ x. Written f n b (write_in f m k x b)) (sym end)
              (written f n m b refl (omega (arith, long, size, valid, larger))
                (omega (arith, long, size, end))
                (kept n.data_block (drop n.size block) n.size (min n.size k) (omega arith) valid)))
    ]

copy_outside :
    (f : File) (n : Node) (k end : ℕ) (b : List ℕ)
    → length n.data_block < k + length b
    → write_in f n k end b ≡ outside
unfolding write_in
copy_outside f n k end b lt =
    let out : ltb (length n.data_block) (k + length b) ≡ true = ground arith in
    rw (write_in, out) refl

write_end-wraps :
    (f : File) (n : Node) (b : List ℕ)
    → write_offset f n < 2 ^ 32
    → length b < 2 ^ 32
    → 2 ^ 32 ≤ write_offset f n + length b
    → write_end f n b ≡ write_offset f n + length b - 2 ^ 32
unfolding write_end
write_end-wraps f n b off short wraps = omega arith

-- A write of less than 2 ^ 32 bytes whose end reaches 2 ^ 32, to a file whose block and size are below
-- that: the end wraps around, no room is made for it, and the copy goes outside of the block.
pub ramfs_file_write_wraps :
    (f : File) (n : Node) (b block : List ℕ)
    → n.size ≤ length n.data_block
    → length n.data_block < 2 ^ 32
    → write_offset f n < 2 ^ 32
    → length b < 2 ^ 32
    → 2 ^ 32 ≤ write_offset f n + length b
    → length block ≡ write_end f n b
    → ramfs_file_write f n b (some block) ≡ outside
unfolding ramfs_file_write moved
ramfs_file_write_wraps f n b block valid small off short wraps size =
    let k = write_offset f n in
    let end = write_end-wraps f n b off short wraps in
    elim (Bool-cases (ltb (length n.data_block) (write_end f n b))) [
      | inr e ↦
          rw (ramfs_file_write, e)
            (copy_outside f n k (write_end f n b) b (omega (arith, small, wraps)))
      | inl e ↦
          let larger : length n.data_block < write_end f n b = ground arith in
          let long = length-moved n block valid (omega (arith, size, valid, larger)) in
          rw (ramfs_file_write, e)
            (copy_outside f (moved n block) k (write_end f n b) b
              (omega (arith, long, size, end, off, short)))
    ]
