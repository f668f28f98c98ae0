-- ===== src/Ramfs.antt =====
-- Regular files of the file system in memory, kernel/fs/ramfs/ramfs.c: reading, writing and seeking.
pub mod Files
pub mod Round
mod Tests
use lufira_os.Base.{
  ℕ, zero, suc, ◌+◌, ◌-◌, ◌%◌, ◌^◌, Bool, true, false, Option, none, some, List, [], ◌∷◌, ◌++◌,
  length, take, drop, ltb, leb, if◌then◌else◌,
}

-- The part of `ramfs_node_t` that a file has: its block, of `cap` bytes, and how many are the file's.
pub record Node : Type 0 where
  pub data_block : List ℕ
  pub size : ℕ

-- `file_t`: the offset, and whether `O_APPEND` is set.
pub record File : Type 0 where
  pub offset : ℕ
  pub append : Bool
  pub inode_size : ℕ

-- `ramfs_file_read`, with the bytes read.
pub ramfs_file_read : File → Node → (count : ℕ) → File × List ℕ
ramfs_file_read f n count =
    let avail = n.size - f.offset in
    let c = if ltb count avail then count else avail in
    if leb n.size f.offset
    then (f, [])
    else (record f { offset = (f.offset + c) % 2 ^ 32 }, take c (drop f.offset n.data_block))

-- What a write does: it fails for want of memory, or it has written, or its copy leaves the block.
pub data Outcome : Type 0 where
  failed : Outcome
  wrote : File → Node → Outcome
  outside : Outcome

-- `memcpy` of the bytes to the offset.
pub copy_in : List ℕ → (offset : ℕ) → List ℕ → List ℕ
copy_in block offset bytes = take offset block ++ (bytes ++ drop (offset + length bytes) block)

-- The last part of `ramfs_file_write`, in the block it has then.
pub write_in : File → Node → (offset end : ℕ) → List ℕ → Outcome
write_in f n offset end bytes =
    let size = if ltb n.size end then end else n.size in
    if ltb (length n.data_block) (offset + length bytes)
    then outside
    else wrote (record f { offset = end; inode_size = size })
        (record { data_block = copy_in n.data_block offset bytes; size = size })

pub write_offset : File → Node → ℕ
write_offset f n = if f.append then n.size else f.offset

pub write_end : File → Node → List ℕ → ℕ
write_end f n bytes = (write_offset f n + length bytes % 2 ^ 32) % 2 ^ 32

-- `ramfs_file_write`; `alloc` is what `kmalloc` returns, a block of as many bytes as asked for.
pub ramfs_file_write : File → Node → List ℕ → (alloc : Option (List ℕ)) → Outcome
ramfs_file_write f n bytes alloc =
    let offset = write_offset f n in
    let end = write_end f n bytes in
    let moved : Outcome = elim alloc [
      | none ↦ failed
      | some block ↦
          write_in f (record n { data_block = take n.size n.data_block ++ drop n.size block })
            offset end bytes
    ] in
    if ltb (length n.data_block) end then moved else write_in f n offset end bytes

-- `ramfs_file_seek`, `none` for -1: `whence` is `SEEK_SET`, `SEEK_CUR`, `SEEK_END` or another number.
pub data Whence : Type 0 where
  seek_set seek_cur seek_end seek_other : Whence

pub ramfs_file_seek : File → Node → (offset : ℕ) → Whence → Option File
ramfs_file_seek f n offset seek_set = some (record f { offset = offset % 2 ^ 32 })
ramfs_file_seek f n offset seek_cur = some (record f { offset = (f.offset + offset) % 2 ^ 32 })
ramfs_file_seek f n offset seek_end = some (record f { offset = (n.size + offset) % 2 ^ 32 })
ramfs_file_seek f n offset seek_other = none
