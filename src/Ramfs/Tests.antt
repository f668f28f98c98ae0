-- ===== src/Ramfs/Tests.antt =====
-- Runs of files in memory at concrete inputs.
use lufira_os.Base.{◌-◌, ◌^◌, ◌≡◌, refl, false, some, [], ◌∷◌, arith}
use lufira_os.Ramfs.{
  Node, File, outside, write_offset, write_end, ramfs_file_write, ramfs_file_seek, seek_set,
}
use lufira_os.Ramfs.Round.{Written, ramfs_file_write-ramfs_file_read, ramfs_file_write_wraps}

abbrev node : Node
node = record { data_block = 1 ∷ 2 ∷ 3 ∷ []; size = 3 }

abbrev file : File
file = record { offset = 2; append = false; inode_size = 3 }

ramfs_file_write-ramfs_file_read_example :
    Written file node
      (7 ∷ 8 ∷ [])
      (ramfs_file_write file node (7 ∷ 8 ∷ []) (some (0 ∷ 0 ∷ 0 ∷ 0 ∷ [])))
unfolding write_offset write_end
ramfs_file_write-ramfs_file_read_example =
    ramfs_file_write-ramfs_file_read file node (7 ∷ 8 ∷ []) (0 ∷ 0 ∷ 0 ∷ 0 ∷ []) (omega arith)
      (omega arith) refl

-- The offset after a seek to the last 32-bit number.
abbrev far : File
far = record { offset = 2 ^ 32 - 1; append = false; inode_size = 3 }

far_test : ramfs_file_seek file node (2 ^ 32 - 1) seek_set ≡ some far
unfolding ramfs_file_seek
far_test = refl

ramfs_file_write_wraps_example : ramfs_file_write far node (7 ∷ 8 ∷ []) (some (0 ∷ [])) ≡ outside
unfolding write_offset write_end
ramfs_file_write_wraps_example =
    ramfs_file_write_wraps far node (7 ∷ 8 ∷ []) (0 ∷ []) (omega arith) (omega arith) (omega arith)
      (omega arith) (omega arith) refl
