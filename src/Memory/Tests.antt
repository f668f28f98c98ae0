-- ===== src/Memory/Tests.antt =====
-- Tests of the memory routines, on a memory whose byte at each address is the address.
use lufira_os.Base.{◌%◌, ◌≡◌, refl, [], ◌∷◌, map}
use lufira_os.Memory.{
  Bytes, store, store_word, load_word, set_bytes, set_unaligned, set_words, memset, copy_forward,
  copy_unaligned, copy_words, memcpy, memmove,
}
use lufira_os.Memory.Move.{Copied, memmove-Copied}

abbrev numbered : Bytes
numbered = λ x. x % 256

set_eleven : map (memset numbered 5 258 11) (4 ∷ 5 ∷ 8 ∷ 15 ∷ 16 ∷ []) ≡ 4 ∷ 2 ∷ 2 ∷ 2 ∷ 16 ∷ []
unfolding memset set_bytes set_unaligned set_words store_word store
set_eleven = refl

copied_words :
    map (memcpy numbered 101 5 12) (100 ∷ 101 ∷ 104 ∷ 112 ∷ 113 ∷ []) ≡ 100 ∷ 5 ∷ 8 ∷ 16 ∷ 113 ∷ []
unfolding memcpy copy_forward copy_unaligned copy_words store_word load_word store
copied_words = refl

memmove-Copied_example : Copied numbered (memmove numbered 12 10 5) 12 10 5
memmove-Copied_example = memmove-Copied numbered 12 10 5
