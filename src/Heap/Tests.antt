-- ===== src/Heap/Tests.antt =====
-- Tests of the heap on a region of 4096 bytes at address 4096.
use lufira_os.Base.{ℕ, ◌+◌, ◌<◌, ◌≡◌, refl, true, false, ◌⊎◌, some, List, [], ◌∷◌, arith, All}
use lufira_os.Heap.{
  Header, Memory, Heap, magic_free, magic_used, write, find_free_block, take_block, total_size,
  kmalloc, kfree, heap_get_stats, heap_init,
}
use lufira_os.Heap.Chain.{Block}
use lufira_os.Heap.Free.{block_at, release}
use lufira_os.Heap.Laws.{
  Represents, Grants, kmalloc-Grants, kfree-Represents, kfree-kmalloc, heap_get_stats_lem,
  heap_init-Represents,
}

abbrev blank : Memory
blank q = record { magic = 0; size = 0; next = 0; prev = 0 }

abbrev whole : List Block
whole = record { size = 4096; used = false } ∷ []

abbrev fresh : Heap
fresh = heap_init blank 4096 4096

fresh-Represents : Represents fresh 8192 whole
fresh-Represents = heap_init-Represents blank 4096 4096 (omega arith) (omega arith) (omega arith)

-- A used block of 128 bytes, a free one of 256, and a used one.
abbrev blocks : List Block
blocks =
    record { size = 128; used = true }
    ∷ record { size = 256; used = false }
    ∷ record { size = 3712; used = true }
    ∷ []

abbrev first_header : Header
first_header = record { magic = magic_used; size = 128; next = 4224; prev = 0 }

abbrev second_header : Header
second_header = record { magic = magic_free; size = 256; next = 4480; prev = 4096 }

abbrev third_header : Header
third_header = record { magic = magic_used; size = 3712; next = 0; prev = 4224 }

abbrev filled : Heap
filled = record {
  mem = write (write (write blank 4096 first_header) 4224 second_header) 4480 third_header;
  heap_start = 4096;
  initialized = true;
}

filled-Represents : Represents filled 8192 blocks
unfolding write
filled-Represents = record {
  ready = refl;
  not_null = omega arith;
  bounded = omega arith;
  inhabited = omega arith;
  chain = (refl, omega arith, (refl, omega arith, (refl, omega arith, refl)));
  coalesced = (λ e. cc, (λ e. refl, (λ e. refl, tt)));
}

request_of_100 : total_size 100 ≡ 128
unfolding total_size
request_of_100 = refl

kmalloc-Grants_example :
    ((kmalloc 200 filled 100 ≡ some (filled, 0))
      × All (λ (b : Block). b.used ≡ false → b.size < total_size 100) blocks)
    ⊎ ((r : Heap × ℕ) × (kmalloc 200 filled 100 ≡ some r) × Grants filled 8192 100 blocks r)
kmalloc-Grants_example =
    kmalloc-Grants 200 filled 8192 blocks filled-Represents (omega arith) 100 (omega arith)
      (omega arith)

first_block : block_at 4096 4096 blocks ≡ some (record { size = 128; used = true })
unfolding block_at
first_block = refl

kfree-Represents_example :
    ((true ≡ true)
      × ((kfree filled 4120).heap_start ≡ 4096)
      × Represents (kfree filled 4120) 8192 (release 4096 4096 blocks))
    ⊎ ((true ≡ false) × (kfree filled 4120 ≡ filled))
kfree-Represents_example =
    kfree-Represents filled 8192 blocks filled-Represents 4096 (record { size = 128; used = true })
      first_block

released :
    release 4096 4096 blocks
    ≡ record { size = 384; used = false } ∷ record { size = 3712; used = true } ∷ []
unfolding release
released = refl

abbrev after_100 : Heap
after_100 = record filled { mem = take_block filled.mem 4224 128 }

granted_100 : kmalloc 200 filled 100 ≡ some (after_100, 4248)
unfolding kmalloc find_free_block total_size write
granted_100 = refl

kfree-kmalloc_example : Represents (kfree after_100 4248) 8192 blocks
kfree-kmalloc_example =
    kfree-kmalloc 200 filled 8192 blocks 100 after_100 4248 filled-Represents (omega arith)
      (omega arith) (omega arith) granted_100 (omega arith)

heap_get_stats_lem_example :
    (heap_get_stats 200 filled ≡ some (3840, 256)) × (4096 + (3840 + 256) ≡ 8192)
heap_get_stats_lem_example =
    heap_get_stats_lem 200 filled 8192 blocks filled-Represents (omega arith)

heap_init-Represents_example : Represents fresh 8192 whole
heap_init-Represents_example =
    heap_init-Represents blank 4096 4096 (omega arith) (omega arith) (omega arith)
