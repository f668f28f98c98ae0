-- ===== src/Heap.antt =====
-- The kernel heap, kernel/system/mm/heap.c: blocks tile one region of memory, each with a header that
-- holds its size, a magic number and links to the blocks before and after it. `heap_lock` and
-- `heap_unlock` turn interrupts off and on again, so that a call is one step.
-- Memory is a function from addresses to headers; address 0 is NULL.
pub mod Store
pub mod Chain
pub mod Alloc
pub mod Free
pub mod Blocks
pub mod Laws
mod Tests
use lufira_os.Base.{
  ℕ, zero, suc, ◌+◌, ◌-◌, ◌*◌, ◌/◌, ◌%◌, ◌^◌, Bool, true, false, ◌&&◌, ◌||◌, not, Option, none,
  some, leb, ◌==◌, if◌then◌else◌,
}

abbrev pub magic_free : ℕ
magic_free = 0xDEADBEE1

abbrev pub magic_used : ℕ
magic_used = 0xDEADBEE2

-- `sizeof(block_header_t)`: packed, two `uint32_t` and two pointers
abbrev pub header_size : ℕ
header_size = 24

abbrev pub u64 : ℕ
u64 = 2 ^ 64

abbrev pub u32 : ℕ
u32 = 2 ^ 32

-- `block_header_t`
pub record Header : Type 0 where
  pub magic : ℕ
  pub size : ℕ
  pub next : ℕ
  pub prev : ℕ

abbrev pub Memory : Type 0
Memory = ℕ → Header

-- A store of a whole header.
pub write : Memory → ℕ → Header → Memory
write mem p h q = if p == q then h else mem q

pub record Heap : Type 0 where
  pub mem : Memory
  pub heap_start : ℕ
  pub initialized : Bool

-- `find_free_block` from `current` on: `none` when the fuel runs out, `some 0` for NULL.
pub find_free_block : ℕ → Memory → ℕ → ℕ → Option ℕ
find_free_block zero mem current size = none
find_free_block (suc fuel) mem current size =
    let rest = find_free_block fuel mem (mem current).next size in
    if current == 0
    then some 0
    else (if (mem current).magic == magic_free && leb size (mem current).size
        then some current
        else rest)

-- `if (p) p->prev = q;`
pub set_prev : Memory → ℕ → ℕ → Memory
set_prev mem p q = if p == 0 then mem else write mem p (record (mem p) { prev = q })

-- The stores of `split_block`, once the rest is large enough.
pub cut_block : Memory → ℕ → ℕ → Memory
cut_block mem block size =
    let new_block : ℕ = block + size in
    let new_header : Header = record {
      magic = magic_free;
      size = (mem block).size - size;
      next = (mem block).next;
      prev = block;
    } in
    let mem₁ = write mem new_block new_header in
    let mem₂ = set_prev mem₁ (mem₁ block).next new_block in
    write mem₂ block (record (mem₂ block) { next = new_block; size = size % u32 })

pub split_block : Memory → ℕ → ℕ → Memory
split_block mem block size =
    if leb (size + header_size + 32) (mem block).size then cut_block mem block size else mem

-- The stores of `merge_blocks` where the block after `a` joins it: `b` is the block that goes.
pub join_blocks : Memory → (a b : ℕ) → Memory
join_blocks mem a b =
    write mem a (record (mem a) { size = ((mem a).size + (mem b).size) % u32; next = (mem b).next })

-- The first half of `merge_blocks`: with the next block.
pub merge_next : Memory → ℕ → Memory
merge_next mem block =
    let mem₁ = join_blocks mem block (mem block).next in
    let merged = set_prev mem₁ (mem₁ block).next block in
    if not ((mem block).next == 0) && (mem (mem block).next).magic == magic_free
    then merged
    else mem

-- The second half: with the previous block.
pub merge_prev : Memory → ℕ → Memory
merge_prev mem block =
    let mem₁ = join_blocks mem (mem block).prev block in
    let merged = set_prev mem₁ (mem₁ block).next (mem₁ block).prev in
    if not ((mem block).prev == 0) && (mem (mem block).prev).magic == magic_free
    then merged
    else mem

pub merge_blocks : Memory → ℕ → Memory
merge_blocks mem block = merge_prev (merge_next mem block) block

-- `(size + 7) & ~7` and then `size + sizeof(block_header_t)`, in `size_t`
pub total_size : ℕ → ℕ
total_size size = ((size + 7) % u64 / 8 * 8 + header_size) % u64

abbrev pub set_magic : Memory → ℕ → ℕ → Memory
set_magic mem p m = write mem p (record (mem p) { magic = m })

-- `kmalloc` past its first test, for the block that was found.
pub take_block : Memory → ℕ → ℕ → Memory
take_block mem block total = set_magic (split_block mem block total) block magic_used

-- `kmalloc`: the heap after it and the pointer; `none` when the fuel runs out.
pub kmalloc : ℕ → Heap → ℕ → Option (Heap × ℕ)
kmalloc fuel h size =
    if not h.initialized || size == 0
    then some (h, 0)
    else elim (find_free_block fuel h.mem h.heap_start (total_size size)) [
      | none ↦ none
      | some block ↦
          if block == 0
          then some (h, 0)
          else some
              (record h { mem = take_block h.mem block (total_size size) }, block + header_size)
    ]

-- `kfree`
pub kfree : Heap → ℕ → Heap
kfree h ptr =
    let block : ℕ = ptr - header_size in
    if ptr == 0
    then h
    else (if (h.mem block).magic == magic_used
        then record h { mem = merge_blocks (set_magic h.mem block magic_free) block }
        else h)

-- The loop of `heap_get_stats`: `none` when the fuel runs out.
pub stats_from : ℕ → Memory → ℕ → (used free : ℕ) → Option (ℕ × ℕ)
stats_from zero mem current used free = none
stats_from (suc fuel) mem current used free =
    let is_free = (mem current).magic == magic_free in
    let rest =
      stats_from fuel mem (mem current).next (if is_free then used else used + (mem current).size)
        (if is_free then free + (mem current).size else free) in
    if current == 0 then some (used, free) else rest

pub heap_get_stats : ℕ → Heap → Option (ℕ × ℕ)
heap_get_stats fuel h = stats_from fuel h.mem h.heap_start 0 0

-- The end of `heap_init`, over mapped memory: one free block.
pub heap_init : Memory → (start size : ℕ) → Heap
heap_init mem start size = record {
  mem = write mem start (record { magic = magic_free; size = size; next = 0; prev = 0 });
  heap_start = start;
  initialized = true;
}
