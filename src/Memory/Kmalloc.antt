-- ===== src/Memory/Kmalloc.antt =====
-- kern/memory/kmalloc.c: the kernel heap, a linked list of block headers in memory. A header is one
-- cell of the store `Memory`, at its address; the bytes of a header lie within its block, so two
-- cells never share a byte while the blocks tile the heap. `int free` is only tested for zero and
-- is a truth value here.
pub mod Blocks
pub mod Repr
pub mod Alloc
pub mod Free
pub mod Safety
pub mod Alignment
pub mod Grants
pub mod Steps
pub mod Client
pub mod Limits
mod Tests
use astral_os.Common.{
  ℕ, zero, suc, ◌+◌, ◌*◌, ◌/◌, Bool, true, false, not, ◌&&◌, Option, none, some, if◌then◌else◌, ltb,
  leb, ◌==◌, add64, sub64,
}

pub record BlockHeader : Type 0 where
  pub size : ℕ
  pub next : ℕ
  pub free : Bool

abbrev pub Memory : Type 0
Memory = ℕ → BlockHeader

abbrev pub write : Memory → ℕ → BlockHeader → Memory
write mem a b x = if x == a then b else mem x

-- The two static variables of the file, and the memory that the headers live in.
pub record Heap : Type 0 where
  pub heap_start_ptr : ℕ
  pub total_heap_size : ℕ
  pub mem : Memory

-- `sizeof(block_header_t)`: two 8-byte words, an `int`, and padding to 8 bytes.
abbrev pub header_size : ℕ
header_size = 24

unfoldable pub kmalloc_init : Memory → ℕ → ℕ → Heap
kmalloc_init mem heap_start heap_size = record {
  heap_start_ptr = heap_start;
  total_heap_size = heap_size;
  mem = write mem heap_start (record { size = sub64 heap_size header_size; next = 0; free = true });
}

-- `(size + 7) & ~7` at 64 bits
abbrev pub round_up : ℕ → ℕ
round_up size = add64 size 7 / 8 * 8

-- The inner `if` of the loop: the rest of the block becomes a block of its own.
unfoldable pub split_block : Memory → ℕ → ℕ → Memory
split_block mem current size =
    let new_block = add64 (add64 current header_size) size in
    let mem1 = write mem new_block (record {
      size = sub64 (sub64 (mem current).size size) header_size;
      next = (mem current).next;
      free = true;
    }) in
    write mem1 current (record (mem1 current) { next = new_block; size = size })

-- The outer `if` of the loop: takes the block at `current`.
unfoldable pub take_block : Memory → ℕ → ℕ → Memory
take_block mem current size =
    let mem' =
      if ltb (add64 size header_size) (mem current).size
      then split_block mem current size
      else mem in
    write mem' current (record (mem' current) { free = false })

-- `while (current)`, on fuel; `none` says that the fuel ran out.
unfoldable pub alloc_loop : ℕ → Memory → ℕ → ℕ → Option (ℕ × Memory)
alloc_loop zero mem current size = none
alloc_loop (suc fuel) mem current size =
    let rest = alloc_loop fuel mem (mem current).next size in
    if current == 0
    then some (0, mem)
    else if (mem current).free && leb size (mem current).size
    then some (add64 current header_size, take_block mem current size)
    else rest

-- The fuel of both loops: a block takes 24 bytes of the heap at least, so a heap has fewer blocks.
abbrev pub rounds : Heap → ℕ
rounds h = suc h.total_heap_size

unfoldable pub kmalloc : Heap → ℕ → Option (ℕ × Heap)
kmalloc h size =
    if size == 0
    then some (0, h)
    else elim (alloc_loop (rounds h) h.mem h.heap_start_ptr (round_up size)) [
      | none ↦ none
      | some (p, mem') ↦ some (p, record h { mem = mem' })
    ]

-- One round of the loop of `kfree`: joins the block at `current` with the next one.
unfoldable pub merge_next : Memory → ℕ → Memory
merge_next mem current =
    let b = mem current in
    let n = mem b.next in
    let mem1 = write mem current (record b { size = add64 b.size (add64 header_size n.size) }) in
    let mem2 =
      write mem1 current (record (mem1 current) { next = (mem1 (mem1 current).next).next }) in
    if b.free && not (b.next == 0) && n.free && add64 (add64 current header_size) b.size == b.next
    then mem2
    else mem

unfoldable pub free_loop : ℕ → Memory → ℕ → Option Memory
free_loop zero mem current = none
free_loop (suc fuel) mem current =
    let mem' = merge_next mem current in
    let rest = free_loop fuel mem' (mem' current).next in if current == 0 then some mem else rest

unfoldable pub kfree : Heap → ℕ → Option Heap
kfree h ptr =
    let block = sub64 ptr header_size in
    let marked = write h.mem block (record (h.mem block) { free = true }) in
    if ptr == 0 then some h else elim (free_loop (rounds h) marked h.heap_start_ptr) [
      | none ↦ none
      | some mem' ↦ some (record h { mem = mem' })
    ]
