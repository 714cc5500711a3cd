-- ===== src/Source/Buffer.antt =====
-- src/foundation/memory/memory.c: the source over a buffer of the caller's, a doubly linked list of
-- blocks that are split when they are reserved and joined when they are released.
pub mod Chain
pub mod Links
pub mod Split
pub mod Fit
pub mod Reserve
pub mod Join
pub mod Free
pub mod Merge
pub mod Release
pub mod Overrun
use c_base.Base.{
  ℕ, zero, suc, ◌^◌, ◌%◌, Option, none, some, Bool, true, false, not, ◌&&◌, ltb, if◌then◌else◌,
  ◌==◌,
}
use c_base.Base.Memory.{write}
use c_base.Base.Run.{Run, ok, fault, Fault, assert, ◌>>=◌, ◌>>◌}
use c_base.Base.Word.{add_size, sub_size, ptr_size}
use c_base.Align.{align_up, check_alignment}
use c_base.Source.{MemorySource, Handle}
use c_base.Source.Library.{CLibrary, create_ctx, destroy_ctx}
use c_base.Source.Stats.{AllocatorStats, no_stats, stattrack_reserve, stattrack_release}

-- A null pointer is 0.
pub record BufferBlock : Type 0 where
  pub size : ℕ
  pub free : Bool
  pub next : ℕ
  pub prev : ℕ

-- `BufferAllocCtx`; beside it, what the buffer holds: the blocks, and the pointers to their blocks that
-- stand before the addresses that are handed out
pub record BufferAllocCtx : Type 0 where
  pub stats : AllocatorStats
  pub buffer : ℕ
  pub capacity : ℕ
  pub first : ℕ
  pub blocks : ℕ → BufferBlock
  pub owners : ℕ → ℕ

-- `sizeof(BufferBlock)`, `alignof(BufferBlock)`, `sizeof(BufferAllocCtx)`
abbrev pub block_header_size : ℕ
block_header_size = 32

abbrev pub block_header_alignment : ℕ
block_header_alignment = 8

abbrev pub buffer_ctx_size : ℕ
buffer_ctx_size = 56

unfoldable pub buffer_try_fit_pointer_in_block : ℕ → BufferBlock → ℕ → ℕ → Option ℕ
buffer_try_fit_pointer_in_block address block size alignment =
    let min_address = add_size (add_size address block_header_size) ptr_size in
    let aligned = align_up min_address alignment in
    if not block.free
    then none
    else if ltb block.size size
    then none
    else if ltb (add_size address block.size) (add_size aligned size)
    then none
    else some aligned

-- The loop over the blocks: the pointer that fits first, and its block. There are no more blocks than
-- bytes in the buffer.
unfoldable pub fit_loop : ℕ → (ℕ → BufferBlock) → ℕ → ℕ → ℕ → Run (Option (ℕ × ℕ))
fit_loop zero blocks current size alignment = fault Fault.endless
fit_loop (suc fuel) blocks current size alignment =
    let rest = fit_loop fuel blocks (blocks current).next size alignment in
    if current == 0
    then ok none
    else elim (buffer_try_fit_pointer_in_block current (blocks current) size alignment) [
      | some ptr ↦ ok (some (ptr, current))
      | none ↦ rest
    ]

-- `current_block->size = size; current_block->free = false;`
abbrev pub take_block : (ℕ → BufferBlock) → ℕ → ℕ → ℕ → BufferBlock
take_block blocks b size = write blocks b (record (blocks b) { size = size; free = false })

-- A new block of `next_size` bytes at `at`, behind the block `b`.
abbrev pub add_block : (ℕ → BufferBlock) → ℕ → ℕ → ℕ → ℕ → BufferBlock
add_block blocks b at next_size =
    let next = (blocks b).next in
    let made = write blocks at (record { size = next_size; free = true; next = next; prev = b }) in
    let linked = if next == 0 then made else write made next (record (made next) { prev = at }) in
    write linked b (record (linked b) { next = at })

-- `next_size`, an `iptr`: where the block behind would begin, and how much it would have
abbrev pub rest_size : BufferAllocCtx → ℕ → ℕ → ℕ
rest_size s next next_start =
    let old_next_start = if next == 0 then add_size s.buffer s.capacity else next in
    sub_size (sub_size old_next_start next_start) block_header_size

-- the part of `buffer_reserve` behind the loop, for the pointer `ptr` in the block `b`
unfoldable pub reserve_in : BufferAllocCtx → ℕ → ℕ → ℕ → BufferAllocCtx
reserve_in s ptr b size =
    let taken = take_block s.blocks b size in
    let next_start = add_size ptr size in
    let next_size = rest_size s (s.blocks b).next next_start in
    record s {
      stats = stattrack_reserve s.stats size;
      blocks = if ltb next_size (2 ^ 63) then add_block taken b next_start next_size else taken;
      owners = write s.owners (sub_size ptr ptr_size) b;
    }

unfoldable pub buffer_reserve : BufferAllocCtx → ℕ → ℕ → ℕ → Run (Option ℕ × BufferAllocCtx)
unfolding fit_loop
buffer_reserve s size alignment flags = do
  check_alignment alignment
  found ← fit_loop (suc s.capacity) s.blocks s.first size alignment
  elim found [ none ↦ ok (none, s) | some (ptr, b) ↦ ok (some ptr, reserve_in s ptr b size) ]

-- `block->prev` takes the block `b` over.
abbrev pub join_prev : (ℕ → BufferBlock) → ℕ → ℕ → BufferBlock
join_prev blocks b =
    let block = blocks b in
    let unlinked =
      if block.next == 0
      then blocks
      else write blocks block.next (record (blocks block.next) { prev = block.prev }) in
    let p = unlinked block.prev in
    write unlinked block.prev (record p { next = block.next; size = add_size p.size block.size })

-- `block->next` takes the block `b` over.
abbrev pub join_next : (ℕ → BufferBlock) → ℕ → ℕ → BufferBlock
join_next blocks b =
    let block = blocks b in
    let linked = write blocks block.next (record (blocks block.next) { prev = block.prev }) in
    let unlinked =
      if block.prev == 0
      then linked
      else write linked block.prev (record (linked block.prev) { next = block.next }) in
    let n = unlinked block.next in
    write unlinked block.next (record n { size = add_size n.size block.size })

-- `block->free = true; block->size = ptr + block->size - block;`
abbrev pub free_block : (ℕ → BufferBlock) → ℕ → ℕ → ℕ → BufferBlock
free_block blocks b ptr =
    write blocks b
      (record (blocks b) { free = true; size = sub_size (add_size ptr (blocks b).size) b })

-- the two joins, each if the neighbour is there and free
unfoldable pub join_block : (ℕ → BufferBlock) → ℕ → ℕ → BufferBlock
join_block blocks b =
    let prev = (blocks b).prev in
    let joined = if not (prev == 0) && (blocks prev).free then join_prev blocks b else blocks in
    let next = (joined b).next in
    if not (next == 0) && (joined next).free then join_next joined b else joined

unfoldable pub buffer_release : BufferAllocCtx → ℕ → ℕ → Run BufferAllocCtx
unfolding join_block
buffer_release s ptr size =
    let b = s.owners (sub_size ptr ptr_size) in
    if ptr == 0
    then ok s
    else ok (record s {
      stats = stattrack_release s.stats size;
      blocks = join_block (free_block s.blocks b ptr) b;
    })

abbrev pub buffer_source : MemorySource BufferAllocCtx
buffer_source = record { reserve = buffer_reserve; release = buffer_release }

-- `memory` is what the buffer holds before anything is written to it, seen as blocks and as pointers.
unfoldable pub buffer_ctx : (ℕ → BufferBlock) → (ℕ → ℕ) → ℕ → ℕ → BufferAllocCtx
buffer_ctx memory pointers buffer buffer_size = record {
  stats = no_stats;
  buffer = buffer;
  capacity = buffer_size;
  first = buffer;
  blocks =
      write memory buffer
        (record { size = sub_size buffer_size block_header_size; free = true; next = 0; prev = 0 });
  owners = pointers;
}

module _ {H : Type 0} (lib : CLibrary H) where
  unfoldable pub buffer_memory_source_create :
      (ℕ → BufferBlock) → (ℕ → ℕ) → ℕ → ℕ → H → Run (Option (Handle BufferAllocCtx) × H)
  unfolding create_ctx buffer_ctx
  buffer_memory_source_create memory pointers buffer buffer_size h = do
    assert (buffer % block_header_alignment == 0)
    assert (ltb block_header_size buffer_size)
    create_ctx lib buffer_ctx_size (buffer_ctx memory pointers buffer buffer_size) h

  unfoldable pub buffer_memory_source_destroy :
      Option (Handle BufferAllocCtx) → H → Run (Option (Handle BufferAllocCtx) × H)
  unfolding destroy_ctx
  buffer_memory_source_destroy s h = destroy_ctx lib s h
