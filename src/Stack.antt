-- ===== src/Stack.antt =====
-- src/foundation/memory/stack.c: the last-in-first-out allocator. The buffer holds a header before
-- each block; the model keeps the headers as a memory of their own, keyed by address, and so takes
-- it that the blocks' owners do not write over them.
pub mod Alloc
pub mod Live
pub mod Lifetime
pub mod Placement
pub mod Tests
use c_base.Base.{ℕ, Option, none, some, ltb, leb, ◌==◌, if◌then◌else◌}
use c_base.Base.Run.{Run, ok, fault, Fault, assert, ◌>>=◌, ◌>>◌}
use c_base.Base.Word.{add_size, sub_size, max_alignment, ptr_size}
use c_base.Align.{align_up, align_down, check_alignment}
use c_base.Allocator.{AllocatorVtable, Allocator}
use c_base.Source.{MemorySource, memory_source_reserve, memory_source_release}

pub record StackHeader : Type 0 where
  pub previous_offset : ℕ
  pub current_offset : ℕ

-- `StackCtx`, with what the buffer holds at each address at which a header is read or written
pub record StackCtx : Type 0 where
  pub buffer : ℕ
  pub capacity : ℕ
  pub offset : ℕ
  pub headers : ℕ → StackHeader

-- `sizeof(StackCtx)`, `sizeof(StackHeader)` and `alignof(StackHeader)`
abbrev pub stack_ctx_size : ℕ
stack_ctx_size = 24

abbrev pub header_size : ℕ
header_size = 16

abbrev pub header_alignment : ℕ
header_alignment = 8

abbrev pub store : (ℕ → StackHeader) → ℕ → StackHeader → ℕ → StackHeader
store memory a h q = if a == q then h else memory q

unfoldable pub compute_stack_header_ptr : ℕ → ℕ
compute_stack_header_ptr ptr = align_down (sub_size ptr header_size) header_alignment

unfoldable pub stack_init : ℕ → ℕ → (ℕ → StackHeader) → StackCtx
stack_init buffer capacity memory = record {
  buffer = buffer;
  capacity = capacity;
  offset = 0;
  headers = memory;
}

-- the part of `stack_alloc` after the assertions
unfoldable pub stack_push : StackCtx → ℕ → ℕ → Option ℕ × StackCtx
stack_push stack size alignment =
    let base_offset = stack.offset in
    let min_header_address = align_up base_offset header_alignment in
    let min_address = add_size (add_size stack.buffer min_header_address) header_size in
    let aligned = align_up min_address alignment in
    let padding = add_size (sub_size aligned min_address) header_size in
    let required = add_size padding size in
    let result = add_size (add_size stack.buffer stack.offset) padding in
    let new_offset = add_size stack.offset (add_size padding size) in
    let header : StackHeader = record {
      previous_offset = base_offset;
      current_offset = new_offset;
    } in
    if ltb (sub_size stack.capacity stack.offset) required then (none, stack) else (
      some result,
      record stack {
        offset = new_offset;
        headers = store stack.headers (compute_stack_header_ptr result) header;
      },
    )

unfoldable pub stack_alloc : StackCtx → ℕ → ℕ → Run (Option ℕ × StackCtx)
stack_alloc stack size alignment = do
  check_alignment alignment
  ok (stack_push stack size alignment)

-- A null pointer is 0.
unfoldable pub stack_free : StackCtx → ℕ → Run StackCtx
stack_free stack ptr =
    let header = stack.headers (compute_stack_header_ptr ptr) in
    if ptr == 0 then ok stack else do
      assert (header.current_offset == stack.offset)
      ok (record stack { offset = header.previous_offset })

-- the part of `stack_realloc` that changes the size of the block on top
unfoldable pub stack_resize : StackCtx → ℕ → ℕ → ℕ → Run (Option ℕ × StackCtx)
stack_resize stack ptr old_size new_size =
    let at = compute_stack_header_ptr ptr in
    let header = stack.headers at in
    let new_offset = add_size stack.offset (sub_size new_size old_size) in
    do
      assert (header.current_offset == stack.offset)
      assert (leb stack.offset (sub_size (add_size stack.capacity old_size) new_size))
      ok (
        some ptr,
        record stack {
          offset = new_offset;
          headers = store stack.headers at (record header { current_offset = new_offset });
        },
      )

-- For a new size of 0 the source calls `stack_free(alloc->handler, ptr)`, which reads the
-- `StackCtx` as an `Allocator` and the bytes of the buffer as a `StackCtx`.
unfoldable pub stack_realloc : StackCtx → ℕ → ℕ → ℕ → Run (Option ℕ × StackCtx)
unfolding stack_resize
stack_realloc stack ptr old_size new_size =
    if ptr == 0
    then ok (none, stack)
    else if new_size == old_size
    then ok (some ptr, stack)
    else if new_size == 0
    then fault Fault.bad_pointer
    else stack_resize stack ptr old_size new_size

unfoldable pub stack_reset : StackCtx → Run StackCtx
stack_reset stack = ok (record stack { offset = 0 })

abbrev pub stack_vtable : AllocatorVtable StackCtx
stack_vtable = record {
  alloc = stack_alloc;
  free = stack_free;
  realloc = stack_realloc;
  reset = stack_reset;
}

-- `memory` is what the reserved buffer holds before anything is written to it.
module _ {M : Type 0} (source : MemorySource M) (memory : ℕ → StackHeader) where
  -- what follows the reservation of the context at `address`
  stack_create_at : ℕ → ℕ → M → Run (Allocator StackCtx × M)
  stack_create_at address capacity m = do
    (buffer, m') ← memory_source_reserve source m capacity max_alignment 0
    elim buffer [
      | none ↦ do m'' ← memory_source_release source m' address stack_ctx_size; ok (none, m'')
      | some b ↦ ok (some (record { address = address; ctx = stack_init b capacity memory }), m')
    ]

  unfoldable pub stack_create : ℕ → M → Run (Allocator StackCtx × M)
  unfolding stack_create_at
  stack_create capacity m = do
    (stack, m') ← memory_source_reserve source m stack_ctx_size ptr_size 0
    elim stack [ none ↦ ok (none, m') | some address ↦ stack_create_at address capacity m' ]

module _ {M : Type 0} (source : MemorySource M) where
  unfoldable pub stack_destroy : Allocator StackCtx → M → Run (Allocator StackCtx × M)
  stack_destroy none m = ok (none, m)
  stack_destroy (some h) m = do
    m' ← memory_source_release source m h.ctx.buffer h.ctx.capacity
    m'' ← memory_source_release source m' h.address stack_ctx_size
    ok (none, m'')
