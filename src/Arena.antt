-- ===== src/Arena.antt =====
-- src/foundation/memory/arena.c: the bump allocator.
pub mod Alloc
pub mod Lifetime
pub mod Blocks
pub mod Serving
pub mod Tests
use c_base.Base.{ℕ, Option, none, some, ltb, if◌then◌else◌}
use c_base.Base.Run.{Run, ok, ◌>>=◌, ◌>>◌}
use c_base.Base.Word.{add_size, sub_size, max_alignment, ptr_size}
use c_base.Align.{align_up, check_alignment}
use c_base.Allocator.{AllocatorVtable, Allocator}
use c_base.Source.{MemorySource, memory_source_reserve, memory_source_release}

pub record ArenaCtx : Type 0 where
  pub buffer : ℕ
  pub capacity : ℕ
  pub offset : ℕ

-- `sizeof(ArenaCtx)`: a pointer and two `usize`
abbrev pub arena_ctx_size : ℕ
arena_ctx_size = 24

unfoldable pub arena_init : ℕ → ℕ → ArenaCtx
arena_init buffer capacity = record { buffer = buffer; capacity = capacity; offset = 0 }

-- the part of `arena_alloc` after the assertions
unfoldable pub arena_bump : ArenaCtx → ℕ → ℕ → Option ℕ × ArenaCtx
arena_bump arena size alignment =
    let current = add_size arena.buffer arena.offset in
    let aligned = align_up current alignment in
    let padding = sub_size aligned current in
    let required = add_size padding size in
    let start = add_size arena.offset padding in
    if ltb (sub_size arena.capacity arena.offset) required
    then (none, arena)
    else (some (add_size arena.buffer start), record arena { offset = add_size start size })

unfoldable pub arena_alloc : ArenaCtx → ℕ → ℕ → Run (Option ℕ × ArenaCtx)
arena_alloc arena size alignment = do
  check_alignment alignment
  ok (arena_bump arena size alignment)

unfoldable pub arena_free : ArenaCtx → ℕ → Run ArenaCtx
arena_free arena ptr = ok arena

unfoldable pub arena_realloc : ArenaCtx → ℕ → ℕ → ℕ → Run (Option ℕ × ArenaCtx)
arena_realloc arena ptr old_size new_size = ok (none, arena)

unfoldable pub arena_reset : ArenaCtx → Run ArenaCtx
arena_reset arena = ok (record arena { offset = 0 })

abbrev pub arena_vtable : AllocatorVtable ArenaCtx
arena_vtable = record {
  alloc = arena_alloc;
  free = arena_free;
  realloc = arena_realloc;
  reset = arena_reset;
}

module _ {M : Type 0} (source : MemorySource M) where
  -- what follows the reservation of the context at `address`
  arena_create_at : ℕ → ℕ → M → Run (Allocator ArenaCtx × M)
  arena_create_at address capacity m = do
    (buffer, m') ← memory_source_reserve source m capacity max_alignment 0
    elim buffer [
      | none ↦ do m'' ← memory_source_release source m' address arena_ctx_size; ok (none, m'')
      | some b ↦ ok (some (record { address = address; ctx = arena_init b capacity }), m')
    ]

  unfoldable pub arena_create : ℕ → M → Run (Allocator ArenaCtx × M)
  unfolding arena_create_at
  arena_create capacity m = do
    (arena, m') ← memory_source_reserve source m arena_ctx_size ptr_size 0
    elim arena [ none ↦ ok (none, m') | some address ↦ arena_create_at address capacity m' ]

  unfoldable pub arena_destroy : Allocator ArenaCtx → M → Run (Allocator ArenaCtx × M)
  arena_destroy none m = ok (none, m)
  arena_destroy (some h) m = do
    m' ← memory_source_release source m h.ctx.buffer h.ctx.capacity
    m'' ← memory_source_release source m' h.address arena_ctx_size
    ok (none, m'')
