-- ===== src/Pool.antt =====
-- src/foundation/memory/pool.c and include/base/foundation/memory/pool.h: blocks of one size behind
-- a free list. A `PoolBlock*` is its index in `meta_buffer`; a null one is `none`.
pub mod Build
pub mod Lists
pub mod Blocks
pub mod Serve
pub mod Lifetime
pub mod Tests
use c_base.Base.{
  ℕ, zero, suc, ◌+◌, ◌-◌, ◌/◌, List, Option, none, some, Bool, true, false, not, ltb, leb, ◌==◌,
  if◌then◌else◌, replicate,
}
use c_base.Base.Cells.{load, store, div_size, mod_size}
use c_base.Base.Run.{Run, ok, assert, ◌>>=◌, ◌>>◌}
use c_base.Base.Word.{add_size, sub_size, mul_size, ptr_size}
use c_base.Align.{align_up, check_alignment}
use c_base.Allocator.{AllocatorVtable, Allocator}
use c_base.Source.{MemorySource, memory_source_reserve, memory_source_release}

-- `PoolBlock` has one field, `next`; `meta` is what `meta_buffer` holds.
pub record PoolCtx : Type 0 where
  pub free_list : Option ℕ
  pub buffer : ℕ
  pub meta : List (Option ℕ)
  pub block_size : ℕ
  pub block_count : ℕ
  pub alignment : ℕ

-- `sizeof(PoolCtx)`: three pointers and three `usize`; `sizeof(PoolBlock)`
abbrev pub pool_ctx_size : ℕ
pool_ctx_size = 48

abbrev pub pool_block_size : ℕ
pool_block_size = 8

-- The loop of `pool_build_free_list`, with `left` rounds to go, and the write that follows it.
pub build_loop : ℕ → ℕ → ℕ → List (Option ℕ) → Run (List (Option ℕ))
build_loop zero i previous meta = store meta previous none
build_loop (suc left) i previous meta = do
  meta' ← store meta previous (some i)
  build_loop left (i + 1) i meta'

unfoldable pub pool_build_free_list : PoolCtx → Run PoolCtx
unfolding build_loop
pool_build_free_list pool = do
  meta ← build_loop (pool.block_count - 1) 1 0 pool.meta
  ok (record pool { meta = meta; free_list = some 0 })

unfoldable pub pool_init : ℕ → List (Option ℕ) → ℕ → ℕ → ℕ → Run PoolCtx
pool_init buffer meta block_size block_count alignment = do
  assert (not (block_count == 0))
  pool_build_free_list (record {
    free_list = none;
    buffer = buffer;
    meta = meta;
    block_size = block_size;
    block_count = block_count;
    alignment = alignment;
  })

unfoldable pub pool_alloc : PoolCtx → ℕ → ℕ → Run (Option ℕ × PoolCtx)
pool_alloc pool size alignment = do
  assert (leb size pool.block_size)
  assert (leb alignment pool.alignment)
  elim pool.free_list [
    | none ↦ ok (none, pool)
    | some index ↦ do
      next ← load pool.meta index
      ok (
        some (add_size pool.buffer (mul_size index pool.block_size)),
        record pool { free_list = next },
      )
  ]

unfoldable pub pool_free : PoolCtx → ℕ → Run PoolCtx
pool_free pool ptr = do
  assert (leb pool.buffer ptr)
  assert (ltb ptr (add_size pool.buffer (mul_size pool.block_size pool.block_count)))
  rest ← mod_size (sub_size ptr pool.buffer) pool.block_size
  assert (rest == 0)
  index ← div_size (sub_size ptr pool.buffer) pool.block_size
  meta ← store pool.meta index pool.free_list
  ok (record pool { meta = meta; free_list = some index })

unfoldable pub pool_realloc : PoolCtx → ℕ → ℕ → ℕ → Run (Option ℕ × PoolCtx)
pool_realloc pool ptr old_size new_size = ok (none, pool)

unfoldable pub pool_reset : PoolCtx → Run PoolCtx
pool_reset pool = pool_build_free_list pool

unfoldable pub pool_is_full : PoolCtx → Bool
pool_is_full pool = elim pool.free_list [ none ↦ true | some _ ↦ false ]

abbrev pub pool_vtable : AllocatorVtable PoolCtx
pool_vtable = record {
  alloc = pool_alloc;
  free = pool_free;
  realloc = pool_realloc;
  reset = pool_reset;
}

abbrev pub meta_buffer_size : ℕ → ℕ
meta_buffer_size block_count = add_size pool_ctx_size (mul_size pool_block_size block_count)

-- The cells that fit between the end of the context and the end of the metadata buffer; the fresh
-- memory in them is taken to be null pointers, and is written before it is read.
abbrev pub fresh_meta : ℕ → List (Option ℕ)
fresh_meta block_count =
    replicate ((meta_buffer_size block_count - align_up pool_ctx_size ptr_size) / pool_block_size)
      none

module _ {M : Type 0} (source : MemorySource M) where
  -- what follows the reservation of the metadata buffer at `address`; `size` is the aligned size
  pool_create_at : ℕ → ℕ → ℕ → ℕ → M → Run (Allocator PoolCtx × M)
  pool_create_at address size block_count alignment m = do
    (buffer, m') ← memory_source_reserve source m (mul_size size block_count) alignment 0
    elim buffer [
      | none ↦ do
        m'' ← memory_source_release source m' address (meta_buffer_size block_count)
        ok (none, m'')
      | some b ↦ do
        pool ← pool_init b (fresh_meta block_count) size block_count alignment
        ok (some (record { address = address; ctx = pool }), m')
    ]

  unfoldable pub pool_create : ℕ → ℕ → ℕ → M → Run (Allocator PoolCtx × M)
  unfolding pool_create_at
  pool_create block_size block_count alignment m = do
    check_alignment alignment
    let size = align_up block_size alignment
    (meta_buffer, m') ← memory_source_reserve source m (meta_buffer_size block_count) ptr_size 0
    elim meta_buffer [
      | none ↦ ok (none, m')
      | some address ↦ pool_create_at address size block_count alignment m'
    ]

  unfoldable pub pool_destroy : Allocator PoolCtx → M → Run (Allocator PoolCtx × M)
  pool_destroy none m = ok (none, m)
  pool_destroy (some h) m = do
    m' ← memory_source_release source m h.ctx.buffer (mul_size h.ctx.block_count h.ctx.block_size)
    m'' ← memory_source_release source m' h.address (meta_buffer_size h.ctx.block_count)
    ok (none, m'')
