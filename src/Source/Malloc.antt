-- ===== src/Source/Malloc.antt =====
-- src/foundation/memory/memory.c: the source over `malloc` and `aligned_alloc`, and the one over
-- `mmap`.
pub mod Block
use c_base.Base.{ℕ, Option, none, some, Bool, true, false, leb, if◌then◌else◌, ◌==◌}
use c_base.Base.Run.{Run, ok, ◌>>=◌, ◌>>◌}
use c_base.Base.Word.{max_alignment}
use c_base.Align.{align_up, check_alignment}
use c_base.Source.{MemorySource, Handle}
use c_base.Source.Library.{CLibrary, create_ctx, destroy_ctx}
use c_base.Source.Stats.{AllocatorStats, no_stats, stattrack_reserve, stattrack_release}

-- `MallocCtx`, and `MmapCtx`, whose flags are never read; beside them, the state of the library
pub record MallocCtx (H : Type 0) : Type 0 where
  pub stats : AllocatorStats
  pub heap : H

abbrev pub malloc_ctx_size : ℕ
malloc_ctx_size = 32

abbrev pub mmap_ctx_size : ℕ
mmap_ctx_size = 40

module _ {H : Type 0} (lib : CLibrary H) where
  -- the result of a call of the library, counted if it is not null
  abbrev pub counted : MallocCtx H → ℕ → Option ℕ × H → Option ℕ × MallocCtx H
  counted c size (none, h) = (none, record c { heap = h })
  counted c size (some p, h) = (some p, record { stats = stattrack_reserve c.stats size; heap = h })

  unfoldable pub malloc_reserve : MallocCtx H → ℕ → ℕ → ℕ → Run (Option ℕ × MallocCtx H)
  malloc_reserve c size alignment flags = do
    check_alignment alignment
    if leb alignment max_alignment
        then (do r ← lib.malloc c.heap size; ok (counted c size r))
        else (do
          r ← lib.aligned_alloc c.heap alignment (align_up size alignment)
          ok (counted c (align_up size alignment) r))

  -- A null pointer is 0.
  unfoldable pub malloc_release : MallocCtx H → ℕ → ℕ → Run (MallocCtx H)
  malloc_release c ptr size = if ptr == 0 then ok c else do
    h ← lib.free c.heap ptr
    ok (record { stats = stattrack_release c.stats size; heap = h })

  abbrev pub malloc_source : MemorySource (MallocCtx H)
  malloc_source = record { reserve = malloc_reserve; release = malloc_release }

  unfoldable pub mmap_reserve : MallocCtx H → ℕ → ℕ → ℕ → Run (Option ℕ × MallocCtx H)
  mmap_reserve c size alignment flags = do r ← lib.mmap c.heap size; ok (counted c size r)

  unfoldable pub mmap_release : MallocCtx H → ℕ → ℕ → Run (MallocCtx H)
  mmap_release c ptr size = if ptr == 0 then ok c else do
    (done, h) ← lib.munmap c.heap ptr size
    ok (record { stats = if done then stattrack_release c.stats size else c.stats; heap = h })

  abbrev pub mmap_source : MemorySource (MallocCtx H)
  mmap_source = record { reserve = mmap_reserve; release = mmap_release }

  unfoldable pub malloc_memory_source_create : H → Run (Option (Handle AllocatorStats) × H)
  unfolding create_ctx
  malloc_memory_source_create h = create_ctx lib malloc_ctx_size no_stats h

  unfoldable pub mmap_memory_source_create : H → Run (Option (Handle AllocatorStats) × H)
  unfolding create_ctx
  mmap_memory_source_create h = create_ctx lib mmap_ctx_size no_stats h

  unfoldable pub malloc_memory_source_destroy :
      Option (Handle AllocatorStats) → H → Run (Option (Handle AllocatorStats) × H)
  unfolding destroy_ctx
  malloc_memory_source_destroy s h = destroy_ctx lib s h

  unfoldable pub mmap_memory_source_destroy :
      Option (Handle AllocatorStats) → H → Run (Option (Handle AllocatorStats) × H)
  unfolding destroy_ctx
  mmap_memory_source_destroy s h = destroy_ctx lib s h
