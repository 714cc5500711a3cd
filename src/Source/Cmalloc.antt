-- ===== src/Source/Cmalloc.antt =====
-- src/foundation/memory/memory.c: the source that aligns by hand inside a larger block of `malloc`, and
-- keeps the address of that block just before the one it returns.
pub mod Block
use c_base.Base.{ℕ, Option, none, some, ltb, if◌then◌else◌, ◌==◌}
use c_base.Base.Memory.{write}
use c_base.Base.Run.{Run, ok, ◌>>=◌, ◌>>◌}
use c_base.Base.Word.{add_size, sub_size, max_alignment}
use c_base.Align.{align_up, check_alignment}
use c_base.Source.{MemorySource, Handle}
use c_base.Source.Library.{CLibrary, create_ctx, destroy_ctx}
use c_base.Source.Stats.{AllocatorStats, no_stats, stattrack_reserve, stattrack_release}

-- `CmallocCtx`; beside it, the state of the library, and the `ManualAlignedMemoryHeader`s in memory
pub record CmallocCtx (H : Type 0) : Type 0 where
  pub stats : AllocatorStats
  pub heap : H
  pub headers : ℕ → ℕ

-- `sizeof(ManualAlignedMemoryHeader)`
abbrev pub manual_header_size : ℕ
manual_header_size = 8

abbrev pub cmalloc_ctx_size : ℕ
cmalloc_ctx_size = 32

abbrev pub min_alignment : ℕ → ℕ
min_alignment alignment = if ltb alignment max_alignment then max_alignment else alignment

-- `size + alignment - 1 + sizeof(ManualAlignedMemoryHeader)`
abbrev pub max_size : ℕ → ℕ → ℕ
max_size size alignment = add_size (sub_size (add_size size alignment) 1) manual_header_size

-- the address that is returned from a block of `malloc` at `raw`
abbrev pub aligned_in : ℕ → ℕ → ℕ
aligned_in raw alignment = align_up (add_size raw manual_header_size) alignment

module _ {H : Type 0} (lib : CLibrary H) where
  unfoldable pub cmalloc_reserve : CmallocCtx H → ℕ → ℕ → ℕ → Run (Option ℕ × CmallocCtx H)
  cmalloc_reserve c size alignment flags = do
    check_alignment alignment
    let stats = stattrack_reserve c.stats size
    let a = min_alignment alignment
    (raw, h) ← lib.malloc c.heap (max_size size a)
    elim raw [
      | none ↦ ok (none, record c { stats = stats; heap = h })
      | some p ↦
          let aligned = aligned_in p a in
          ok (
            some aligned,
            record {
              stats = stats;
              heap = h;
              headers = write c.headers (sub_size aligned manual_header_size) p;
            },
          )
    ]

  -- A null pointer is 0.
  unfoldable pub cmalloc_release : CmallocCtx H → ℕ → ℕ → Run (CmallocCtx H)
  cmalloc_release c ptr size = if ptr == 0 then ok c else do
    h ← lib.free c.heap (c.headers (sub_size ptr manual_header_size))
    ok (record c { stats = stattrack_release c.stats size; heap = h })

  abbrev pub cmalloc_source : MemorySource (CmallocCtx H)
  cmalloc_source = record { reserve = cmalloc_reserve; release = cmalloc_release }

  unfoldable pub cmalloc_memory_source_create : H → Run (Option (Handle AllocatorStats) × H)
  unfolding create_ctx
  cmalloc_memory_source_create h = create_ctx lib cmalloc_ctx_size no_stats h

  unfoldable pub cmalloc_memory_source_destroy :
      Option (Handle AllocatorStats) → H → Run (Option (Handle AllocatorStats) × H)
  unfolding destroy_ctx
  cmalloc_memory_source_destroy s h = destroy_ctx lib s h
