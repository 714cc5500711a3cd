-- ===== src/Source/Stats.antt =====
-- `AllocatorStats` of include/base/foundation/memory/memory.h and its two updates in
-- src/foundation/memory/memory.c.
use c_base.Base.{ℕ}
use c_base.Base.Word.{add_size}

pub record AllocatorStats : Type 0 where
  pub allocations : ℕ
  pub frees : ℕ
  pub bytes_allocated : ℕ
  pub bytes_freed : ℕ

abbrev pub no_stats : AllocatorStats
no_stats = record { allocations = 0; frees = 0; bytes_allocated = 0; bytes_freed = 0 }

unfoldable pub stattrack_reserve : AllocatorStats → ℕ → AllocatorStats
stattrack_reserve s size = record s {
  allocations = add_size s.allocations 1;
  bytes_allocated = add_size s.bytes_allocated size;
}

unfoldable pub stattrack_release : AllocatorStats → ℕ → AllocatorStats
stattrack_release s size = record s {
  frees = add_size s.frees 1;
  bytes_freed = add_size s.bytes_freed size;
}
