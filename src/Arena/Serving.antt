-- ===== src/Arena/Serving.antt =====
-- The arena as the allocator of a container.
use c_base.Base.{ℕ, ◌<◌, ◌^◌, ◌≡◌, refl}
use c_base.Base.Run.{ok, ◌>>=◌}
use c_base.Align.{check_alignment}
use c_base.Align.Bounds.{IsAlignment}
use c_base.Align.Power.{check_alignment_iff}
use c_base.Allocator.{IsServing}
use c_base.Arena.{arena_bump, arena_alloc, arena_free, arena_vtable}

-- At a power of two, no allocation from an arena and no free to it faults, whatever its state.
pub arena_vtable-IsServing :
    {alignment : ℕ} → IsAlignment alignment → alignment < 2 ^ 64 → IsServing arena_vtable alignment
unfolding arena_alloc arena_free
arena_vtable-IsServing {alignment} a small = record {
  allocates = λ heap size. (arena_bump heap size alignment, rw (accepted, ◌>>=◌) refl, tt);
  frees = λ heap ptr. (heap, refl, tt);
}
  where
    accepted : check_alignment alignment ≡ ok tt
    accepted = (check_alignment_iff alignment small).1 a
