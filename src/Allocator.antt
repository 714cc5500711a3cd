-- ===== src/Allocator.antt =====
-- src/foundation/memory/allocator.c and include/base/foundation/memory/allocator.h: the allocator
-- interface, a vtable of four functions over a handler, and the calls that go through it.
use c_base.Base.{ℕ, Option}
use c_base.Base.Run.{Run, Returns}

-- `AllocatorVTable`, with what the handler points to as a state `S`. A null result is `none`.
pub record AllocatorVtable (S : Type 0) : Type 0 where
  pub alloc : S → ℕ → ℕ → Run (Option ℕ × S)
  pub free : S → ℕ → Run S
  pub realloc : S → ℕ → ℕ → ℕ → Run (Option ℕ × S)
  pub reset : S → Run S

module _ {S : Type 0} (vt : AllocatorVtable S) where
  abbrev pub allocator_alloc : S → ℕ → ℕ → Run (Option ℕ × S)
  allocator_alloc s size alignment = vt.alloc s size alignment

  abbrev pub allocator_free : S → ℕ → Run S
  allocator_free s ptr = vt.free s ptr

  abbrev pub allocator_realloc : S → ℕ → ℕ → ℕ → Run (Option ℕ × S)
  allocator_realloc s ptr old_size new_size = vt.realloc s ptr old_size new_size

  abbrev pub allocator_reset : S → Run S
  allocator_reset s = vt.reset s

-- `Allocator`: the address and the contents of its handler, or `none` for `(Allocator){0}`. The
-- vtable is the one of the module that makes the allocator, and the source is passed beside it.
pub record Handler (C : Type 0) : Type 0 where
  pub address : ℕ
  pub ctx : C

abbrev pub Allocator : Type 0 → Type 0
Allocator C = Option (Handler C)

-- An allocator that a container can use at an alignment: to allocate may fail, but neither that nor
-- to free faults.
pub record IsServing {S : Type 0} (vt : AllocatorVtable S) (alignment : ℕ) : Type 0 where
  pub allocates : (heap : S) (size : ℕ) → Returns (vt.alloc heap size alignment) (λ r. Unit {0})
  pub frees : (heap : S) (ptr : ℕ) → Returns (vt.free heap ptr) (λ t. Unit {0})
