-- ===== src/DynArray.antt =====
-- src/foundation/containers/dynarray.c and include/base/foundation/containers/dynarray.h: the growable
-- array. Offsets `i * elem_size` into a buffer are indices `i` into its cells.
pub mod Store
pub mod Size
pub mod Edit
pub mod Lifecycle
pub mod Nested
pub mod Copy
pub mod Down
pub mod Up
pub mod Access
pub mod Capacity
pub mod Reserve
pub mod Grow
pub mod Push
pub mod Append
pub mod Shift
pub mod Erase
pub mod Insert
mod Tests
pub mod Transfer
pub mod View
use c_base.Base.{ℕ, Option}
use c_base.Allocator.{AllocatorVtable}
use c_base.Buffer.{Buffer}
use c_base.Policy.{Lifetime}

-- `DynArray` with its `DynArrayDescriptor`. The allocator is a pointer: its vtable, or null. The state
-- behind its handler is `heap` below, since other containers share it.
pub record DynArray (S W E : Type 0) : Type 0 where
  pub buffer : Option (Buffer E)
  pub size : ℕ
  pub capacity : ℕ
  pub elem_size : ℕ
  pub alignment : ℕ
  pub allocator : Option (AllocatorVtable S)
  pub elem_lifetime : Lifetime W E

-- An array, the state of the allocators, and the world of the elements.
pub record State (S W E : Type 0) : Type 0 where
  pub array : DynArray S W E
  pub heap : S
  pub world : W
