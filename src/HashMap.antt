-- ===== src/HashMap.antt =====
-- src/foundation/containers/hashmap.c and include/base/foundation/containers/hashmap.h: the hash map
-- with open addressing. Offsets into the three buffers are indices into their cells.
pub mod Slots
pub mod Lookup
pub mod Probe
pub mod Search
pub mod Entries
pub mod Wipe
pub mod Remove
pub mod Tests
mod ModelTests
pub mod Landing
pub mod Store
pub mod Insert
pub mod Model
pub mod Put
pub mod Erase
pub mod Modify
pub mod Resize
pub mod Lifecycle
pub mod Nested
pub mod Access
pub mod Copy
use c_base.Base.{ℕ, Option}
use c_base.Allocator.{AllocatorVtable}
use c_base.Buffer.{Buffer}
use c_base.Policy.{Lifetime}

-- `HashMapSlotState`
pub data SlotState : Type 0 where
  empty occupied tombstone : SlotState

-- `HashMapHashStrategy`
pub data HashStrategy : Type 0 where
  recompute : HashStrategy

-- `HashMap` with its `HashMapDescriptor`. The allocator is a pointer: its vtable, or null. The state
-- behind its handler is `heap` below.
pub record HashMap (S W K E : Type 0) : Type 0 where
  pub buffer : Option (Buffer E)
  pub keys_buffer : Option (Buffer K)
  pub meta_buffer : Option (Buffer SlotState)
  pub elem_count : ℕ
  pub capacity : ℕ
  pub key_size : ℕ
  pub elem_size : ℕ
  pub key_alignment : ℕ
  pub elem_alignment : ℕ
  pub allocator : Option (AllocatorVtable S)
  pub key_lifetime : Lifetime W K
  pub elem_lifetime : Lifetime W E
  pub hash_strategy : HashStrategy

-- A map, the state of the allocators, and the world of the keys and elements.
pub record State (S W K E : Type 0) : Type 0 where
  pub map : HashMap S W K E
  pub heap : S
  pub world : W

-- What memory holds: in a slot of each kind that has just been allocated, and in one whose bytes
-- have all been set to 0.
pub record Memory (K E : Type 0) : Type 0 where
  pub fresh_elem : ℕ → ℕ → E
  pub fresh_key : ℕ → ℕ → K
  pub fresh_state : ℕ → ℕ → SlotState
  pub zero_elem : E
  pub zero_key : K
