-- ===== src/Source.antt =====
-- The memory-source interface of include/base/foundation/memory/memory.h: a vtable of two functions
-- over a context, and the two calls that go through it. Its implementations, of
-- src/foundation/memory/memory.c, are child modules; `Ledger` is a source that records what it has
-- handed out.
pub mod Stats
pub mod Ledger
pub mod Library
pub mod Malloc
pub mod Cmalloc
pub mod Buffer
pub mod Tests
use c_base.Base.{ℕ, Option}
use c_base.Base.Run.{Run}

-- `MemorySourceVTable`, with the context as a state `M`. A null result is `none`.
pub record MemorySource (M : Type 0) : Type 0 where
  pub reserve : M → ℕ → ℕ → ℕ → Run (Option ℕ × M)
  pub release : M → ℕ → ℕ → Run M

module _ {M : Type 0} (source : MemorySource M) where
  abbrev pub memory_source_reserve : M → ℕ → ℕ → ℕ → Run (Option ℕ × M)
  memory_source_reserve ctx size alignment flags = source.reserve ctx size alignment flags

  abbrev pub memory_source_release : M → ℕ → ℕ → Run M
  memory_source_release ctx ptr size = source.release ctx ptr size

-- `MemorySource`: the address and the contents of its context, or `none` for `(MemorySource){0}`. The
-- vtable is the one of the module that makes the source.
pub record Handle (C : Type 0) : Type 0 where
  pub address : ℕ
  pub ctx : C
