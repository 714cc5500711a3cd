-- ===== src/Lib.antt =====
-- A model of the c-base foundation library: its allocators and its containers.
--
-- The program. src/foundation/memory/ has three allocators, arena.c, stack.c and pool.c, behind one
-- interface, allocator.c; each gets its memory from a memory source, the interface in memory.c. The
-- containers in src/foundation/containers/, dynarray.c and hashmap.c, allocate their buffers through an
-- allocator and treat their elements by an element policy, container.h under
-- include/base/foundation/containers/.
--
-- How it is modelled. A call that C can leave undefined or that can stop is a `Run`: it returns `ok`, or a
-- `fault` that says how it stopped (a failed assertion, the UNREACHABLE macro, an access out of range, a
-- null pointer, division by zero, a loop that does not end). An object that the code changes is a record
-- that is passed in and returned. `usize` and `uptr` are natural numbers with the wrap-around at 2 ^ 64
-- written out; a memory address is a number. The target is a 64-bit one. The assertions are those of a
-- build with `assert`.
--
-- - Base, with its children: lists, runs, cells of arrays, words and bits.
-- - Align: `align_up`, `align_down` (memory.h) and the assertions on an alignment.
-- - Source: the memory-source interface and its statistics (memory.c). Source/Malloc has the sources over
--   malloc and mmap, Source/Cmalloc the one that aligns by hand, and Source/Buffer the one over a buffer of
--   the caller's, whose doubly linked list of blocks is a function of their addresses; its children say
--   which list of nodes the blocks make up, and what each operation makes of it. Source/Library is what
--   these sources call in the C library and the operating system, a parameter with its documented
--   behaviour as laws. Source/Ledger is a source for specifications, with scripted answers and a list of
--   the blocks that are reserved.
-- - Allocator: the vtable (allocator.h), and what a container asks of an allocator.
-- - Arena, Stack, Pool: the three allocators. The headers that the stack writes into its buffer are a
--   function of their addresses. The metadata buffer of the pool is a list of next pointers.
-- - Policy, Buffer: element policies and lifetimes (container.h) and the buffers of the containers. An
--   element is what the bytes of its slot hold; the functions of a policy act on slots and on a world of
--   whatever else the elements own, and may fault.
-- - DynArray: the dynamic array (dynarray.c, dynarray.h). Store has the loops that transfer elements,
--   Size, Edit, Lifecycle and Access the operations, Nested the policy for arrays as elements; the other
--   children have the proofs.
-- - HashMap: the hash map (hashmap.c, hashmap.h). Slots has what is done to one slot, Lookup, Modify,
--   Resize, Lifecycle, Copy and Access the operations, Nested the policy for maps as elements; the other
--   children have the proofs, and Model says what a map holds as a finite map.
--
-- Bounds and fuel. The growth loop of `dynarray_ensure_capacity` has 66 rounds of fuel: from any capacity
-- at most 64 doublings, and one step from 0, reach any capacity of up to 2 ^ 63; the doubling of 2 ^ 63
-- wraps to 0. The loop of `buffer_reserve` over the blocks has one round more than the buffer has bytes,
-- and each block has a header of 32 bytes. Every other loop counts down.
--
-- Not modelled: the iterator header, which nothing in the library implements, logging, the test framework,
-- tests, examples and build files.
pub mod Base
pub mod Align
pub mod Source
pub mod Allocator
pub mod Arena
pub mod Stack
pub mod Pool
pub mod Policy
pub mod Buffer
pub mod DynArray
pub mod HashMap
