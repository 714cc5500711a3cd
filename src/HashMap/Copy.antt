-- ===== src/HashMap/Copy.antt =====
-- The copy of whole maps in hashmap.c: `hashmap_relocate_buffers`, `hashmap_copy_walloc` and
-- `hashmap_copy`. `dest` and `src` are two objects; the state is `dest`'s, which is overwritten as it is,
-- and the new `src` is beside it.
use c_base.Base.{ℕ, List, Option, none, some, Bool, true, false, not, if◌then◌else◌}
use c_base.Base.Run.{Run, ok, fault, Fault, assert, ◌>>=◌, ◌>>◌}
use c_base.Allocator.{AllocatorVtable}
use c_base.DynArray.Lifecycle.{can_copy}
use c_base.DynArray.Store.{copy_cells, move_loop, copy_loop}
use c_base.HashMap.{HashMap, State, Memory}
use c_base.HashMap.Resize.{alloc_three}
use c_base.HashMap.Slots.{Table, cells_of, with_cells, check_key_hash, can_transfer}
use c_base.Policy.{ElementPolicy, check_lifetime, read_lifetime}

module _ {W A : Type 0} where
  -- the keys, each by `copy` or all as bytes
  abbrev pub relocate_keys : Option (ElementPolicy W A) → ℕ → List A → List A → W → Run (List A × W)
  relocate_keys none capacity dest src world = fault Fault.bad_pointer
  relocate_keys (some policy) capacity dest src world = elim policy.copy [
    | some copy ↦ copy_loop copy capacity 0 dest src world
    | none ↦ do dest' ← copy_cells capacity 0 0 dest src; ok (dest', world)
  ]

  -- the elements, as bytes without a policy, or else each by `move` if there is one, or else by `copy`:
  -- the new cells of `dest` and of `src`
  abbrev pub relocate_elems :
      Option (ElementPolicy W A) → ℕ → List A → List A → W → Run (List A × List A × W)
  relocate_elems none capacity dest src world = do
    dest' ← copy_cells capacity 0 0 dest src
    ok (dest', src, world)
  relocate_elems (some policy) capacity dest src world = elim policy.move [
    | some move ↦ move_loop move capacity 0 dest src world
    | none ↦ elim policy.copy [
      | none ↦ fault Fault.bad_pointer
      | some copy ↦ do
        (dest', world') ← copy_loop copy capacity 0 dest src world
        ok (dest', src, world')
    ]
  ]

module _ {S W K E : Type 0} where
  -- `dest` and `src` are what the six buffers hold; the new `dest`, and the new elements of `src`.
  unfoldable pub hashmap_relocate_buffers :
      HashMap S W K E → Table W K E → Table W K E → ℕ → Run (Table W K E × List E)
  hashmap_relocate_buffers hashmap dest src capacity = do
    check_key_hash hashmap.key_lifetime
    elem_policy ← read_lifetime hashmap.elem_lifetime
    assert (can_transfer elem_policy)
    key_policy ← read_lifetime hashmap.key_lifetime
    (keys, world₁) ← relocate_keys key_policy capacity dest.keys src.keys dest.world
    (elems, src_elems, world₂) ← relocate_elems elem_policy capacity dest.elems src.elems world₁
    states ← copy_cells capacity 0 0 dest.states src.states
    ok (record { elems = elems; keys = keys; states = states; world = world₂ }, src_elems)

  -- what the buffers of a map hold
  abbrev pub held : HashMap S W K E → W → Table W K E
  held m world = record {
    elems = cells_of m.buffer;
    keys = cells_of m.keys_buffer;
    states = cells_of m.meta_buffer;
    world = world;
  }

module _ {S W K E : Type 0} (memory : Memory K E) where
  unfoldable pub hashmap_copy_walloc :
      HashMap S W K E
      → Option (AllocatorVtable S)
      → State S W K E
      → Run (Bool × HashMap S W K E × State S W K E)
  unfolding hashmap_relocate_buffers
  hashmap_copy_walloc src allocator s = do
    elem_policy ← check_lifetime src.elem_lifetime
    if not (can_copy elem_policy) then ok (false, src, s) else do
      (buffers, heap) ←
          alloc_three memory (record src { allocator = allocator }) src.capacity s.heap
      elim buffers [
        | none ↦ ok (false, src, record s { heap = heap })
        | some (b, k, st) ↦ do
          (t, src_elems) ←
              hashmap_relocate_buffers src
                (record { elems = b.cells; keys = k.cells; states = st.cells; world = s.world })
                (held src s.world) src.capacity
          ok (
            true,
            record src { buffer = with_cells src.buffer src_elems },
            record {
              map = record src {
                buffer = some (record b { cells = t.elems });
                keys_buffer = some (record k { cells = t.keys });
                meta_buffer = some (record st { cells = t.states });
                allocator = allocator;
              };
              heap = heap;
              world = t.world;
            },
          )
      ]

  unfoldable pub hashmap_copy :
      HashMap S W K E → State S W K E → Run (Bool × HashMap S W K E × State S W K E)
  hashmap_copy src s = hashmap_copy_walloc src src.allocator s
