-- ===== src/DynArray/Lifecycle.antt =====
-- Creation, destruction, copy and move of whole arrays, in dynarray.c.
use c_base.Base.{ℕ, List, [], Option, none, some, Bool, true, false, not, ◌==◌, if◌then◌else◌}
use c_base.Base.Run.{Run, ok, fault, Fault, ◌>>=◌}
use c_base.Allocator.{AllocatorVtable}
use c_base.Policy.{ElementPolicy, Lifetime, check_lifetime, is_some}
use c_base.Buffer.{Buffer}
use c_base.DynArray.{DynArray, State}
use c_base.DynArray.Edit.{dynarray_clear}
use c_base.DynArray.Store.{alloc_buffer, free_buffer, copy_cells, copy_loop}

module _ {S W E : Type 0} where
  -- `dynarray_reset_state`, and `(DynArray){0}`
  abbrev pub reset_array : DynArray S W E
  reset_array = record {
    buffer = none;
    size = 0;
    capacity = 0;
    elem_size = 0;
    alignment = 0;
    allocator = none;
    elem_lifetime = none;
  }

  unfoldable pub dynarray_destroy : State S W E → Run (State S W E)
  dynarray_destroy s = elim s.array.buffer [
    | none ↦ ok (record s { array = reset_array })
    | some b ↦ do
      s' ← dynarray_clear s
      heap ← free_buffer s'.array b s'.heap
      ok (record s' { array = reset_array; heap = heap })
  ]

  unfoldable pub dynarray_reset_destructive : State S W E → Run (State S W E)
  dynarray_reset_destructive s = do s' ← dynarray_clear s; ok (record s' { array = reset_array })

  -- `dest` and `src` are two objects; the state is `dest`'s, and the new `src` is beside it.
  unfoldable pub dynarray_move : DynArray S W E → State S W E → Run (DynArray S W E × State S W E)
  dynarray_move src s = do s' ← dynarray_destroy s; ok (reset_array, record s' { array = src })

module _ {E : Type 0} where
  -- the cells that a buffer points to; a null buffer has none
  abbrev pub cells_of : Option (Buffer E) → List E
  cells_of none = []
  cells_of (some b) = b.cells

module _ {W E : Type 0} where
  abbrev pub can_copy : Option (ElementPolicy W E) → Bool
  can_copy none = true
  can_copy (some policy) = is_some policy.copy

module _ {S W E : Type 0} where
  -- The elements of `src` into the cells of the new buffer; the source's policy has a `copy` here.
  abbrev pub copy_elems :
      Option (ElementPolicy W E) → DynArray S W E → List E → W → Run (List E × W)
  copy_elems none src cells w = do
    cells' ← copy_cells src.size 0 0 cells (cells_of src.buffer)
    ok (cells', w)
  copy_elems (some policy) src cells w = elim policy.copy [
    | none ↦ fault Fault.bad_pointer
    | some copy ↦ copy_loop copy src.size 0 cells (cells_of src.buffer) w
  ]

module _ {S W E : Type 0} (fresh : ℕ → ℕ → E) where
  unfoldable pub dynarray_create_complex :
      AllocatorVtable S → ℕ → ℕ → ℕ → Lifetime W E → S → Run (DynArray S W E × S)
  dynarray_create_complex allocator capacity elem_size alignment elem_lifetime heap =
      let made : DynArray S W E = record {
        buffer = none;
        size = 0;
        capacity = capacity;
        elem_size = elem_size;
        alignment = alignment;
        allocator = some allocator;
        elem_lifetime = elem_lifetime;
      } in
      if capacity == 0 then ok (made, heap) else do
        (buffer, heap') ← alloc_buffer fresh made capacity heap
        elim buffer [
          | none ↦ ok (reset_array, heap')
          | some b ↦ ok (record made { buffer = some b }, heap')
        ]

  unfoldable pub dynarray_create : AllocatorVtable S → ℕ → ℕ → ℕ → S → Run (DynArray S W E × S)
  dynarray_create allocator capacity elem_size alignment heap =
      dynarray_create_complex allocator capacity elem_size alignment none heap

  -- The state is `dest`'s, which is overwritten as it is.
  unfoldable pub dynarray_copy_walloc :
      DynArray S W E → AllocatorVtable S → State S W E → Run (Bool × State S W E)
  dynarray_copy_walloc src allocator s = do
    policy ← check_lifetime src.elem_lifetime
    if not (can_copy policy) then ok (false, s) else do
      (buffer, heap) ←
          alloc_buffer fresh (record src { allocator = some allocator }) src.capacity s.heap
      elim buffer [
        | none ↦ ok (false, record s { heap = heap })
        | some b ↦ do
          (cells, world) ← copy_elems policy src b.cells s.world
          ok (
            true,
            record {
              array = record src {
                buffer = some (record { address = b.address; cells = cells });
                allocator = some allocator;
              };
              heap = heap;
              world = world;
            },
          )
      ]

  unfoldable pub dynarray_copy : DynArray S W E → State S W E → Run (Bool × State S W E)
  dynarray_copy src s = elim src.allocator [
    | none ↦ fault Fault.bad_pointer
    | some allocator ↦ dynarray_copy_walloc src allocator s
  ]
