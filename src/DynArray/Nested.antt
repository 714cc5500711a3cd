-- ===== src/DynArray/Nested.antt =====
-- Arrays as the elements of a container: the functions of DYNARRAY_ELEMENT_POLICY in dynarray.c. The
-- world of the container has the state of the allocators and the world of the array's own elements. The
-- `ctx` is the descriptor of the arrays to make; most of the functions are not implemented.
use c_base.Base.{ℕ, Option, none, some, Bool, ◌==◌, if◌then◌else◌}
use c_base.Base.Run.{Run, ok, fault, Fault, ◌>>=◌}
use c_base.DynArray.{DynArray}
use c_base.DynArray.Lifecycle.{dynarray_create_complex, dynarray_destroy}
use c_base.Policy.{ElementPolicy}

module _ {S W E : Type 0} (fresh : ℕ → ℕ → E) where
  unfoldable pub dynarray_policy_ctor :
      Option (DynArray S W E) → S × W → DynArray S W E → Run (DynArray S W E × (S × W))
  dynarray_policy_ctor none (heap, world) elem = ok (elem, (heap, world))
  dynarray_policy_ctor (some ctx) (heap, world) elem = elim ctx.allocator [
    | none ↦
        if ctx.capacity == 0
        then ok (record ctx { buffer = none; size = 0 }, (heap, world))
        else fault Fault.bad_pointer
    | some allocator ↦ do
      (d, heap') ←
          dynarray_create_complex fresh allocator ctx.capacity ctx.elem_size ctx.alignment
            ctx.elem_lifetime heap
      ok (d, (heap', world))
  ]

module _ {S W E : Type 0} where
  unfoldable pub dynarray_policy_dtor : S × W → DynArray S W E → Run (DynArray S W E × (S × W))
  dynarray_policy_dtor (heap, world) elem = do
    s ← dynarray_destroy (record { array = elem; heap = heap; world = world })
    ok (s.array, (s.heap, s.world))

  abbrev pub dynarray_policy_copy :
      S × W → DynArray S W E → DynArray S W E → Run (DynArray S W E × (S × W))
  dynarray_policy_copy world dest src = fault Fault.todo

  abbrev pub dynarray_policy_move :
      S × W → DynArray S W E → DynArray S W E → Run (DynArray S W E × DynArray S W E × (S × W))
  dynarray_policy_move world dest src = fault Fault.todo

  abbrev pub dynarray_policy_equals : S × W → DynArray S W E → DynArray S W E → Run Bool
  dynarray_policy_equals world elem other = fault Fault.todo

  abbrev pub dynarray_policy_hash : S × W → DynArray S W E → Run ℕ
  dynarray_policy_hash world object = fault Fault.todo

module _ {S W E : Type 0} (fresh : ℕ → ℕ → E) where
  -- `DYNARRAY_ELEMENT_POLICY` with a `ctx`
  abbrev pub dynarray_element_policy :
      Option (DynArray S W E) → ElementPolicy (S × W) (DynArray S W E)
  dynarray_element_policy ctx = record {
    ctor = some (dynarray_policy_ctor fresh ctx);
    dtor = some dynarray_policy_dtor;
    copy = some dynarray_policy_copy;
    move = some dynarray_policy_move;
    equals = some dynarray_policy_equals;
    compare = none;
    hash = some dynarray_policy_hash;
  }
