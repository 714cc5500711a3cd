-- ===== src/DynArray/Access.antt =====
-- The sizes and the element accesses that dynarray.h defines. A pointer to an element is what its cell
-- holds; the versions for a `const` array compute the same.
use c_base.Base.{ℕ, ◌-◌, Option, Bool, ltb, ◌==◌}
use c_base.Base.Cells.{load}
use c_base.Base.Run.{Run, assert, ◌>>=◌, ◌>>◌}
use c_base.Buffer.{Buffer}
use c_base.DynArray.{State}
use c_base.DynArray.Edit.{deref, dynarray_at}

module _ {S W E : Type 0} where
  abbrev pub dynarray_size : State S W E → ℕ
  dynarray_size s = s.array.size

  abbrev pub dynarray_capacity : State S W E → ℕ
  dynarray_capacity s = s.array.capacity

  abbrev pub dynarray_empty : State S W E → Bool
  dynarray_empty s = s.array.size == 0

  unfoldable pub dynarray_at_const : ℕ → State S W E → Run E
  dynarray_at_const index s = dynarray_at index s

  unfoldable pub dynarray_front : State S W E → Run E
  dynarray_front s = do assert (ltb 0 s.array.size); b ← deref s; load b.cells 0

  unfoldable pub dynarray_back : State S W E → Run E
  dynarray_back s = do assert (ltb 0 s.array.size); b ← deref s; load b.cells (s.array.size - 1)

  abbrev pub dynarray_data : State S W E → Option (Buffer E)
  dynarray_data s = s.array.buffer
