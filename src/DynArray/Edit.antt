-- ===== src/DynArray/Edit.antt =====
-- The modifiers of dynarray.c. An element that is passed by pointer is passed as the contents of the
-- caller's slot, and returned as they are afterwards, since `move` changes them; the slot is not one
-- of the array's own. `memcpy` and `memmove` go element by element.
use c_base.Base.{
  ℕ, ◌+◌, ◌-◌, List, [], ◌∷◌, none, some, Bool, true, false, not, ltb, leb, ◌==◌, if◌then◌else◌,
  length,
}
use c_base.Base.Cells.{load, store}
use c_base.Base.Run.{Run, ok, fault, Fault, assert, ◌>>=◌, ◌>>◌}
use c_base.Base.Word.{add_size}
use c_base.Policy.{ElementPolicy, check_lifetime, read_lifetime}
use c_base.Buffer.{Buffer}
use c_base.DynArray.{State}
use c_base.DynArray.Store.{
  copy_cells, can_relocate, move_up_loop, copy_up_loop, move_down_loop, copy_down_loop,
}
use c_base.DynArray.Size.{dynarray_ensure_capacity, each_cell, dtor_of}

module _ {S W E : Type 0} where
  -- the state with other cells in its buffer
  abbrev pub with_cells : State S W E → Buffer E → List E → State S W E
  with_cells s b cells = record s {
    array = record (s.array) { buffer = some (record { address = b.address; cells = cells }) };
  }

  abbrev pub with_size : State S W E → ℕ → State S W E
  with_size s n = record s { array = record (s.array) { size = n } }

  -- the buffer, where the code reads or writes through it
  abbrev pub deref : State S W E → Run (Buffer E)
  deref s = elim s.array.buffer [ none ↦ fault Fault.bad_pointer | some b ↦ ok b ]

  -- `move(ctx, buffer + i, &elem)`
  unfoldable pub move_in :
      (W → E → E → Run (E × E × W)) → ℕ → E → State S W E → Run (E × State S W E)
  move_in move i elem s = do
    b ← deref s
    d ← load b.cells i
    (d', elem', world) ← move s.world d elem
    cells ← store b.cells i d'
    ok (elem', record (with_cells s b cells) { world = world })

  -- `copy(ctx, buffer + i, &elem)`
  unfoldable pub copy_in : (W → E → E → Run (E × W)) → ℕ → E → State S W E → Run (State S W E)
  copy_in copy i elem s = do
    b ← deref s
    d ← load b.cells i
    (d', world) ← copy s.world d elem
    cells ← store b.cells i d'
    ok (record (with_cells s b cells) { world = world })

  -- `memcpy(buffer + i, &elem, elem_size)`
  pub write_in : ℕ → E → State S W E → Run (State S W E)
  write_in i elem s = do b ← deref s; cells ← store b.cells i elem; ok (with_cells s b cells)

  unfoldable pub dynarray_push_unchecked : E → State S W E → Run (Bool × E × State S W E)
  unfolding move_in copy_in write_in
  dynarray_push_unchecked elem s =
      let size = s.array.size in
      do
        lifetime ← read_lifetime s.array.elem_lifetime
        elim lifetime [
          | none ↦ do s' ← write_in size elem s; ok (true, elem, with_size s' (add_size size 1))
          | some policy ↦ elim policy.move [
            | some move ↦ do
              (elem', s') ← move_in move size elem s
              ok (true, elem', with_size s' (add_size size 1))
            | none ↦ elim policy.copy [
              | some copy ↦ do
                s' ← copy_in copy size elem s
                ok (true, elem, with_size s' (add_size size 1))
              | none ↦ ok (false, elem, s)
            ]
          ]
        ]

  -- the loop of `dynarray_append` over elements with a policy
  unfoldable pub push_all : List E → State S W E → Run (Bool × List E × State S W E)
  push_all [] s = ok (true, [], s)
  push_all (e ∷ es) s = do
    (done, e', s') ← dynarray_push_unchecked e s
    let rest = push_all es s'
    if done then (do (all, es', t) ← rest; ok (all, e' ∷ es', t)) else ok (false, e' ∷ es, s')

  -- the shift of `dynarray_insert` and the transfer of the element into the gap, with a policy
  unfoldable pub insert_with : ElementPolicy W E → ℕ → E → State S W E → Run (E × State S W E)
  unfolding move_in copy_in
  insert_with policy index elem s =
      let size = s.array.size in
      do
        b ← deref s
        elim policy.move [
          | some move ↦ do
            (cells, world) ← move_up_loop move (size - index) size b.cells s.world
            move_in move index elem (record (with_cells s b cells) { world = world })
          | none ↦ elim policy.copy [
            | none ↦ fault Fault.bad_pointer
            | some copy ↦ do
              (cells, world) ← copy_up_loop copy (size - index) size b.cells s.world
              s' ← each_cell policy.dtor index 1 (record (with_cells s b cells) { world = world })
              t ← copy_in copy index elem s'
              ok (elem, t)
          ]
        ]

  -- the shift of `dynarray_remove`, with a policy, after the destructor of the element
  unfoldable pub remove_with : ElementPolicy W E → ℕ → State S W E → Run (State S W E)
  remove_with policy index s =
      let size = s.array.size in
      do
        b ← deref s
        elim policy.move [
          | some move ↦ do
            (cells, world) ← move_down_loop move (size - index - 1) (index + 1) b.cells s.world
            ok (record (with_cells s b cells) { world = world })
          | none ↦ elim policy.copy [
            | none ↦ fault Fault.bad_pointer
            | some copy ↦ do
              (cells, world) ← copy_down_loop copy (size - index - 1) (index + 1) b.cells s.world
              each_cell policy.dtor (size - 1) 1 (record (with_cells s b cells) { world = world })
          ]
        ]

  unfoldable pub dynarray_remove : ℕ → State S W E → Run (Bool × State S W E)
  unfolding remove_with
  dynarray_remove index s =
      let size = s.array.size in
      do
        assert (ltb index size)
        lifetime ← check_lifetime s.array.elem_lifetime
        elim lifetime [
          | none ↦ do
            b ← deref s
            cells ← copy_cells (size - index - 1) index (index + 1) b.cells b.cells
            ok (true, with_size (with_cells s b cells) (size - 1))
          | some policy ↦ if not (can_relocate (some policy)) then ok (false, s) else do
            s' ← each_cell policy.dtor index 1 s
            t ← remove_with policy index s'
            ok (true, with_size t (size - 1))
        ]

  unfoldable pub dynarray_pop : State S W E → Run (State S W E)
  dynarray_pop s = do
    policy ← check_lifetime s.array.elem_lifetime
    if s.array.size == 0 then ok s else do
      s' ← each_cell (dtor_of policy) (s.array.size - 1) 1 s
      ok (with_size s' (s.array.size - 1))

  unfoldable pub dynarray_clear : State S W E → Run (State S W E)
  dynarray_clear s = do
    policy ← check_lifetime s.array.elem_lifetime
    s' ← each_cell (dtor_of policy) 0 s.array.size s
    ok (with_size s' 0)

  unfoldable pub dynarray_at : ℕ → State S W E → Run E
  dynarray_at index s = do assert (ltb index s.array.size); b ← deref s; load b.cells index

module _ {S W E : Type 0} (fresh : ℕ → ℕ → E) where
  unfoldable pub dynarray_push : E → State S W E → Run (Bool × E × State S W E)
  dynarray_push elem s = do
    policy ← check_lifetime s.array.elem_lifetime
    (room, s') ← dynarray_ensure_capacity fresh (add_size s.array.size 1) s
    if room then dynarray_push_unchecked elem s' else ok (false, elem, s')

  unfoldable pub dynarray_append : List E → State S W E → Run (Bool × List E × State S W E)
  unfolding push_all
  dynarray_append elems s =
      let count = length elems in
      do
        policy ← check_lifetime s.array.elem_lifetime
        if count == 0 then ok (true, elems, s) else do
          (room, s') ← dynarray_ensure_capacity fresh (add_size s.array.size count) s
          if not room then ok (false, elems, s') else elim policy [
            | some _ ↦ push_all elems s'
            | none ↦ do
              b ← deref s'
              cells ← copy_cells count s'.array.size 0 b.cells elems
              ok (true, elems, with_size (with_cells s' b cells) (add_size s'.array.size count))
          ]

  unfoldable pub dynarray_insert : ℕ → E → State S W E → Run (Bool × E × State S W E)
  unfolding insert_with
  dynarray_insert index elem s = do
    assert (leb index s.array.size)
    lifetime ← check_lifetime s.array.elem_lifetime
    (room, s') ← dynarray_ensure_capacity fresh (add_size s.array.size 1) s
    let size = s'.array.size
    if not room then ok (false, elem, s') else elim lifetime [
      | none ↦ do
        b ← deref s'
        moved ← copy_cells (size - index) (index + 1) index b.cells b.cells
        cells ← store moved index elem
        ok (true, elem, with_size (with_cells s' b cells) (add_size size 1))
      | some policy ↦ if not (can_relocate (some policy)) then ok (false, elem, s') else do
        (elem', t) ← insert_with policy index elem s'
        ok (true, elem', with_size t (add_size size 1))
    ]
