-- ===== src/DynArray/Size.antt =====
-- The size operations of dynarray.c: `dynarray_ensure_capacity`, `dynarray_reserve`, `dynarray_resize`
-- and `dynarray_shrink_to_fit`. Each returns its result beside the new state.
use c_base.Base.{
  ℕ, zero, suc, ◌-◌, Option, none, some, Bool, true, false, not, ltb, leb, ◌==◌, if◌then◌else◌,
}
use c_base.Base.Run.{Run, ok, fault, Fault, ◌>>=◌}
use c_base.Base.Word.{mul_size}
use c_base.Policy.{ElementPolicy, check_lifetime, read_lifetime}
use c_base.Buffer.{Buffer}
use c_base.DynArray.{State}
use c_base.DynArray.Store.{alloc_buffer, free_buffer, each_loop, relocate, can_relocate}

-- `DYNARRAY_GROW_FACTOR`
abbrev pub grow_factor : ℕ
grow_factor = 2

-- one round of the loop of `dynarray_ensure_capacity`
abbrev pub next_capacity : ℕ → ℕ
next_capacity n = if n == 0 then 1 else mul_size grow_factor n

-- The loop, with fuel; 66 rounds are enough wherever it ends at all (`Capacity`).
unfoldable pub grow_loop : ℕ → ℕ → ℕ → Run ℕ
grow_loop zero new_capacity capacity = fault Fault.endless
grow_loop (suc fuel) new_capacity capacity =
    let rest = grow_loop fuel (next_capacity new_capacity) capacity in
    if ltb new_capacity capacity then rest else ok new_capacity

abbrev pub grow_fuel : ℕ
grow_fuel = 66

module _ {S W E : Type 0} (fresh : ℕ → ℕ → E) where
  -- the end of `dynarray_reserve` and of `dynarray_shrink_to_fit`, with the elements transferred
  unfoldable pub replace_buffer :
      Option (ElementPolicy W E) → Buffer E → Buffer E → ℕ → State S W E → Run (State S W E)
  replace_buffer policy old new capacity s = do
    (cells, world) ← relocate policy s.array.size new.cells old.cells s.world
    heap ← free_buffer s.array old s.heap
    ok (record {
      array = record (s.array) {
        buffer = some (record { address = new.address; cells = cells });
        capacity = capacity;
      };
      heap = heap;
      world = world;
    })

  -- `dynarray_reserve` from the allocation on
  unfoldable pub reserve_new :
      Option (ElementPolicy W E) → ℕ → State S W E → Run (Bool × State S W E)
  unfolding replace_buffer
  reserve_new policy capacity s = do
    (buffer, heap) ← alloc_buffer fresh s.array capacity s.heap
    elim buffer [
      | none ↦ ok (false, record s { heap = heap })
      | some b ↦ elim s.array.buffer [
        | none ↦ ok (
          true,
          record s {
            array = record (s.array) { buffer = some b; capacity = capacity };
            heap = heap;
          },
        )
        | some old ↦ do
          s' ← replace_buffer policy old b capacity (record s { heap = heap })
          ok (true, s')
      ]
    ]

  unfoldable pub dynarray_reserve : ℕ → State S W E → Run (Bool × State S W E)
  unfolding reserve_new
  dynarray_reserve capacity s = do
    policy ← check_lifetime s.array.elem_lifetime
    if leb capacity s.array.capacity
        then ok (true, s)
        else if not (can_relocate policy)
        then ok (false, s)
        else reserve_new policy capacity s

  unfoldable pub dynarray_ensure_capacity : ℕ → State S W E → Run (Bool × State S W E)
  unfolding grow_loop
  dynarray_ensure_capacity capacity s = do
    new_capacity ← grow_loop grow_fuel s.array.capacity capacity
    dynarray_reserve new_capacity s

  -- `dynarray_shrink_to_fit` from the allocation on
  unfoldable pub shrink_new : Option (ElementPolicy W E) → State S W E → Run (Bool × State S W E)
  unfolding replace_buffer
  shrink_new policy s = do
    (buffer, heap) ← alloc_buffer fresh s.array s.array.size s.heap
    elim buffer [
      | none ↦ ok (false, record s { heap = heap })
      | some b ↦ elim s.array.buffer [
        | none ↦ fault Fault.bad_pointer
        | some old ↦ do
          s' ← replace_buffer policy old b s.array.size (record s { heap = heap })
          ok (true, s')
      ]
    ]

  unfoldable pub dynarray_shrink_to_fit : State S W E → Run (Bool × State S W E)
  unfolding shrink_new
  dynarray_shrink_to_fit s =
      if s.array.size == s.array.capacity
      then ok (true, s)
      else if s.array.size == 0
      then elim s.array.buffer [
        | none ↦ fault Fault.bad_pointer
        | some old ↦ do
          heap ← free_buffer s.array old s.heap
          ok (
            true,
            record s { array = record (s.array) { buffer = none; capacity = 0 }; heap = heap },
          )
      ]
      else do policy ← read_lifetime s.array.elem_lifetime; shrink_new policy s

module _ {W E : Type 0} where
  abbrev pub dtor_of : Option (ElementPolicy W E) → Option (W → E → Run (E × W))
  dtor_of none = none
  dtor_of (some policy) = policy.dtor

  abbrev pub ctor_of : Option (ElementPolicy W E) → Option (W → E → Run (E × W))
  ctor_of none = none
  ctor_of (some policy) = policy.ctor

module _ {S W E : Type 0} where
  -- `f` on the `left` cells from `i` on, where `f` is a constructor or a destructor; nothing is
  -- called if there is none
  unfoldable pub each_cell : Option (W → E → Run (E × W)) → ℕ → ℕ → State S W E → Run (State S W E)
  each_cell none i left s = ok s
  each_cell (some f) i zero s = ok s
  each_cell (some f) i (suc left) s = elim s.array.buffer [
    | none ↦ fault Fault.bad_pointer
    | some b ↦ do
      (cells, world) ← each_loop f (suc left) i b.cells s.world
      ok (record s {
        array = record (s.array) { buffer = some (record { address = b.address; cells = cells }) };
        world = world;
      })
  ]

  unfoldable pub dynarray_resize : ℕ → State S W E → Run (Bool × State S W E)
  unfolding each_cell
  dynarray_resize size s =
      let old_size = s.array.size in
      let s' : State S W E = record s { array = record (s.array) { size = size } } in
      do
        policy ← check_lifetime s.array.elem_lifetime
        if size == old_size
            then ok (true, s)
            else if ltb s.array.capacity size
            then ok (false, s)
            else if ltb size old_size
            then (do t ← each_cell (dtor_of policy) size (old_size - size) s'; ok (true, t))
            else (do t ← each_cell (ctor_of policy) old_size (size - old_size) s'; ok (true, t))
