-- ===== src/HashMap/Resize.antt =====
-- `hashmap_grow` and `hashmap_rehash`. The old buffers are read, moved from and destroyed slot by slot,
-- and then left as they are: the code does not free them.
use c_base.Base.{
  ℕ, zero, suc, ◌+◌, ◌%◌, List, Option, none, some, Bool, true, false, ltb, ◌==◌, if◌then◌else◌,
  replicate,
}
use c_base.Base.Cells.{load, store}
use c_base.Base.Run.{Run, ok, fault, Fault, ◌>>=◌}
use c_base.Base.Word.{mul_size}
use c_base.Buffer.{Buffer, alloc_cells, free_cells}
use c_base.HashMap.{SlotState, HashMap, State, Memory}
use c_base.HashMap.Lookup.{hashmap_freestanding_hash}
use c_base.HashMap.Slots.{Table, table_of, hashmap_insert_at_location, invalid_index}
use c_base.Policy.{ElementPolicy, read_lifetime}

-- `HASHMAP_GROW_FACTOR`
abbrev pub grow_factor : ℕ
grow_factor = 2

-- The probe of `hashmap_rehash`: the first slot from `index` on that is not occupied. A tombstone
-- cannot be there; when every slot is occupied the loop ends and the entry is lost (`none`).
unfoldable pub rehash_probe : ℕ → ℕ → List SlotState → ℕ → Run (Option ℕ)
rehash_probe capacity zero states index = ok none
rehash_probe capacity (suc left) states index = do
  state ← load states index
  elim state [
    | SlotState.empty ↦ ok (some index)
    | SlotState.occupied ↦ rehash_probe capacity left states ((index + 1) % capacity)
    | SlotState.tombstone ↦ fault Fault.unreachable
  ]

-- `if(policy->dtor) policy->dtor(ctx, slot)`
abbrev pub destroy_slot : {W A : Type 0} → Option (ElementPolicy W A) → W → A → Run (A × W)
destroy_slot none world slot = ok (slot, world)
destroy_slot (some policy) world slot = elim policy.dtor [
  | none ↦ ok (slot, world)
  | some dtor ↦ dtor world slot
]

module _ {W K E : Type 0} where
  -- The loop that constructs the elements of the slots that are not occupied, and calls `ctor` of a
  -- policy without a test.
  pub construct_loop : Option (ElementPolicy W E) → ℕ → ℕ → Table W K E → Run (Table W K E)
  construct_loop policy zero i t = ok t
  construct_loop policy (suc left) i t = do
    state ← load t.states i
    t' ← elim state [
      | SlotState.occupied ↦ ok t
      | _ ↦ do
        (elems, world) ← elim policy [
          | none ↦ ok (t.elems, t.world)
          | some p ↦ elim p.ctor [
            | none ↦ fault Fault.bad_pointer
            | some ctor ↦ do
              slot ← load t.elems i
              (slot', world) ← ctor t.world slot
              elems ← store t.elems i slot'
              ok (elems, world)
          ]
        ]
        states ← store t.states i SlotState.empty
        ok (record { elems = elems; keys = t.keys; states = states; world = world })
    ]
    construct_loop policy left (i + 1) t'

module _ {S W K E : Type 0} where
  -- one occupied slot of the source into the new table
  pub rehash_entry : State S W K E → ℕ → K → E → Table W K E → Run (Table W K E)
  unfolding rehash_probe
  rehash_entry s capacity key elem t = do
    index ← hashmap_freestanding_hash (record s { world = t.world }) key capacity
    slot ← rehash_probe capacity capacity t.states index
    elim slot [
      | none ↦ ok t
      | some i ↦ do
        (key', elem', t') ←
            hashmap_insert_at_location s.map.key_lifetime s.map.elem_lifetime i key elem true t
        key_policy ← read_lifetime s.map.key_lifetime
        elem_policy ← read_lifetime s.map.elem_lifetime
        (_, world₁) ← destroy_slot key_policy t'.world key'
        (_, world₂) ← destroy_slot elem_policy world₁ elem'
        states ← store t'.states i SlotState.occupied
        ok (record t' { states = states; world = world₂ })
    ]

  -- the loop over the slots of the source, from slot `i` on
  pub rehash_loop : State S W K E → ℕ → ℕ → ℕ → Table W K E → Run (Table W K E)
  unfolding rehash_entry
  rehash_loop s capacity zero i t = ok t
  rehash_loop s capacity (suc left) i t = do
    state ← load (table_of s).states i
    t' ← elim state [
      | SlotState.occupied ↦ do
        key ← load (table_of s).keys i
        elem ← load (table_of s).elems i
        rehash_entry s capacity key elem t
      | _ ↦ ok t
    ]
    rehash_loop s capacity left (i + 1) t'

  unfoldable pub hashmap_rehash : State S W K E → ℕ → Table W K E → Run (Table W K E)
  unfolding rehash_loop construct_loop
  hashmap_rehash s capacity t = do
    t' ←
        rehash_loop s capacity s.map.capacity 0
          (record t { states = replicate capacity SlotState.empty })
    elem_policy ← read_lifetime s.map.elem_lifetime
    construct_loop elem_policy capacity 0 t'

abbrev pub ThreeBuffers : Type 0 → Type 0 → Type 0
ThreeBuffers K E = Option (Buffer E × Buffer K × Buffer SlotState)

module _ {S W K E : Type 0} (memory : Memory K E) where
  -- the three allocations, each of them undone if a later one fails
  pub alloc_three : HashMap S W K E → ℕ → S → Run (ThreeBuffers K E × S)
  alloc_three m capacity heap = do
    (buffer, heap₁) ←
        alloc_cells memory.fresh_elem m.allocator m.elem_size capacity m.elem_alignment heap
    elim buffer [
      | none ↦ ok (none, heap₁)
      | some b ↦ do
        (keys, heap₂) ←
            alloc_cells memory.fresh_key m.allocator m.key_size capacity m.key_alignment heap₁
        elim keys [
          | none ↦ do heap₃ ← free_cells m.allocator b heap₂; ok (none, heap₃)
          | some k ↦ do
            (meta, heap₃) ← alloc_cells memory.fresh_state m.allocator 1 capacity 1 heap₂
            elim meta [
              | none ↦ do
                heap₄ ← free_cells m.allocator k heap₃
                heap₅ ← free_cells m.allocator b heap₄
                ok (none, heap₅)
              | some st ↦ ok (some (b, k, st), heap₃)
            ]
        ]
    ]

  -- `hashmap_grow` from the allocations on
  pub grow_to : ℕ → State S W K E → Run (Bool × State S W K E)
  unfolding alloc_three
  grow_to capacity s = do
    (buffers, heap) ← alloc_three s.map capacity s.heap
    elim buffers [
      | none ↦ ok (false, record s { heap = heap })
      | some (b, k, st) ↦ do
        t ←
            hashmap_rehash s capacity
              (record { elems = b.cells; keys = k.cells; states = st.cells; world = s.world })
        ok (
          true,
          record {
            map = record (s.map) {
              buffer = some (record b { cells = t.elems });
              keys_buffer = some (record k { cells = t.keys });
              meta_buffer = some (record st { cells = t.states });
              capacity = capacity;
            };
            heap = heap;
            world = t.world;
          },
        )
    ]

  unfoldable pub hashmap_grow : ℕ → State S W K E → Run (Bool × State S W K E)
  unfolding grow_to
  hashmap_grow new_capacity s =
      let capacity = s.map.capacity in
      if ltb new_capacity capacity
      then ok (false, s)
      else if new_capacity == capacity
      then ok (true, s)
      else if new_capacity == invalid_index
      then grow_to (if capacity == 0 then 1 else mul_size capacity grow_factor) s
      else grow_to new_capacity s
