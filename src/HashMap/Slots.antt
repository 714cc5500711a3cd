-- ===== src/HashMap/Slots.antt =====
-- The contents of the three buffers, and what is done to one slot: the accessors of hashmap.c,
-- `hashmap_insert_at_location`, `hashmap_insert_at_slot` and `hashmap_remove_at_slot`.
use c_base.Base.{ℕ, ◌-◌, ◌^◌, List, [], Option, none, some, Bool, true, false, ◌||◌, ◌&&◌}
use c_base.Base.Cells.{load, store}
use c_base.Base.Run.{Run, ok, fault, Fault, assert, ◌>>=◌, ◌>>◌}
use c_base.Base.Word.{add_size, sub_size}
use c_base.Buffer.{Buffer}
use c_base.HashMap.{SlotState, State, Memory}
use c_base.Policy.{ElementPolicy, Lifetime, check_lifetime, read_lifetime, is_some}

abbrev pub invalid_index : ℕ
invalid_index = 2 ^ 64 - 1

-- the cells behind a buffer that the code reads or writes through; a null buffer has none
abbrev pub cells_of {ℓ} : {A : Type ℓ} → Option (Buffer A) → List A
cells_of none = []
cells_of (some b) = b.cells

-- the buffer with other cells
abbrev pub with_cells {ℓ} : {A : Type ℓ} → Option (Buffer A) → List A → Option (Buffer A)
with_cells none cells = none
with_cells (some b) cells = some (record b { cells = cells })

-- the three arrays, slot by slot, and the world
pub record Table (W K E : Type 0) : Type 0 where
  pub elems : List E
  pub keys : List K
  pub states : List SlotState
  pub world : W

module _ {W K : Type 0} where
  -- a call of `hash` through the lifetime of the keys
  unfoldable pub call_hash : Lifetime W K → W → K → Run ℕ
  call_hash lifetime world key = do
    policy ← read_lifetime lifetime
    elim policy [
      | none ↦ fault Fault.bad_pointer
      | some p ↦ elim p.hash [ none ↦ fault Fault.bad_pointer | some hash ↦ hash world key ]
    ]

  -- a call of `equals` through the lifetime of the keys
  unfoldable pub call_equals : Lifetime W K → W → K → K → Run Bool
  call_equals lifetime world key other = do
    policy ← read_lifetime lifetime
    elim policy [
      | none ↦ fault Fault.bad_pointer
      | some p ↦ elim p.equals [
        | none ↦ fault Fault.bad_pointer
        | some equals ↦ equals world key other
      ]
    ]

  abbrev pub policy_ok : (ElementPolicy W K → Bool) → Lifetime W K → Bool
  policy_ok test none = false
  policy_ok test (some lifetime) = elim lifetime.policy [ none ↦ false | some p ↦ test p ]

  -- `assert(key_lifetime && key_lifetime->policy)` and that `hash` and `equals` are there
  abbrev pub check_key : Lifetime W K → Run (Unit {0})
  check_key lifetime = assert (policy_ok (λ p. is_some p.hash && is_some p.equals) lifetime)

  -- `assert(key_lifetime && key_lifetime->policy && key_lifetime->policy->hash)`
  abbrev pub check_key_hash : Lifetime W K → Run (Unit {0})
  check_key_hash lifetime = assert (policy_ok (λ p. is_some p.hash) lifetime)

  -- One half of `hashmap_insert_at_location`: `src` into `dest`, moved if that is forced and there is
  -- a `move`, or else copied if there is a `copy`, or else as bytes. The new `dest` and `src`.
  unfoldable pub transfer : Bool → Option (ElementPolicy W K) → W → K → K → Run (K × K × W)
  transfer force_move none world dest src = ok (src, src, world)
  transfer true (some policy) world dest src = elim policy.move [
    | some move ↦ move world dest src
    | none ↦ elim policy.copy [
      | some copy ↦ do (dest', w) ← copy world dest src; ok (dest', src, w)
      | none ↦ ok (src, src, world)
    ]
  ]
  transfer false (some policy) world dest src = elim policy.copy [
    | some copy ↦ do (dest', w) ← copy world dest src; ok (dest', src, w)
    | none ↦ ok (src, src, world)
  ]

  -- `memset(slot, 0, size)` if there is no destructor, or else its call
  unfoldable pub wipe : Option (ElementPolicy W K) → K → W → K → Run (K × W)
  wipe none zero_value world slot = ok (zero_value, world)
  wipe (some policy) zero_value world slot = elim policy.dtor [
    | none ↦ ok (zero_value, world)
    | some dtor ↦ dtor world slot
  ]

module _ {W E : Type 0} where
  abbrev pub can_transfer : Option (ElementPolicy W E) → Bool
  can_transfer none = true
  can_transfer (some policy) = is_some policy.move || is_some policy.copy

module _ {W K E : Type 0} where
  -- `hashmap_insert_at_location` for slot `index`: the new table, and the caller's key and element
  unfoldable pub hashmap_insert_at_location :
      Lifetime W K → Lifetime W E → ℕ → K → E → Bool → Table W K E → Run (K × E × Table W K E)
  hashmap_insert_at_location key_lifetime elem_lifetime index key elem force_move t = do
    key_policy ← read_lifetime key_lifetime
    elem_policy ← read_lifetime elem_lifetime
    dest_key ← load t.keys index
    (key₁, key₂, world₁) ← transfer force_move key_policy t.world dest_key key
    keys ← store t.keys index key₁
    dest_elem ← load t.elems index
    (elem₁, elem₂, world₂) ← transfer force_move elem_policy world₁ dest_elem elem
    elems ← store t.elems index elem₁
    ok (key₂, elem₂, record { elems = elems; keys = keys; states = t.states; world = world₂ })

module _ {S W K E : Type 0} where
  abbrev pub table_of : State S W K E → Table W K E
  table_of s = record {
    elems = cells_of s.map.buffer;
    keys = cells_of s.map.keys_buffer;
    states = cells_of s.map.meta_buffer;
    world = s.world;
  }

  -- the state with its buffers as the table has them
  abbrev pub with_table : State S W K E → Table W K E → State S W K E
  with_table s t = record s {
    map = record (s.map) {
      buffer = with_cells s.map.buffer t.elems;
      keys_buffer = with_cells s.map.keys_buffer t.keys;
      meta_buffer = with_cells s.map.meta_buffer t.states;
    };
    world = t.world;
  }

  abbrev pub with_count : State S W K E → ℕ → State S W K E
  with_count s n = record s { map = record (s.map) { elem_count = n } }

  unfoldable pub hashmap_insert_at_slot :
      ℕ → K → E → Bool → State S W K E → Run (K × E × State S W K E)
  hashmap_insert_at_slot index key elem force_move s = do
    assert (is_some s.map.key_lifetime)
    elem_policy ← read_lifetime s.map.elem_lifetime
    assert (can_transfer elem_policy)
    (key', elem', t) ←
        hashmap_insert_at_location s.map.key_lifetime s.map.elem_lifetime index key elem force_move
          (table_of s)
    states ← store t.states index SlotState.occupied
    ok (
      key',
      elem',
      with_count (with_table s (record t { states = states })) (add_size s.map.elem_count 1),
    )

  unfoldable pub hashmap_remove_at_slot : Memory K E → ℕ → State S W K E → Run (State S W K E)
  hashmap_remove_at_slot memory index s =
      let t = table_of s in
      do
        assert (is_some s.map.key_lifetime)
        elem_policy ← check_lifetime s.map.elem_lifetime
        key_policy ← read_lifetime s.map.key_lifetime
        key ← load t.keys index
        (key', world₁) ← wipe key_policy memory.zero_key t.world key
        keys ← store t.keys index key'
        elem ← load t.elems index
        (elem', world₂) ← wipe elem_policy memory.zero_elem world₁ elem
        elems ← store t.elems index elem'
        states ← store t.states index SlotState.tombstone
        ok (
            with_count
              (with_table s
                (record { elems = elems; keys = keys; states = states; world = world₂ }))
              (sub_size s.map.elem_count 1))
