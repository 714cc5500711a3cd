-- ===== src/HashMap/Lookup.antt =====
-- The lookups of hashmap.c. `hashmap_has`, `hashmap_at` and `hashmap_remove` walk the slots by the
-- same loop: `find_loop`, which returns the index at which they stop with a match, and `none` where
-- they stop at an empty slot.
use c_base.Base.{ℕ, zero, suc, ◌+◌, ◌%◌, Option, none, some, Bool, true, false, not, if◌then◌else◌}
use c_base.Base.Cells.{load, mod_size}
use c_base.Base.Run.{Run, ok, fault, Fault, ◌>>=◌, ◌>>◌}
use c_base.HashMap.{SlotState, State}
use c_base.HashMap.Slots.{Table, table_of, call_hash, call_equals, check_key_hash}
use c_base.Policy.{Lifetime, check_lifetime, is_some}

module _ {S W K E : Type 0} where
  -- `hashmap_freestanding_hash`
  unfoldable pub hashmap_freestanding_hash : State S W K E → K → ℕ → Run ℕ
  hashmap_freestanding_hash s key capacity = do
    h ← call_hash s.map.key_lifetime s.world key
    mod_size h capacity

  unfoldable pub hashmap_hash : State S W K E → K → Run ℕ
  hashmap_hash s key = hashmap_freestanding_hash s key s.map.capacity

module _ {W K E : Type 0} (lifetime : Lifetime W K) (capacity : ℕ) (key : K) (t : Table W K E) where
  -- `left` probes to go, at slot `index`
  unfoldable pub find_loop : ℕ → ℕ → Run (Option ℕ)
  find_loop zero index = fault Fault.unreachable
  find_loop (suc left) index = do
    state ← load t.states index
    elim state [
      | SlotState.empty ↦ ok none
      | SlotState.tombstone ↦ find_loop left ((index + 1) % capacity)
      | SlotState.occupied ↦ do
        other ← load t.keys index
        same ← call_equals lifetime t.world key other
        elim same [ true ↦ ok (some index) | false ↦ find_loop left ((index + 1) % capacity) ]
    ]

module _ {S W K E : Type 0} where
  -- the loop from the hash of the key on
  abbrev pub find_slot : K → State S W K E → Run (Option ℕ)
  find_slot key s = do
    index ← hashmap_hash s key
    find_loop s.map.key_lifetime s.map.capacity key (table_of s) s.map.capacity index

  unfoldable pub hashmap_has : K → State S W K E → Run Bool
  unfolding find_loop
  hashmap_has key s = do
    check_key_hash s.map.key_lifetime
    elem_policy ← check_lifetime s.map.elem_lifetime
    found ← find_slot key s
    ok (is_some found)

  -- The pointer to an element is the index of its slot.
  unfoldable pub hashmap_at : K → State S W K E → Run (Option ℕ)
  hashmap_at key s = do
    present ← hashmap_has key s
    if not present then ok none else find_slot key s
