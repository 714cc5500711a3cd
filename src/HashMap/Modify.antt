-- ===== src/HashMap/Modify.antt =====
-- The modifiers of hashmap.c: `hashmap_insert_any` and its two callers, `hashmap_remove`, and
-- `hashmap_clear`. The caller's key and element are passed as the contents of their slots, and returned
-- as they are afterwards; the slots are none of the map's own.
use c_base.Base.{ℕ, zero, suc, ◌+◌, ◌%◌, none, some, Bool, true, false, ltb, ◌==◌, if◌then◌else◌}
use c_base.Base.Cells.{load, store}
use c_base.Base.Run.{Run, ok, fault, Fault, ◌>>=◌, ◌>>◌}
use c_base.HashMap.{SlotState, State, Memory}
use c_base.HashMap.Lookup.{hashmap_hash, find_slot}
use c_base.HashMap.Resize.{hashmap_grow}
use c_base.HashMap.Slots.{
  Table, table_of, with_table, call_equals, check_key, hashmap_insert_at_slot,
  hashmap_remove_at_slot, invalid_index,
}
use c_base.Policy.{Lifetime, check_lifetime}

-- Where an insertion goes: to a slot that is not occupied, or over the entry of an equal key.
pub data Target : Type 0 where
  vacant replace : ℕ → Target

module _ {W K E : Type 0} (lifetime : Lifetime W K) (capacity : ℕ) (key : K) (t : Table W K E) where
  -- The probe of `hashmap_insert_any`: `left` probes to go, at slot `index`, with the last tombstone
  -- that was seen.
  unfoldable pub insert_loop : ℕ → ℕ → ℕ → Run Target
  insert_loop zero index tombstone = fault Fault.unreachable
  insert_loop (suc left) index tombstone = do
    state ← load t.states index
    elim state [
      | SlotState.empty ↦
          ok (Target.vacant (if tombstone == invalid_index then index else tombstone))
      | SlotState.tombstone ↦ insert_loop left ((index + 1) % capacity) index
      | SlotState.occupied ↦ do
        other ← load t.keys index
        same ← call_equals lifetime t.world key other
        elim same [
          | true ↦ ok (Target.replace index)
          | false ↦ insert_loop left ((index + 1) % capacity) tombstone
        ]
    ]

module _ {S W K E : Type 0} (memory : Memory K E) where
  -- `hashmap_insert_any` once there is room
  unfoldable pub insert_in_room : K → E → Bool → State S W K E → Run (Bool × K × E × State S W K E)
  unfolding insert_loop
  insert_in_room key elem force_move s = do
    index ← hashmap_hash s key
    target ←
        insert_loop s.map.key_lifetime s.map.capacity key (table_of s) s.map.capacity index
          invalid_index
    elim target [
      | Target.vacant i ↦ do
        (key', elem', s') ← hashmap_insert_at_slot i key elem force_move s
        ok (true, key', elem', s')
      | Target.replace i ↦ do
        removed ← hashmap_remove_at_slot memory i s
        (key', elem', s') ← hashmap_insert_at_slot i key elem force_move removed
        ok (true, key', elem', s')
    ]

  unfoldable pub hashmap_insert_any :
      K → E → Bool → State S W K E → Run (Bool × K × E × State S W K E)
  unfolding insert_in_room
  hashmap_insert_any key elem force_move s = do
    check_key s.map.key_lifetime
    elem_policy ← check_lifetime s.map.elem_lifetime
    if ltb s.map.elem_count s.map.capacity then insert_in_room key elem force_move s else do
      (room, s') ← hashmap_grow memory invalid_index s
      if room then insert_in_room key elem force_move s' else ok (false, key, elem, s')

  unfoldable pub hashmap_insert : K → E → State S W K E → Run (Bool × K × E × State S W K E)
  hashmap_insert key elem s = hashmap_insert_any key elem false s

  unfoldable pub hashmap_insert_move : K → E → State S W K E → Run (Bool × K × E × State S W K E)
  hashmap_insert_move key elem s = hashmap_insert_any key elem true s

  unfoldable pub hashmap_remove : K → State S W K E → Run (Bool × State S W K E)
  hashmap_remove key s = do
    check_key s.map.key_lifetime
    elem_policy ← check_lifetime s.map.elem_lifetime
    if s.map.elem_count == 0 then ok (false, s) else do
      found ← find_slot key s
      elim found [
        | none ↦ ok (false, s)
        | some i ↦ do s' ← hashmap_remove_at_slot memory i s; ok (true, s')
      ]

  -- the loop of `hashmap_clear`, from slot `i` on
  pub clear_loop : ℕ → ℕ → State S W K E → Run (State S W K E)
  clear_loop zero i s = ok s
  clear_loop (suc left) i s = do
    state ← load (table_of s).states i
    s' ← elim state [ SlotState.occupied ↦ hashmap_remove_at_slot memory i s | _ ↦ ok s ]
    s'' ← elim state [
      | SlotState.empty ↦ ok s'
      | _ ↦ do
        states ← store (table_of s').states i SlotState.empty
        ok (with_table s' (record (table_of s') { states = states }))
    ]
    clear_loop left (i + 1) s''

  unfoldable pub hashmap_clear : State S W K E → Run (State S W K E)
  unfolding clear_loop
  hashmap_clear s = do
    check_key s.map.key_lifetime
    elem_policy ← check_lifetime s.map.elem_lifetime
    if s.map.elem_count == 0 then ok s else clear_loop s.map.capacity 0 s
