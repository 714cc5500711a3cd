-- ===== src/HashMap/Lifecycle.antt =====
-- Creation, destruction, copy and move of whole maps, in hashmap.c.
use c_base.Base.{Option, none, some, true, ◌==◌, if◌then◌else◌, replicate}
use c_base.Base.Run.{Run, ok, fault, Fault, assert, ◌>>=◌, ◌>>◌}
use c_base.Allocator.{AllocatorVtable, allocator_free}
use c_base.Buffer.{Buffer, free_cells}
use c_base.HashMap.{SlotState, HashStrategy, HashMap, State, Memory}
use c_base.HashMap.Modify.{hashmap_clear}
use c_base.HashMap.Resize.{alloc_three}
use c_base.HashMap.Slots.{check_key, can_transfer, policy_ok}
use c_base.Policy.{check_lifetime}

module _ {S W K E : Type 0} where
  -- `hashmap_reset_state`, and `(HashMap){0}`
  abbrev pub reset_map : HashMap S W K E
  reset_map = record {
    buffer = none;
    keys_buffer = none;
    meta_buffer = none;
    elem_count = 0;
    capacity = 0;
    key_size = 0;
    elem_size = 0;
    key_alignment = 0;
    elem_alignment = 0;
    allocator = none;
    key_lifetime = none;
    elem_lifetime = none;
    hash_strategy = HashStrategy.recompute;
  }

-- `allocator_free` of a buffer that may be null, as the address 0.
abbrev pub free_maybe : {S A : Type 0} → Option (AllocatorVtable S) → Option (Buffer A) → S → Run S
free_maybe none none heap = fault Fault.bad_pointer
free_maybe (some vt) none heap = allocator_free vt heap 0
free_maybe allocator (some b) heap = free_cells allocator b heap

module _ {S W K E : Type 0} (memory : Memory K E) where
  -- `m` is the map to be made, with null buffers and its descriptor filled in.
  unfoldable pub hashmap_create_complex : HashMap S W K E → S → Run (HashMap S W K E × S)
  hashmap_create_complex m heap = do
    assert (policy_ok (λ _. true) m.key_lifetime)
    elem_policy ← check_lifetime m.elem_lifetime
    assert (can_transfer elem_policy)
    check_key m.key_lifetime
    if m.capacity == 0 then ok (m, heap) else do
      (buffers, heap') ← alloc_three memory m m.capacity heap
      elim buffers [
        | none ↦ ok (reset_map, heap')
        | some (b, k, st) ↦ ok (
          record m {
            buffer = some b;
            keys_buffer = some k;
            meta_buffer = some (record st { cells = replicate m.capacity SlotState.empty });
          },
          heap',
        )
      ]

  unfoldable pub hashmap_destroy : State S W K E → Run (State S W K E)
  hashmap_destroy s = elim s.map.buffer [
    | none ↦ ok (record s { map = reset_map })
    | some b ↦ do
      s' ← hashmap_clear memory s
      heap₁ ← free_cells s'.map.allocator b s'.heap
      heap₂ ← free_maybe s'.map.allocator s'.map.keys_buffer heap₁
      heap₃ ← free_maybe s'.map.allocator s'.map.meta_buffer heap₂
      ok (record s' { map = reset_map; heap = heap₃ })
  ]

  -- `dest` and `src` are two objects; the state is `dest`'s, and the new `src` is beside it.
  unfoldable pub hashmap_move :
      HashMap S W K E → State S W K E → Run (HashMap S W K E × State S W K E)
  hashmap_move src s = do s' ← hashmap_destroy s; ok (reset_map, record s' { map = src })

  unfoldable pub hashmap_reset_destructive : State S W K E → Run (State S W K E)
  hashmap_reset_destructive s = do s' ← hashmap_clear memory s; ok (record s' { map = reset_map })
