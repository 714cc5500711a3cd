-- ===== src/HashMap/Nested.antt =====
-- Maps as the elements of a container: the functions of HASHMAP_ELEMENT_POLICY in hashmap.c. The world
-- of the container has the state of the allocators and the world of the map's own elements. The `ctx`
-- is the descriptor of the maps to make; most of the functions are not implemented.
use c_base.Base.{Option, none, some, Bool}
use c_base.Base.Run.{Run, ok, fault, Fault, ◌>>=◌}
use c_base.Base.{ℕ}
use c_base.HashMap.{HashMap, Memory}
use c_base.HashMap.Lifecycle.{hashmap_create_complex, hashmap_destroy}
use c_base.Policy.{ElementPolicy}

module _ {S W K E : Type 0} (memory : Memory K E) where
  unfoldable pub hashmap_create : HashMap S W K E → S → Run (HashMap S W K E × S)
  hashmap_create m heap = hashmap_create_complex memory (record m { elem_lifetime = none }) heap

  unfoldable pub hashmap_policy_ctor :
      Option (HashMap S W K E) → S × W → HashMap S W K E → Run (HashMap S W K E × (S × W))
  hashmap_policy_ctor none (heap, world) elem = ok (elem, (heap, world))
  hashmap_policy_ctor (some ctx) (heap, world) elem = do
    (m, heap') ←
        hashmap_create_complex memory
          (record ctx { buffer = none; keys_buffer = none; meta_buffer = none; elem_count = 0 })
          heap
    ok (m, (heap', world))

  unfoldable pub hashmap_policy_dtor : S × W → HashMap S W K E → Run (HashMap S W K E × (S × W))
  hashmap_policy_dtor (heap, world) elem = do
    s ← hashmap_destroy memory (record { map = elem; heap = heap; world = world })
    ok (s.map, (s.heap, s.world))

  abbrev pub hashmap_policy_copy :
      S × W → HashMap S W K E → HashMap S W K E → Run (HashMap S W K E × (S × W))
  hashmap_policy_copy world dest src = fault Fault.todo

  abbrev pub hashmap_policy_move :
      S × W → HashMap S W K E → HashMap S W K E → Run (HashMap S W K E × HashMap S W K E × (S × W))
  hashmap_policy_move world dest src = fault Fault.todo

  abbrev pub hashmap_policy_equals : S × W → HashMap S W K E → HashMap S W K E → Run Bool
  hashmap_policy_equals world elem other = fault Fault.todo

  abbrev pub hashmap_policy_hash : S × W → HashMap S W K E → Run ℕ
  hashmap_policy_hash world object = fault Fault.todo

  -- `HASHMAP_ELEMENT_POLICY` with a `ctx`
  abbrev pub hashmap_element_policy :
      Option (HashMap S W K E) → ElementPolicy (S × W) (HashMap S W K E)
  hashmap_element_policy ctx = record {
    ctor = some (hashmap_policy_ctor ctx);
    dtor = some hashmap_policy_dtor;
    copy = some hashmap_policy_copy;
    move = some hashmap_policy_move;
    equals = some hashmap_policy_equals;
    compare = none;
    hash = some hashmap_policy_hash;
  }
