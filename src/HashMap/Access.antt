-- ===== src/HashMap/Access.antt =====
-- The sizes that hashmap.h defines, and `hashmap_at_const`.
use c_base.Base.{ℕ, Option, Bool, ◌==◌}
use c_base.Base.Run.{Run}
use c_base.HashMap.{State}
use c_base.HashMap.Lookup.{hashmap_at}

module _ {S W K E : Type 0} where
  abbrev pub hashmap_size : State S W K E → ℕ
  hashmap_size s = s.map.elem_count

  abbrev pub hashmap_capacity : State S W K E → ℕ
  hashmap_capacity s = s.map.capacity

  abbrev pub hashmap_empty : State S W K E → Bool
  hashmap_empty s = s.map.elem_count == 0

  unfoldable pub hashmap_at_const : K → State S W K E → Run (Option ℕ)
  hashmap_at_const key s = hashmap_at key s
