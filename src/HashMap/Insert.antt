-- ===== src/HashMap/Insert.antt =====
-- `hashmap_insert_any` where the map need not grow.
use c_base.Base.{ℕ, ◌%◌, ◌≡◌, some, Bool, true, get_elem?}
use c_base.Base.Run.{Run}
use c_base.HashMap.{SlotState, State, Memory}
use c_base.HashMap.Entries.{IsMap}
use c_base.HashMap.Landing.{Landing}
use c_base.HashMap.Modify.{Target, insert_loop}
use c_base.HashMap.Probe.{Holds}
use c_base.HashMap.Search.{IsPlaced}
use c_base.HashMap.Slots.{table_of, invalid_index}
use c_base.HashMap.Store.{IsStored, IsTransferable}
use c_base.Policy.{is_some}

module _ {S W K E : Type 0} (hash : K → ℕ) (same : K → K → Bool) where
  -- The entry is in some slot, the other slots are the same, and every entry can be found. If another
  -- slot held an equal key, then that slot did as well, and so it did if it was occupied at all.
  pub record IsInserted (key : K) (elem : E) (s t : State S W K E) : Type 0 where
    pub slot : ℕ
    pub entry : IsStored s.map.capacity slot key elem (table_of s) (table_of t)
    pub placed : IsPlaced s.map.capacity hash (table_of t)
    pub capacity : t.map.capacity ≡ s.map.capacity
    pub over : (i : ℕ) → Holds (same key) (table_of s) i → Holds (same key) (table_of s) slot
    pub taken :
        get_elem? (table_of s).states slot ≡ some SlotState.occupied
        → Holds (same key) (table_of s) slot
    pub key_lifetime : t.map.key_lifetime ≡ s.map.key_lifetime
    pub elem_lifetime : t.map.elem_lifetime ≡ s.map.elem_lifetime

  abbrev pub Inserted : K → E → State S W K E → Bool × K × E × State S W K E → Type 0
  Inserted key elem s (done, key', elem', t) = (done ≡ true) × IsInserted key elem s t

module _ {S W K E : Type 0} (memory : Memory K E) {hash : K → ℕ} {same : K → K → Bool} (key : K)
    (elem : E) (force_move : Bool) (s : State S W K E) (m : IsMap hash same s)
    (tk : IsTransferable force_move s.map.key_lifetime)
    (te : IsTransferable force_move s.map.elem_lifetime)
    (given : is_some s.map.key_lifetime ≡ true) where
  abbrev home : ℕ
  home = hash key % s.map.capacity

  abbrev probe : Run Target
  probe =
      insert_loop s.map.key_lifetime s.map.capacity key (table_of s) s.map.capacity home
        invalid_index
