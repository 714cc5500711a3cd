-- ===== src/HashMap/Remove.antt =====
-- `hashmap_remove`: the entry goes, and every other one can still be found.
use c_base.Base.{
  ℕ, ◌<◌, ◌≡◌, ◌≢◌, refl, ap, ◌∙◌, none, some, Bool, true, false, arith, get_elem?,
  get_elem?_in_range, lt-length_of_get_elem?,
}
use c_base.Base.Cells.{load-ok, store-ok}
use c_base.Base.Run.{◌>>=◌, Returns}
use c_base.Base.Word.{sub_size}
use c_base.HashMap.{SlotState, State, Memory}
use c_base.HashMap.Entries.{IsMap, nonzero, find_slot-Answer}
use c_base.HashMap.Lookup.{find_slot}
use c_base.HashMap.Modify.{hashmap_remove}
use c_base.HashMap.Probe.{IsTable, Holds, IsEmpty}
use c_base.HashMap.Search.{Answer}
use c_base.HashMap.Slots.{Table, table_of, with_table, with_count, hashmap_remove_at_slot}
use c_base.Policy.{is_some}
use c_base.HashMap.Wipe.{
  IsWipeable, cells_of-with, IsErased, IsErased-IsPlaced, wiped, wiped-IsErased,
}

module _ {S W K E : Type 0} where
  -- A table that is written back to a map with slots is the table that is read then.
  pub table_of-with :
      (s : State S W K E) (t : Table W K E)
      → 0 < s.map.capacity
      → IsTable s.map.capacity (table_of s)
      → table_of (with_table s t) ≡ t
  table_of-with s t pos table =
      rw
        (
          cells_of-with s.map.buffer t.elems s.map.capacity pos table.elems,
          cells_of-with s.map.keys_buffer t.keys s.map.capacity pos table.keys,
          cells_of-with s.map.meta_buffer t.states s.map.capacity pos table.states,
        )
        refl

  -- Slot `j` has become a tombstone, and the map is well formed and counts one entry less.
  pub record IsRemoved (hash : K → ℕ) (same : K → K → Bool) (j : ℕ) (s t : State S W K E)
      : Type 0 where
    pub map : IsMap hash same t
    pub erased : IsErased s.map.capacity j (table_of s) (table_of t)
    pub count : t.map.elem_count ≡ sub_size s.map.elem_count 1
    pub capacity : t.map.capacity ≡ s.map.capacity
    pub key_lifetime : t.map.key_lifetime ≡ s.map.key_lifetime
    pub elem_lifetime : t.map.elem_lifetime ≡ s.map.elem_lifetime

  -- Either an entry with an equal key was in a slot and has been removed from it, or there was none
  -- and nothing has changed.
  abbrev pub MaybeRemoved :
      (K → ℕ) → (K → K → Bool) → K → State S W K E → Bool × State S W K E → Type 0
  MaybeRemoved hash same key s (true, t) =
      (j : ℕ) × Holds (same key) (table_of s) j × IsRemoved hash same j s t
  MaybeRemoved hash same key s (false, t) = (t ≡ s) × ((j : ℕ) → ¬ Holds (same key) (table_of s) j)

module _ {S W K E : Type 0} {hash : K → ℕ} {same : K → K → Bool} where
  wiped-IsRemoved :
      (j : ℕ) (s : State S W K E) (key : K) (elem : E) (w : W)
      → IsMap hash same s
      → j < s.map.capacity
      → get_elem? (table_of s).states j ≡ some SlotState.occupied
      → IsRemoved hash same j s (
          with_count (with_table s (wiped (table_of s) j key elem w)) (sub_size s.map.elem_count 1))
  wiped-IsRemoved j s key elem w m inside occupied =
      let (e, below, empty) = m.vacancy in
      record {
        map = record {
          keyed = m.keyed;
          elems = m.elems;
          table = now.table;
          placed =
              IsErased-IsPlaced s.map.capacity j hash (table_of s) (table_of after) now m.placed;
          vacancy = (e, below, now.states e (other e empty) ∙ empty);
        };
        erased = now;
        count = refl;
        capacity = refl;
        key_lifetime = refl;
        elem_lifetime = refl;
      }
    where
      other : (e : ℕ) → IsEmpty (table_of s) e → e ≢ j
      other e empty same_slot =
          let here : get_elem? (table_of s).states e ≡ some SlotState.occupied =
            ap (get_elem? (table_of s).states) same_slot ∙ occupied in
          cc

      after : State S W K E
      after =
          with_count (with_table s (wiped (table_of s) j key elem w)) (sub_size s.map.elem_count 1)

      now : IsErased s.map.capacity j (table_of s) (table_of after)
      now =
          rw (table_of-with s (wiped (table_of s) j key elem w) (omega arith) m.table)
            (wiped-IsErased s.map.capacity j (table_of s) key elem w inside m.table)

module _ {S W K E : Type 0} (memory : Memory K E) {hash : K → ℕ} {same : K → K → Bool} where
  -- `hashmap_remove_at_slot` on an occupied slot.
  pub hashmap_remove_at_slot-IsRemoved :
      (j : ℕ) (s : State S W K E)
      → IsMap hash same s
      → IsWipeable memory.zero_key s.map.key_lifetime
      → IsWipeable memory.zero_elem s.map.elem_lifetime
      → is_some s.map.key_lifetime ≡ true
      → get_elem? (table_of s).states j ≡ some SlotState.occupied
      → Returns (hashmap_remove_at_slot memory j s) (IsRemoved hash same j s)
  unfolding hashmap_remove_at_slot
  hashmap_remove_at_slot-IsRemoved j s m (kp, kc, kr, wipe_key) (ep, ec, er, wipe_elem) given
        occupied =
      let inside : j < s.map.capacity = omega (
        arith,
        m.table.states,
        lt-length_of_get_elem? (table_of s).states j SlotState.occupied occupied,
      ) in
      let (key, at_key) = get_elem?_in_range (table_of s).keys j (omega (arith, m.table.keys)) in
      let (elem, at_elem) =
        get_elem?_in_range (table_of s).elems j (omega (arith, m.table.elems)) in
      let ((key', w₁), run₁, _) = wipe_key s.world key in
      let ((elem', w₂), run₂, _) = wipe_elem w₁ elem in
      (
        with_count (with_table s (wiped (table_of s) j key' elem' w₂))
            (sub_size s.map.elem_count 1),
        rw
            (
              given,
              ◌>>=◌,
              ec,
              ◌>>=◌,
              kr,
              ◌>>=◌,
              load-ok (table_of s).keys j key at_key,
              ◌>>=◌,
              run₁,
              ◌>>=◌,
              store-ok (table_of s).keys j key' (omega (arith, m.table.keys)),
              ◌>>=◌,
              load-ok (table_of s).elems j elem at_elem,
              ◌>>=◌,
              run₂,
              ◌>>=◌,
              store-ok (table_of s).elems j elem' (omega (arith, m.table.elems)),
              ◌>>=◌,
              store-ok (table_of s).states j SlotState.tombstone (omega (arith, m.table.states)),
              ◌>>=◌,
            )
            refl,
        wiped-IsRemoved j s key' elem' w₂ m inside occupied,
      )

  -- On a well-formed map, with an empty slot, that counts at least one entry, and whose destructors do not fault,
  -- `hashmap_remove` does not fault. With success a slot that held an equal key is a tombstone, the
  -- other slots are the same, one entry less is counted, and the map is well formed, so that every
  -- other entry can still be found; without, no slot holds an equal key and the map is as it was.
  pub hashmap_remove-MaybeRemoved :
      (key : K) (s : State S W K E)
      → IsMap hash same s
      → IsWipeable memory.zero_key s.map.key_lifetime
      → IsWipeable memory.zero_elem s.map.elem_lifetime
      → is_some s.map.key_lifetime ≡ true
      → 0 < s.map.elem_count
      → Returns (hashmap_remove memory key s) (MaybeRemoved hash same key s)
  unfolding hashmap_remove
  hashmap_remove-MaybeRemoved key s m wk we given counted = go (find_slot-Answer key s m)
    where
      go :
          Returns (find_slot key s) (Answer (same key) (table_of s))
          → Returns (hashmap_remove memory key s) (MaybeRemoved hash same key s)
      go (none, run, answer) = (
        (false, s),
        rw (m.keyed.checked, ◌>>=◌, m.elems.1, ◌>>=◌, nonzero s.map.elem_count counted, run, ◌>>=◌)
            refl,
        (refl, answer),
      )
      go (some j, run, (k, occupied, held, equal)) =
          let (t, done, removed) = hashmap_remove_at_slot-IsRemoved j s m wk we given occupied in
          (
            (true, t),
            rw
                (
                  m.keyed.checked,
                  ◌>>=◌,
                  m.elems.1,
                  ◌>>=◌,
                  nonzero s.map.elem_count counted,
                  run,
                  ◌>>=◌,
                  done,
                  ◌>>=◌,
                )
                refl,
            (j, (k, occupied, held, equal), removed),
          )
