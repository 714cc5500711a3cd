-- ===== src/HashMap/Entries.antt =====
-- `hashmap_has`, `hashmap_at` and `hashmap_remove` on a well-formed map.
use c_base.Base.{ℕ, ◌%◌, ◌<◌, ◌≡◌, refl, Option, none, some, Bool, true, false, arith, ◌==◌}
use c_base.Base.Run.{ok, fault, Fault, ◌>>=◌, Returns}
use c_base.HashMap.{State}
use c_base.HashMap.Lookup.{
  hashmap_freestanding_hash, hashmap_hash, find_slot, hashmap_has, hashmap_at,
}
use c_base.HashMap.Probe.{IsTable, Holds, Skipped, IsEmpty}
use c_base.HashMap.Search.{IsKeyed, IsPlaced, Answer, find_loop-Answer, find_loop-full}
use c_base.HashMap.Slots.{Table, table_of}
use c_base.Policy.{ElementPolicy, check_lifetime, is_some}

pub nonzero : (n : ℕ) → 0 < n → (n == 0) ≡ false
nonzero n h = ground arith

module _ {W K E : Type 0} where
  -- Whether a slot holds an equal key.
  abbrev pub Present : (K → Bool) → Table W K E → Bool → Type 0
  Present test t true = (j : ℕ) × Holds test t j
  Present test t false = (j : ℕ) → ¬ Holds test t j

  Answer-Present :
      (test : K → Bool) (t : Table W K E) (r : Option ℕ)
      → Answer test t r
      → Present test t (is_some r)
  Answer-Present test t none a = a
  Answer-Present test t (some j) a = (j, a)

module _ {S W K E : Type 0} where
  -- The three arrays have a cell for each slot, every entry can be found, and a slot is empty.
  pub record IsMap (hash : K → ℕ) (same : K → K → Bool) (s : State S W K E) : Type 0 where
    pub keyed : IsKeyed s.map.key_lifetime hash same
    pub elems : (p : Option (ElementPolicy W E)) × (check_lifetime s.map.elem_lifetime ≡ ok p)
    pub table : IsTable s.map.capacity (table_of s)
    pub placed : IsPlaced s.map.capacity hash (table_of s)
    pub vacancy : (e : ℕ) × (e < s.map.capacity) × IsEmpty (table_of s) e

module _ {S W K E : Type 0} {hash : K → ℕ} {same : K → K → Bool} where
  pub home_of :
      (s : State S W K E) (key : K)
      → IsKeyed s.map.key_lifetime hash same
      → 0 < s.map.capacity
      → hashmap_hash s key ≡ ok (hash key % s.map.capacity)
  unfolding hashmap_hash hashmap_freestanding_hash
  home_of s key keyed pos = rw (keyed.hashes s.world key, ◌>>=◌, nonzero s.map.capacity pos) refl

  pub find_slot-Answer :
      (key : K) (s : State S W K E)
      → IsMap hash same s
      → Returns (find_slot key s) (Answer (same key) (table_of s))
  find_slot-Answer key s m =
      let (e, inside, empty) = m.vacancy in
      let (r, run, answer) =
        find_loop-Answer m.keyed s.map.capacity (table_of s) m.table (omega arith) m.placed key e
          inside empty in
      (r, rw (home_of s key m.keyed (omega arith), ◌>>=◌) run, answer)

  -- On a well-formed map, with an empty slot, `hashmap_has` returns true if some slot holds an equal key, and false if
  -- none does.
  pub hashmap_has-Present :
      (key : K) (s : State S W K E)
      → IsMap hash same s
      → Returns (hashmap_has key s) (Present (same key) (table_of s))
  unfolding hashmap_has
  hashmap_has-Present key s m =
      let (p, elems) = m.elems in
      let (r, run, answer) = find_slot-Answer key s m in
      (
        is_some r,
        rw (m.keyed.checked_hash, ◌>>=◌, elems, ◌>>=◌, run, ◌>>=◌) refl,
        Answer-Present (same key) (table_of s) r answer,
      )

  -- On a well-formed map, with an empty slot, `hashmap_at` returns a slot that holds an equal key, or null if none does.
  pub hashmap_at-Answer :
      (key : K) (s : State S W K E)
      → IsMap hash same s
      → Returns (hashmap_at key s) (Answer (same key) (table_of s))
  unfolding hashmap_at hashmap_has
  hashmap_at-Answer key s m = go (find_slot-Answer key s m)
    where
      go :
          Returns (find_slot key s) (Answer (same key) (table_of s))
          → Returns (hashmap_at key s) (Answer (same key) (table_of s))
      go (none, run, answer) =
          let (p, elems) = m.elems in
          (none, rw (m.keyed.checked_hash, ◌>>=◌, elems, ◌>>=◌, run, ◌>>=◌) refl, answer)
      go (some j, run, answer) =
          let (p, elems) = m.elems in
          (some j, rw (m.keyed.checked_hash, ◌>>=◌, elems, ◌>>=◌, run, ◌>>=◌) refl, answer)

  -- On a map whose keys hash and compare by the policy of their lifetime, whose elements have no
  -- lifetime or one with a policy, with at least one slot, and with a cell for each slot in its arrays:
  -- if each slot is a tombstone or an entry with another key, `hashmap_has` ends in the branch that is
  -- marked unreachable.
  pub hashmap_has_full :
      (key : K) (s : State S W K E) {p : Option (ElementPolicy W E)}
      → IsKeyed s.map.key_lifetime hash same
      → check_lifetime s.map.elem_lifetime ≡ ok p
      → IsTable s.map.capacity (table_of s)
      → 0 < s.map.capacity
      → ((j : ℕ) → j < s.map.capacity → Skipped (same key) (table_of s) j)
      → hashmap_has key s ≡ fault Fault.unreachable
  unfolding hashmap_has
  hashmap_has_full key s keyed elems table pos full =
      rw
        (
          keyed.checked_hash,
          ◌>>=◌,
          elems,
          ◌>>=◌,
          home_of s key keyed pos,
          ◌>>=◌,
          find_loop-full keyed s.map.capacity (table_of s) table key pos full,
          ◌>>=◌,
        )
        refl
