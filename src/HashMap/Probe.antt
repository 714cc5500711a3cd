-- ===== src/HashMap/Probe.antt =====
-- The probe sequence of the lookups: which slots it visits, where it stops, and with what.
use native.Mathlib.Nat.{mod-eq_of_lt, mod-lt, mod-add-mod, add-mod_left}
use c_base.Base.{
  ℕ, zero, suc, ◌+◌, ◌-◌, ◌%◌, ◌<◌, ◌≡◌, ap, sym, ◌∙◌, ◌⊎◌, inl, inr, Option, none, some, Bool,
  true, false, arith, length, get_elem?, get_elem?_in_range, Bool-cases, dec_lt,
}
use c_base.Base.Cells.{load-ok}
use c_base.Base.Run.{Run, ok, fault, Fault, ◌>>=◌}
use c_base.HashMap.{SlotState}
use c_base.HashMap.Lookup.{find_loop}
use c_base.HashMap.Slots.{Table, call_equals}
use c_base.Policy.{Lifetime}

-- the slot that the probe from `index` visits after `m` steps
abbrev pub slot_at : ℕ → ℕ → ℕ → ℕ
slot_at capacity index m = (index + m) % capacity

pub slot_at-zero : (capacity index : ℕ) → index < capacity → slot_at capacity index 0 ≡ index
slot_at-zero capacity index h =
    ap (λ n. n % capacity) {x = index + 0} {y = index} (omega arith) ∙ mod-eq_of_lt h

pub slot_at-suc :
    (capacity index m : ℕ)
    → slot_at capacity ((index + 1) % capacity) m ≡ slot_at capacity index (suc m)
slot_at-suc capacity index m =
    mod-add-mod (index + 1) capacity m
    ∙ ap (λ n. n % capacity) {x = index + 1 + m} {y = index + suc m} (omega arith)

-- From any slot the probe gets to any other within as many steps as there are slots.
pub slot_at-onto :
    (capacity index j : ℕ)
    → index < capacity
    → j < capacity
    → (m : ℕ) × (m < capacity) × (slot_at capacity index m ≡ j)
slot_at-onto capacity index j h k = elim (dec_lt j index) [
  | no p ↦ (
    j - index,
    omega arith,
    ap (λ n. n % capacity) {x = index + (j - index)} {y = j} (omega arith) ∙ mod-eq_of_lt k,
  )
  | yes p ↦ (
    j + capacity - index,
    omega arith,
    ap (λ n. n % capacity) {x = index + (j + capacity - index)} {y = capacity + j} (omega arith)
        ∙ add-mod_left capacity j
        ∙ mod-eq_of_lt k,
  )
]

module _ {W K E : Type 0} where
  -- `capacity` slots in each of the three arrays
  pub record IsTable (capacity : ℕ) (t : Table W K E) : Type 0 where
    pub elems : length t.elems ≡ capacity
    pub keys : length t.keys ≡ capacity
    pub states : length t.states ≡ capacity

  -- the test that `equals` makes of `key` in the world of the table, which it does not change
  abbrev pub Compares : Lifetime W K → K → (K → Bool) → Table W K E → Type 0
  Compares lifetime key test t =
      (other : K) → call_equals lifetime t.world key other ≡ ok (test other)

  -- The slot holds an entry whose key passes the test.
  abbrev pub Holds : (K → Bool) → Table W K E → ℕ → Type 0
  Holds test t j =
      (k : K) × (get_elem? t.states j ≡ some SlotState.occupied)
      × (get_elem? t.keys j ≡ some k)
      × (test k ≡ true)

  -- The probe goes on behind the slot: a tombstone, or an entry whose key fails the test.
  abbrev pub Skipped : (K → Bool) → Table W K E → ℕ → Type 0
  Skipped test t j =
      (get_elem? t.states j ≡ some SlotState.tombstone)
      ⊎ ((k : K) × (get_elem? t.states j ≡ some SlotState.occupied)
          × (get_elem? t.keys j ≡ some k)
          × (test k ≡ false))

  abbrev pub IsEmpty : Table W K E → ℕ → Type 0
  IsEmpty t j = get_elem? t.states j ≡ some SlotState.empty

  -- The first `n` slots from `index` on are skipped.
  abbrev pub AllSkipped : (K → Bool) → Table W K E → ℕ → ℕ → ℕ → Type 0
  AllSkipped test t capacity index n = (m : ℕ) → m < n → Skipped test t (slot_at capacity index m)

  AllSkipped-suc :
      (test : K → Bool) (t : Table W K E) (capacity index n : ℕ)
      → index < capacity
      → Skipped test t index
      → AllSkipped test t capacity ((index + 1) % capacity) n
      → AllSkipped test t capacity index (suc n)
  AllSkipped-suc test t capacity index n h s all zero lt = rw (slot_at-zero capacity index h) s
  AllSkipped-suc test t capacity index n h s all (suc m) lt =
      rw (← slot_at-suc capacity index m) (all m (omega arith))

  -- Where the loop stops with `left` probes to go: at the first slot with an equal key, at the first
  -- empty slot, or, when there is neither among those slots, in the unreachable branch.
  pub data Outcome (test : K → Bool) (t : Table W K E) (capacity index left : ℕ)
      : Run (Option ℕ) → Type 0 where
    found :
        (n j : ℕ)
        → n < left
        → AllSkipped test t capacity index n
        → slot_at capacity index n ≡ j
        → Holds test t j
        → Outcome test t capacity index left (ok (some j))
    missing :
        (n j : ℕ)
        → n < left
        → AllSkipped test t capacity index n
        → slot_at capacity index n ≡ j
        → IsEmpty t j
        → Outcome test t capacity index left (ok none)
    exhausted :
        AllSkipped test t capacity index left
        → Outcome test t capacity index left (fault Fault.unreachable)

  Outcome-suc :
      (test : K → Bool) (t : Table W K E) (capacity index left : ℕ) (r : Run (Option ℕ))
      → index < capacity
      → Skipped test t index
      → Outcome test t capacity ((index + 1) % capacity) left r
      → Outcome test t capacity index (suc left) r
  Outcome-suc test t capacity index left r h s (Outcome.found n j lt all at holds) =
      Outcome.found (suc n) j (omega arith) (AllSkipped-suc test t capacity index n h s all)
        (sym (slot_at-suc capacity index n) ∙ at) holds
  Outcome-suc test t capacity index left r h s (Outcome.missing n j lt all at e) =
      Outcome.missing (suc n) j (omega arith) (AllSkipped-suc test t capacity index n h s all)
        (sym (slot_at-suc capacity index n) ∙ at) e
  Outcome-suc test t capacity index left r h s (Outcome.exhausted all) =
      Outcome.exhausted (AllSkipped-suc test t capacity index left h s all)

module _ {W K E : Type 0} (lifetime : Lifetime W K) (capacity : ℕ) (key : K) (t : Table W K E) where
  -- The lookup loop does not fault but in the unreachable branch, and that only if all the slots that
  -- it may visit are skipped: it stops at the first slot with an equal key or at the first empty one.
  pub find_loop-Outcome :
      (test : K → Bool)
      → Compares lifetime key test t
      → IsTable capacity t
      → (left index : ℕ) → index < capacity
      → Outcome test t capacity index left (find_loop lifetime capacity key t left index)
  unfolding find_loop
  find_loop-Outcome test law table zero index h = Outcome.exhausted (λ m lt. absurd (omega arith))
  find_loop-Outcome test law table (suc left) index h =
      let (state, read) = get_elem?_in_range t.states index (omega (arith, table.states)) in
      let (other, held) = get_elem?_in_range t.keys index (omega (arith, table.keys)) in
      at_state state read other held (λ s. Outcome-suc test t capacity index left _ h s (
        find_loop-Outcome test law table left ((index + 1) % capacity)
          (mod-lt (index + 1) (omega arith))))
    where
      at_state :
          (state : SlotState)
          → get_elem? t.states index ≡ some state
          → (other : K) → get_elem? t.keys index ≡ some other
          → (Skipped test t index
              → Outcome test t capacity index
                  (suc left)
                  (find_loop lifetime capacity key t left ((index + 1) % capacity)))
          → Outcome test t capacity index
              (suc left)
              (find_loop lifetime capacity key t (suc left) index)
      at_state SlotState.empty read other held next =
          rw (load-ok t.states index SlotState.empty read, ◌>>=◌)
            (Outcome.missing 0 index (omega arith) (λ m lt. absurd (omega arith))
              (slot_at-zero capacity index h) read)
      at_state SlotState.tombstone read other held next =
          rw (load-ok t.states index SlotState.tombstone read, ◌>>=◌) (next (inl read))
      at_state SlotState.occupied read other held next = elim (Bool-cases (test other)) [
        | inl same ↦
            rw
              (
                load-ok t.states index SlotState.occupied read,
                ◌>>=◌,
                load-ok t.keys index other held,
                ◌>>=◌,
                law other,
                same,
                ◌>>=◌,
              )
              (Outcome.found 0 index (omega arith) (λ m lt. absurd (omega arith))
                (slot_at-zero capacity index h) (other, read, held, same))
        | inr differs ↦
            rw
              (
                load-ok t.states index SlotState.occupied read,
                ◌>>=◌,
                load-ok t.keys index other held,
                ◌>>=◌,
                law other,
                differs,
                ◌>>=◌,
              )
              (next (inr (other, read, held, differs)))
      ]
