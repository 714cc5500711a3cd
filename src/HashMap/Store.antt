-- ===== src/HashMap/Store.antt =====
-- `hashmap_insert_at_slot`: an entry put into a slot, with every other one still to be found.
use c_base.Base.{
  ℕ, ◌%◌, ◌<◌, ◌≡◌, ◌≢◌, refl, ap, sym, ◌∙◌, Option, some, Bool, true, arith, set, get_elem?,
  get_elem?_in_range, get_elem?-set_self, get_elem?-set_ne, length-set, ℕ_discrete,
}
use mathlib.Core.Path.{subst}
use c_base.Base.Cells.{load-ok, store-ok}
use c_base.Base.Run.{ok, ◌>>=◌, Returns}
use c_base.Base.Word.{add_size}
use c_base.HashMap.{SlotState, State}
use c_base.HashMap.Probe.{slot_at, IsTable, IsEmpty}
use c_base.HashMap.Remove.{table_of-with}
use c_base.HashMap.Search.{IsPlaced}
use c_base.HashMap.Slots.{
  Table, table_of, with_table, with_count, can_transfer, transfer, hashmap_insert_at_location,
  hashmap_insert_at_slot,
}
use c_base.Policy.{ElementPolicy, Lifetime, read_lifetime, is_some}

-- A slot of this lifetime can be given the contents of the caller's.
abbrev pub IsTransferable : {W A : Type 0} → Bool → Lifetime W A → Type 0
IsTransferable {W} {A} force_move lifetime =
    (p : Option (ElementPolicy W A)) × (read_lifetime lifetime ≡ ok p)
    × (can_transfer p ≡ true)
    × ((w : W) (dest src : A) → Returns (transfer force_move p w dest src) (λ r. r.0 ≡ src))

module _ {W K E : Type 0} where
  -- The second table is the first with an entry in slot `j`, and the other slots the same.
  pub record IsStored (capacity j : ℕ) (key : K) (elem : E) (t u : Table W K E) : Type 0 where
    pub state_at : get_elem? u.states j ≡ some SlotState.occupied
    pub key_at : get_elem? u.keys j ≡ some key
    pub elem_at : get_elem? u.elems j ≡ some elem
    pub states : (i : ℕ) → i ≢ j → get_elem? u.states i ≡ get_elem? t.states i
    pub keys : (i : ℕ) → i ≢ j → get_elem? u.keys i ≡ get_elem? t.keys i
    pub elems : (i : ℕ) → i ≢ j → get_elem? u.elems i ≡ get_elem? t.elems i
    pub table : IsTable capacity u

  -- From the home of the key the slot is reached before any empty one.
  abbrev pub IsReached : ℕ → (K → ℕ) → Table W K E → K → ℕ → Type 0
  IsReached capacity hash t key j =
      (n : ℕ) × (slot_at capacity (hash key % capacity) n ≡ j)
      × ((m : ℕ) → m < n → ¬ IsEmpty t (slot_at capacity (hash key % capacity) m))

  IsStored-not-IsEmpty :
      (capacity j : ℕ) (key : K) (elem : E) (t u : Table W K E)
      → IsStored capacity j key elem t u
      → (i : ℕ) → ¬ IsEmpty t i
      → ¬ IsEmpty u i
  IsStored-not-IsEmpty capacity j key elem t u s i not_empty empty = elim (ℕ_discrete i j) [
    | yes p ↦
        let now : get_elem? u.states i ≡ some SlotState.occupied =
          ap (get_elem? u.states) p ∙ s.state_at in
        cc
    | no p ↦ not_empty (sym (s.states i p) ∙ empty)
  ]

  -- A reached slot that is filled leaves every entry to be found.
  pub IsStored-IsPlaced :
      (capacity j : ℕ) (hash : K → ℕ) (key : K) (elem : E) (t u : Table W K E)
      → IsStored capacity j key elem t u
      → IsReached capacity hash t key j
      → IsPlaced capacity hash t
      → IsPlaced capacity hash u
  IsStored-IsPlaced capacity j hash key elem t u s (n, at, clear) placed i k occupied held =
      elim (ℕ_discrete i j) [
        | yes p ↦
            let here : get_elem? u.keys i ≡ some key = ap (get_elem? u.keys) p ∙ s.key_at in
            let own : k ≡ key = cc in
            subst (λ k'. IsReached capacity hash u k' i) (sym own)
              (n, at ∙ sym p, λ m lt. still m (clear m lt))
        | no p ↦
            let (n', at', clear') =
              placed i k (sym (s.states i p) ∙ occupied) (sym (s.keys i p) ∙ held) in
            (
              n',
              at',
              λ m lt.
                  IsStored-not-IsEmpty capacity j key elem t u s
                    (slot_at capacity (hash k % capacity) m) (clear' m lt),
            )
      ]
    where
      still :
          (m : ℕ)
          → ¬ IsEmpty t (slot_at capacity (hash key % capacity) m)
          → ¬ IsEmpty u (slot_at capacity (hash key % capacity) m)
      still m =
          IsStored-not-IsEmpty capacity j key elem t u s (slot_at capacity (hash key % capacity) m)

  abbrev stored : Table W K E → ℕ → K → E → W → Table W K E
  stored t j key elem w = record {
    elems = set t.elems j elem;
    keys = set t.keys j key;
    states = set t.states j SlotState.occupied;
    world = w;
  }

  stored-IsStored :
      (capacity j : ℕ) (t : Table W K E) (key key' : K) (elem elem' : E) (w : W)
      → key' ≡ key
      → elem' ≡ elem
      → j < capacity
      → IsTable capacity t
      → IsStored capacity j key elem t (stored t j key' elem' w)
  stored-IsStored capacity j t key key' elem elem' w ek ee h table = record {
    state_at = get_elem?-set_self t.states j SlotState.occupied (omega (arith, table.states));
    key_at = get_elem?-set_self t.keys j key' (omega (arith, table.keys)) ∙ ap some ek;
    elem_at = get_elem?-set_self t.elems j elem' (omega (arith, table.elems)) ∙ ap some ee;
    states = λ i ne. get_elem?-set_ne t.states j i SlotState.occupied (λ e. ne (sym e));
    keys = λ i ne. get_elem?-set_ne t.keys j i key' (λ e. ne (sym e));
    elems = λ i ne. get_elem?-set_ne t.elems j i elem' (λ e. ne (sym e));
    table = record {
      elems = length-set t.elems j elem' ∙ table.elems;
      keys = length-set t.keys j key' ∙ table.keys;
      states = length-set t.states j SlotState.occupied ∙ table.states;
    };
  }

module _ {S W K E : Type 0} where
  -- The entry is in slot `j`, and one entry more is counted.
  pub record IsFilled (key : K) (elem : E) (j : ℕ) (s t : State S W K E) : Type 0 where
    pub entry : IsStored s.map.capacity j key elem (table_of s) (table_of t)
    pub count : t.map.elem_count ≡ add_size s.map.elem_count 1
    pub capacity : t.map.capacity ≡ s.map.capacity
    pub key_lifetime : t.map.key_lifetime ≡ s.map.key_lifetime
    pub elem_lifetime : t.map.elem_lifetime ≡ s.map.elem_lifetime

  pub hashmap_insert_at_slot-IsFilled :
      (j : ℕ) (key : K) (elem : E) (force_move : Bool) (s : State S W K E)
      → IsTable s.map.capacity (table_of s)
      → IsTransferable force_move s.map.key_lifetime
      → IsTransferable force_move s.map.elem_lifetime
      → is_some s.map.key_lifetime ≡ true
      → j < s.map.capacity
      → Returns (hashmap_insert_at_slot j key elem force_move s) (λ r. IsFilled key elem j s r.2)
  unfolding hashmap_insert_at_slot hashmap_insert_at_location
  hashmap_insert_at_slot-IsFilled j key elem force_move s table (kp, kr, kc, move_key)
        (ep, er, ec, move_elem) given inside =
      let t = table_of s in
      let (old_key, at_key) = get_elem?_in_range t.keys j (omega (arith, table.keys)) in
      let (old_elem, at_elem) = get_elem?_in_range t.elems j (omega (arith, table.elems)) in
      let ((key', key'', w₁), run₁, same_key) = move_key s.world old_key key in
      let ((elem', elem'', w₂), run₂, same_elem) = move_elem w₁ old_elem elem in
      (
        (
          key'',
          elem'',
          with_count (with_table s (stored t j key' elem' w₂)) (add_size s.map.elem_count 1),
        ),
        rw
            (
              given,
              ◌>>=◌,
              er,
              ◌>>=◌,
              ec,
              ◌>>=◌,
              kr,
              ◌>>=◌,
              load-ok (table_of s).keys j old_key at_key,
              ◌>>=◌,
              run₁,
              ◌>>=◌,
              store-ok (table_of s).keys j key' (omega (arith, table.keys)),
              ◌>>=◌,
              load-ok (table_of s).elems j old_elem at_elem,
              ◌>>=◌,
              run₂,
              ◌>>=◌,
              store-ok (table_of s).elems j elem' (omega (arith, table.elems)),
              ◌>>=◌,
              store-ok (table_of s).states j SlotState.occupied (omega (arith, table.states)),
              ◌>>=◌,
            )
            refl,
        record {
          entry = rw (table_of-with s (stored t j key' elem' w₂) (omega arith) table) (
              stored-IsStored s.map.capacity j t key key' elem elem' w₂ same_key same_elem inside
                table);
          count = refl;
          capacity = refl;
          key_lifetime = refl;
          elem_lifetime = refl;
        },
      )
