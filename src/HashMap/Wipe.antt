-- ===== src/HashMap/Wipe.antt =====
-- A slot that is wiped, in the three arrays: every other entry can still be found.
use c_base.Base.{
  ℕ, ◌%◌, ◌<◌, ◌≡◌, ◌≢◌, refl, ap, sym, ◌∙◌, List, Option, none, some, arith, length, set,
  get_elem?, get_elem?-set_self, get_elem?-set_ne, length-set, ℕ_discrete,
}
use c_base.Base.Run.{ok, Returns}
use c_base.Buffer.{Buffer}
use c_base.HashMap.{SlotState}
use c_base.HashMap.Probe.{slot_at, IsTable, IsEmpty}
use c_base.HashMap.Search.{IsPlaced}
use c_base.HashMap.Slots.{Table, cells_of, with_cells, wipe}
use c_base.Policy.{ElementPolicy, Lifetime, check_lifetime, read_lifetime}

-- The slots of this lifetime can be wiped: the destructor, if there is one, does not fault.
abbrev pub IsWipeable : {W A : Type 0} → A → Lifetime W A → Type 0
IsWipeable {W} {A} zero_value lifetime =
    (p : Option (ElementPolicy W A)) × (check_lifetime lifetime ≡ ok p)
    × (read_lifetime lifetime ≡ ok p)
    × ((w : W) (slot : A) → Returns (wipe p zero_value w slot) (λ r. Unit {0}))

-- The cells that are written back are the cells that are read then.
pub cells_of-with :
    {A : Type 0}
    → (b : Option (Buffer A)) (xs : List A) (n : ℕ) → 0 < n
    → length (cells_of b) ≡ n
    → cells_of (with_cells b xs) ≡ xs
cells_of-with none xs n pos h = absurd (omega (arith, h))
cells_of-with (some b) xs n pos h = refl

module _ {W K E : Type 0} where
  -- The second table is the first with slot `j` a tombstone, and the other slots the same.
  pub record IsErased (capacity j : ℕ) (t u : Table W K E) : Type 0 where
    pub tombstone : get_elem? u.states j ≡ some SlotState.tombstone
    pub states : (i : ℕ) → i ≢ j → get_elem? u.states i ≡ get_elem? t.states i
    pub keys : (i : ℕ) → i ≢ j → get_elem? u.keys i ≡ get_elem? t.keys i
    pub elems : (i : ℕ) → i ≢ j → get_elem? u.elems i ≡ get_elem? t.elems i
    pub table : IsTable capacity u

  pub IsErased-not-IsEmpty :
      (capacity j : ℕ) (t u : Table W K E)
      → IsErased capacity j t u
      → (i : ℕ) → ¬ IsEmpty t i
      → ¬ IsEmpty u i
  IsErased-not-IsEmpty capacity j t u e i not_empty empty = elim (ℕ_discrete i j) [
    | yes p ↦
        let now : get_elem? u.states i ≡ some SlotState.tombstone =
          ap (get_elem? u.states) p ∙ e.tombstone in
        cc
    | no p ↦ not_empty (sym (e.states i p) ∙ empty)
  ]

  pub IsErased-IsPlaced :
      (capacity j : ℕ) (hash : K → ℕ) (t u : Table W K E)
      → IsErased capacity j t u
      → IsPlaced capacity hash t
      → IsPlaced capacity hash u
  IsErased-IsPlaced capacity j hash t u e placed i k occupied held = elim (ℕ_discrete i j) [
    | yes p ↦
        let now : get_elem? u.states i ≡ some SlotState.tombstone =
          ap (get_elem? u.states) p ∙ e.tombstone in
        absurd cc
    | no p ↦
        let (n, at, clear) = placed i k (sym (e.states i p) ∙ occupied) (sym (e.keys i p) ∙ held) in
        (
          n,
          at,
          λ m lt.
              IsErased-not-IsEmpty capacity j t u e (slot_at capacity (hash k % capacity) m)
                (clear m lt),
        )
  ]

  -- The table with slot `j` wiped.
  abbrev pub wiped : Table W K E → ℕ → K → E → W → Table W K E
  wiped t j key elem w = record {
    elems = set t.elems j elem;
    keys = set t.keys j key;
    states = set t.states j SlotState.tombstone;
    world = w;
  }

  pub wiped-IsErased :
      (capacity j : ℕ) (t : Table W K E) (key : K) (elem : E) (w : W)
      → j < capacity
      → IsTable capacity t
      → IsErased capacity j t (wiped t j key elem w)
  wiped-IsErased capacity j t key elem w h table = record {
    tombstone = get_elem?-set_self t.states j SlotState.tombstone (omega (arith, table.states));
    states = λ i ne. get_elem?-set_ne t.states j i SlotState.tombstone (λ e. ne (sym e));
    keys = λ i ne. get_elem?-set_ne t.keys j i key (λ e. ne (sym e));
    elems = λ i ne. get_elem?-set_ne t.elems j i elem (λ e. ne (sym e));
    table = record {
      elems = length-set t.elems j elem ∙ table.elems;
      keys = length-set t.keys j key ∙ table.keys;
      states = length-set t.states j SlotState.tombstone ∙ table.states;
    };
  }
