-- ===== src/HashMap/Model.antt =====
-- The hash map as a finite map from keys to elements.
use c_base.Base.{
  ℕ, ◌<◌, ◌≡◌, refl, ◌≢◌, sym, ◌∙◌, Option, none, some, Bool, true, false, arith, get_elem?,
  get_elem?_in_range, lt-length_of_get_elem?, if◌then◌else◌, inl, inr, Option-cases,
}
use mathlib.Core.Path.{subst}
use c_base.Base.Run.{Returns}
use c_base.HashMap.{SlotState, State}
use c_base.HashMap.Entries.{IsMap, Present, hashmap_has-Present, hashmap_at-Answer}
use c_base.HashMap.Lookup.{hashmap_has, hashmap_at}
use c_base.HashMap.Probe.{Holds, IsEmpty}
use c_base.HashMap.Search.{Answer}
use c_base.HashMap.Slots.{Table, table_of}
use c_base.Policy.{is_some}

-- `equals` is an equivalence.
pub record IsEquality {K : Type 0} (same : K → K → Bool) : Type 0 where
  pub same_refl : (k : K) → same k k ≡ true
  pub same_sym : (a b : K) → same a b ≡ true → same b a ≡ true
  pub same_trans : (a b c : K) → same a b ≡ true → same b c ≡ true → same a c ≡ true

module _ {K E : Type 0} where
  -- The finite map with an element put under a key, and with a key taken out.
  abbrev pub put : (K → K → Bool) → (K → Option E) → K → E → K → Option E
  put same f key elem k = if same key k then some elem else f k

  abbrev pub erase : (K → K → Bool) → (K → Option E) → K → K → Option E
  erase same f key k = if same key k then none else f k

module _ {W K E : Type 0} where
  abbrev pub IsUnique : (K → K → Bool) → Table W K E → Type 0
  IsUnique same t = (k : K) (i j : ℕ) → Holds (same k) t i → Holds (same k) t j → i ≡ j

  -- A slot holds an equal key and this element.
  abbrev pub Binds : (K → K → Bool) → Table W K E → K → E → Type 0
  Binds same t k v = (j : ℕ) × Holds (same k) t j × (get_elem? t.elems j ≡ some v)

  -- what the slot that a lookup returns holds
  abbrev pub value_at : Table W K E → Option ℕ → Option E
  value_at t none = none
  value_at t (some j) = get_elem? t.elems j

  pub Holds-other :
      {same : K → K → Bool} (eq : IsEquality same) (t : Table W K E) (a b : K) (i : ℕ)
      → same a b ≡ true
      → Holds (same b) t i
      → Holds (same a) t i
  Holds-other eq t a b i e (k, occupied, held, equal) =
      (k, occupied, held, eq.same_trans a b k e equal)

  -- Two keys that one slot holds are equal.
  pub Holds-both :
      {same : K → K → Bool} (eq : IsEquality same) (t : Table W K E) (a b : K) (i : ℕ)
      → Holds (same a) t i
      → Holds (same b) t i
      → same a b ≡ true
  Holds-both {same} eq t a b i (k, _, held, equal) (k', _, held', equal') =
      eq.same_trans a k b equal (eq.same_sym b k (subst (λ x. same b x ≡ true) one equal'))
    where
      one : k' ≡ k
      one = cc

module _ {S W K E : Type 0} where
  -- A well-formed map that has at most one slot for a key, and holds what the finite map says.
  pub record Represents (hash : K → ℕ) (same : K → K → Bool) (s : State S W K E) (f : K → Option E)
      : Type 0 where
    pub map : IsMap hash same s
    pub unique : IsUnique same (table_of s)
    pub sound : (k : K) (v : E) → Binds same (table_of s) k v → f k ≡ some v
    pub complete : (k : K) (v : E) → f k ≡ some v → Binds same (table_of s) k v

  -- two empty slots
  abbrev pub IsRoomy : State S W K E → Type 0
  IsRoomy s =
      (e : ℕ) × (e' : ℕ) × (e ≢ e')
      × (e < s.map.capacity)
      × (e' < s.map.capacity)
      × IsEmpty (table_of s) e
      × IsEmpty (table_of s) e'

module _ {S W K E : Type 0} {hash : K → ℕ} {same : K → K → Bool} (s : State S W K E)
    (f : K → Option E) (r : Represents hash same s f) where
  Holds-elem :
      (k : K) (j : ℕ)
      → Holds (same k) (table_of s) j
      → (v : E) × (get_elem? (table_of s).elems j ≡ some v)
  Holds-elem k j (k', occupied, _, _) = get_elem?_in_range (table_of s).elems j (
      omega (
        arith,
        r.map.table.states,
        r.map.table.elems,
        lt-length_of_get_elem? (table_of s).states j SlotState.occupied occupied,
      ))

  -- On a map that represents a finite map, `hashmap_has` and `hashmap_at` do not fault. The one returns
  -- whether the finite map has something for the key, the other a slot that holds it, or null if it has
  -- nothing.
  pub hashmap_at-value :
      (key : K)
      → Returns (hashmap_has key s) (λ present. present ≡ is_some (f key))
        × Returns (hashmap_at key s) (λ found. value_at (table_of s) found ≡ f key)
  hashmap_at-value key =
      let (present, has_run, p) = hashmap_has-Present key s r.map in
      let (found, run, answer) = hashmap_at-Answer key s r.map in
      ((present, has_run, has present p), (found, run, go found answer))
    where
      has : (present : Bool) → Present (same key) (table_of s) present → present ≡ is_some (f key)
      has true (j, holds) =
          let (v, e) = Holds-elem key j holds in rw (r.sound key v (j, holds, e)) refl
      has false missing = elim (Option-cases (f key)) [
        | inl e ↦ rw e refl
        | inr (v, e) ↦ let (j, holds, _) = r.complete key v e in absurd (missing j holds)
      ]

      go :
          (found : Option ℕ)
          → Answer (same key) (table_of s) found
          → value_at (table_of s) found ≡ f key
      go none answer = elim (Option-cases (f key)) [
        | inl e ↦ sym e
        | inr (v, e) ↦ let (j, holds, _) = r.complete key v e in absurd (answer j holds)
      ]
      go (some j) holds =
          let (v, e) = Holds-elem key j holds in e ∙ sym (r.sound key v (j, holds, e))
