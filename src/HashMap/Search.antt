-- ===== src/HashMap/Search.antt =====
-- Lookups against the entries that a map holds.
use native.Mathlib.Nat.{mod-lt}
use c_base.Base.{
  ℕ, ◌+◌, ◌%◌, ◌<◌, ◌≡◌, refl, ap, inl, inr, Option, none, some, Bool, true, arith, get_elem?,
  dec_lt,
}
use c_base.Base.Run.{Run, ok, fault, Fault, Returns}
use c_base.HashMap.{SlotState}
use c_base.HashMap.Lookup.{find_loop}
use c_base.HashMap.Probe.{
  slot_at, slot_at-onto, IsTable, Holds, Skipped, IsEmpty, AllSkipped, Outcome, find_loop-Outcome,
}
use c_base.HashMap.Slots.{Table, call_hash, call_equals, check_key, check_key_hash}
use c_base.Policy.{Lifetime}

module _ {W K : Type 0} where
  -- The keys hash and compare as these functions do, in every world, and equal keys have equal
  -- hashes.
  pub record IsKeyed (lifetime : Lifetime W K) (hash : K → ℕ) (same : K → K → Bool) : Type 0 where
    pub checked : check_key lifetime ≡ ok tt
    pub checked_hash : check_key_hash lifetime ≡ ok tt
    pub hashes : (w : W) (k : K) → call_hash lifetime w k ≡ ok (hash k)
    pub compares : (w : W) (k other : K) → call_equals lifetime w k other ≡ ok (same k other)
    pub congruent : (k other : K) → same k other ≡ true → hash k ≡ hash other

module _ {W K E : Type 0} where
  -- Every entry is found from the home of its key on before any empty slot.
  abbrev pub IsPlaced : ℕ → (K → ℕ) → Table W K E → Type 0
  IsPlaced capacity hash t =
      (j : ℕ) (k : K)
      → get_elem? t.states j ≡ some SlotState.occupied
      → get_elem? t.keys j ≡ some k
      → (n : ℕ) × (slot_at capacity (hash k % capacity) n ≡ j)
        × ((m : ℕ) → m < n → ¬ IsEmpty t (slot_at capacity (hash k % capacity) m))

  pub Skipped-not-IsEmpty :
      (test : K → Bool) (t : Table W K E) (j : ℕ) → Skipped test t j → ¬ IsEmpty t j
  Skipped-not-IsEmpty test t j (inl e) f = cc
  Skipped-not-IsEmpty test t j (inr (k, e, _, _)) f = cc

  Skipped-not-Holds :
      (test : K → Bool) (t : Table W K E) (j : ℕ) → Skipped test t j → ¬ Holds test t j
  Skipped-not-Holds test t j (inl e) (k, occupied, _, _) = cc
  Skipped-not-Holds test t j (inr (k, _, e, differs)) (k', _, e', same) = cc

  -- What a lookup answers: a slot that holds an equal key, or that there is none.
  abbrev pub Answer : (K → Bool) → Table W K E → Option ℕ → Type 0
  Answer test t (some j) = Holds test t j
  Answer test t none = (j : ℕ) → ¬ Holds test t j

module _ {W K E : Type 0} {lifetime : Lifetime W K} {hash : K → ℕ} {same : K → K → Bool}
    (keyed : IsKeyed lifetime hash same) (capacity : ℕ) (t : Table W K E)
    (table : IsTable capacity t) where
  -- An entry with an equal key is not behind the first empty slot.
  pub not_behind :
      (key : K) (n : ℕ)
      → IsPlaced capacity hash t
      → AllSkipped (same key) t capacity (hash key % capacity) n
      → IsEmpty t (slot_at capacity (hash key % capacity) n)
      → (j : ℕ) → ¬ Holds (same key) t j
  not_behind key n placed all empty j (k, occupied, held, equal) = reach (placed j k occupied held)
    where
      home : hash key % capacity ≡ hash k % capacity
      home = ap (λ h. h % capacity) (keyed.congruent key k equal)

      reach :
          (d : ℕ) × (slot_at capacity (hash k % capacity) d ≡ j)
            × ((m : ℕ) → m < d → ¬ IsEmpty t (slot_at capacity (hash k % capacity) m))
          → ⊥
      reach (d, at, clear) = elim (dec_lt d n) [
        | yes p ↦
            Skipped-not-Holds (same key) t (slot_at capacity (hash key % capacity) d) (all d p)
              (rw (home, at) (k, occupied, held, equal))
        | no p ↦ elim (dec_lt n d) [
          | yes q ↦ clear n q (rw (← home) empty)
          | no q ↦
              let same_step : n ≡ d = omega arith in
              absurd (cc (rw (home, same_step, at) at empty, occupied))
        ]
      ]

  module _ (pos : 0 < capacity) (placed : IsPlaced capacity hash t) where
    -- With an empty slot somewhere, the loop returns, with a slot that holds an equal key or with
    -- the answer that there is none.
    pub find_loop-Answer :
        (key : K) (e : ℕ)
        → e < capacity
        → IsEmpty t e
        → Returns
            (find_loop lifetime capacity key t capacity (hash key % capacity))
            (Answer (same key) t)
    find_loop-Answer key e inside empty = from _ refl (
        find_loop-Outcome lifetime capacity key t (same key) (keyed.compares t.world key) table
          capacity (hash key % capacity) (mod-lt (hash key) pos))
      where
        from :
            (r : Run (Option ℕ))
            → find_loop lifetime capacity key t capacity (hash key % capacity) ≡ r
            → Outcome (same key) t capacity (hash key % capacity) capacity r
            → Returns
                (find_loop lifetime capacity key t capacity (hash key % capacity))
                (Answer (same key) t)
        from r run (Outcome.found n j lt all at holds) = (some j, run, holds)
        from r run (Outcome.missing n j lt all at gone) =
            (none, run, not_behind key n placed all (rw at gone))
        from r run (Outcome.exhausted all) =
            let (m, lt, at) =
              slot_at-onto capacity (hash key % capacity) e (mod-lt (hash key) pos) inside in
            absurd (Skipped-not-IsEmpty (same key) t e (rw at at (all m lt)) empty)

  -- With no empty slot and no entry with an equal key, the loop ends in the unreachable branch.
  pub find_loop-full :
      (key : K)
      → 0 < capacity
      → ((j : ℕ) → j < capacity → Skipped (same key) t j)
      → find_loop lifetime capacity key t capacity (hash key % capacity) ≡ fault Fault.unreachable
  find_loop-full key pos full = from _ refl (
      find_loop-Outcome lifetime capacity key t (same key) (keyed.compares t.world key) table
        capacity (hash key % capacity) (mod-lt (hash key) pos))
    where
      at_slot : (n : ℕ) → Skipped (same key) t (slot_at capacity (hash key % capacity) n)
      at_slot n =
          full (slot_at capacity (hash key % capacity) n) (mod-lt (hash key % capacity + n) pos)

      from :
          (r : Run (Option ℕ))
          → find_loop lifetime capacity key t capacity (hash key % capacity) ≡ r
          → Outcome (same key) t capacity (hash key % capacity) capacity r
          → find_loop lifetime capacity key t capacity (hash key % capacity)
            ≡ fault Fault.unreachable
      from r run (Outcome.found n j lt all at holds) =
          absurd (Skipped-not-Holds (same key) t j (rw at at (at_slot n)) holds)
      from r run (Outcome.missing n j lt all at gone) =
          absurd (Skipped-not-IsEmpty (same key) t j (rw at at (at_slot n)) gone)
      from r run (Outcome.exhausted all) = run
