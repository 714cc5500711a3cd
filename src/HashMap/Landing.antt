-- ===== src/HashMap/Landing.antt =====
-- Where an insertion goes: the probe of `hashmap_insert_any`.
use native.Mathlib.Nat.{mod-lt, mod-add-mod}
use c_base.Base.{
  ℕ, zero, suc, ◌+◌, ◌%◌, ◌≤◌, ◌<◌, ◌≡◌, refl, ap, ◌∙◌, ◌⊎◌, inl, inr, some, Bool, false, arith,
  get_elem?, get_elem?_in_range, Bool-cases, ◌==◌, if◌then◌else◌, dec_lt, eq→==,
}
use mathlib.Core.Path.{subst}
use c_base.Base.Cells.{load-ok}
use c_base.Base.Run.{Run, ok, fault, Fault, ◌>>=◌}
use c_base.HashMap.{SlotState}
use c_base.HashMap.Modify.{Target, insert_loop}
use c_base.HashMap.Probe.{
  slot_at, slot_at-zero, IsTable, Compares, Holds, Skipped, IsEmpty, AllSkipped,
}
use c_base.HashMap.Slots.{Table, invalid_index}
use c_base.Policy.{Lifetime}

module _ {W K E : Type 0} where
  abbrev pub IsTombstone : Table W K E → ℕ → Type 0
  IsTombstone t j = get_elem? t.states j ≡ some SlotState.tombstone

  -- one of the first `n` slots from `home` on, and a tombstone
  abbrev Candidate : Table W K E → ℕ → ℕ → ℕ → ℕ → Type 0
  Candidate t capacity home n j =
      (m : ℕ) × (m < n) × (slot_at capacity home m ≡ j) × IsTombstone t j

  -- Where the loop stops after at most `limit` probes from `home` on: at the first slot with an equal
  -- key; or, when an empty slot comes first, at it if no tombstone was passed and otherwise at a
  -- tombstone before it; or in the unreachable branch if there is neither.
  pub data Landing (test : K → Bool) (t : Table W K E) (capacity home limit : ℕ)
      : Run Target → Type 0 where
    over :
        (n j : ℕ)
        → n < limit
        → AllSkipped test t capacity home n
        → slot_at capacity home n ≡ j
        → Holds test t j
        → Landing test t capacity home limit (ok (Target.replace j))
    on_empty :
        (n j : ℕ)
        → n < limit
        → AllSkipped test t capacity home n
        → slot_at capacity home n ≡ j
        → IsEmpty t j
        → Landing test t capacity home limit (ok (Target.vacant j))
    on_tombstone :
        (n m j : ℕ)
        → n < limit
        → AllSkipped test t capacity home n
        → IsEmpty t (slot_at capacity home n)
        → m < n
        → slot_at capacity home m ≡ j
        → IsTombstone t j
        → Landing test t capacity home limit (ok (Target.vacant j))
    exhausted :
        AllSkipped test t capacity home limit
        → Landing test t capacity home limit (fault Fault.unreachable)

  AllSkipped-more :
      (test : K → Bool) (t : Table W K E) (capacity home n : ℕ)
      → AllSkipped test t capacity home n
      → Skipped test t (slot_at capacity home n)
      → AllSkipped test t capacity home (suc n)
  AllSkipped-more test t capacity home n all last m lt = elim (dec_lt m n) [
    | yes p ↦ all m p
    | no p ↦
        subst (λ k. Skipped test t (slot_at capacity home k)) {x = n} {y = m} (omega arith) last
  ]

slot_at-next :
    (capacity home n : ℕ) → (slot_at capacity home n + 1) % capacity ≡ slot_at capacity home (suc n)
slot_at-next capacity home n =
    mod-add-mod (home + n) capacity 1
    ∙ ap (λ k. k % capacity) {x = home + n + 1} {y = home + suc n} (omega arith)

module _ {W K E : Type 0} (lifetime : Lifetime W K) (capacity : ℕ) (key : K) (t : Table W K E) where
  module _ (test : K → Bool) (law : Compares lifetime key test t) (table : IsTable capacity t)
      (home : ℕ) (pos : 0 < capacity) (small : capacity ≤ invalid_index) where
    at_vacant :
        (n limit tombstone : ℕ)
        → n < limit
        → AllSkipped test t capacity home n
        → IsEmpty t (slot_at capacity home n)
        → (tombstone ≡ invalid_index) ⊎ Candidate t capacity home n tombstone
        → Landing test t capacity home limit (
            ok (
              Target.vacant
                (if tombstone == invalid_index then slot_at capacity home n else tombstone)))
    at_vacant n limit tombstone lt all empty (inl e) =
        rw (eq→== tombstone invalid_index e)
          (Landing.on_empty n (slot_at capacity home n) lt all refl empty)
    at_vacant n limit tombstone lt all empty (inr (m, before, at, is)) =
        rw differs (Landing.on_tombstone n m tombstone lt all empty before at is)
      where
        differs : (tombstone == invalid_index) ≡ false
        differs = ground (arith, at, mod-lt (home + m) pos)

    insert_loop-at :
        (left n limit tombstone : ℕ)
        → n + left ≡ limit
        → AllSkipped test t capacity home n
        → (tombstone ≡ invalid_index) ⊎ Candidate t capacity home n tombstone
        → Landing test t capacity home limit
            (insert_loop lifetime capacity key t left (slot_at capacity home n) tombstone)
    unfolding insert_loop
    insert_loop-at zero n limit tombstone e all c =
        Landing.exhausted
          (subst (AllSkipped test t capacity home) {x = n} {y = limit} (omega arith) all)
    insert_loop-at (suc left) n limit tombstone e all c =
        let index = slot_at capacity home n in
        let (state, read) =
          get_elem?_in_range t.states index (omega (arith, table.states, mod-lt (home + n) pos)) in
        let (other, held) =
          get_elem?_in_range t.keys index (omega (arith, table.keys, mod-lt (home + n) pos)) in
        at_state state read other held (λ last tomb c'. rw (slot_at-next capacity home n) (
          insert_loop-at left (suc n) limit tomb (omega arith)
            (AllSkipped-more test t capacity home n all last) c'))
      where
        later :
            (tombstone ≡ invalid_index) ⊎ Candidate t capacity home n tombstone
            → (tombstone ≡ invalid_index) ⊎ Candidate t capacity home (suc n) tombstone
        later (inl h) = inl h
        later (inr (m, lt, at, is)) = inr (m, omega arith, at, is)

        at_state :
            (state : SlotState)
            → get_elem? t.states (slot_at capacity home n) ≡ some state
            → (other : K) → get_elem? t.keys (slot_at capacity home n) ≡ some other
            → (Skipped test t (slot_at capacity home n)
                → (tomb : ℕ) → (tomb ≡ invalid_index) ⊎ Candidate t capacity home (suc n) tomb
                → Landing test t capacity home limit (
                    insert_loop lifetime capacity key t left
                      ((slot_at capacity home n + 1) % capacity)
                      tomb))
            → Landing test t capacity home limit
                (insert_loop lifetime capacity key t (suc left) (slot_at capacity home n) tombstone)
        at_state SlotState.empty read other held next =
            rw (load-ok t.states (slot_at capacity home n) SlotState.empty read, ◌>>=◌)
              (at_vacant n limit tombstone (omega arith) all read c)
        at_state SlotState.tombstone read other held next =
            rw (load-ok t.states (slot_at capacity home n) SlotState.tombstone read, ◌>>=◌)
              (next (inl read) (slot_at capacity home n) (inr (n, omega arith, refl, read)))
        at_state SlotState.occupied read other held next = elim (Bool-cases (test other)) [
          | inl same ↦
              rw
                (
                  load-ok t.states (slot_at capacity home n) SlotState.occupied read,
                  ◌>>=◌,
                  load-ok t.keys (slot_at capacity home n) other held,
                  ◌>>=◌,
                  law other,
                  same,
                  ◌>>=◌,
                )
                (Landing.over n (slot_at capacity home n) (omega arith) all refl
                  (other, read, held, same))
          | inr differs ↦
              rw
                (
                  load-ok t.states (slot_at capacity home n) SlotState.occupied read,
                  ◌>>=◌,
                  load-ok t.keys (slot_at capacity home n) other held,
                  ◌>>=◌,
                  law other,
                  differs,
                  ◌>>=◌,
                )
                (next (inr (other, read, held, differs)) tombstone (later c))
        ]

    -- The insertion loop, from the home slot of the key on, stops at the first slot with an equal
    -- key; or, when an empty slot comes first, goes to that slot if it passed no tombstone, and
    -- otherwise to a tombstone that it passed; or ends in the unreachable branch, and that only if
    -- every slot it may visit is a tombstone or holds another key.
    pub insert_loop-Landing :
        (left : ℕ)
        → home < capacity
        → Landing test t capacity home left
            (insert_loop lifetime capacity key t left home invalid_index)
    insert_loop-Landing left inside =
        subst
          (λ k.
            Landing test t capacity home left
              (insert_loop lifetime capacity key t left k invalid_index))
          (slot_at-zero capacity home inside)
          (insert_loop-at left 0 left invalid_index (omega arith) (λ m lt. absurd (omega arith))
            (inl refl))
