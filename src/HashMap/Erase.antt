-- ===== src/HashMap/Erase.antt =====
-- `hashmap_remove` on the finite map.
use c_base.Base.{
  ℕ, ◌<◌, ◌≡◌, ◌≢◌, ap, sym, ◌∙◌, Option, none, some, Bool, true, false, get_elem?, inl, inr,
  Bool-cases,
}
use mathlib.Core.Path.{subst}
use c_base.Base.Run.{Returns}
use c_base.HashMap.{SlotState, State, Memory}
use c_base.HashMap.Model.{IsEquality, erase, Binds, Holds-other, Holds-both, Represents}
use c_base.HashMap.Modify.{hashmap_remove}
use c_base.HashMap.Probe.{Holds}
use c_base.HashMap.Remove.{IsRemoved, MaybeRemoved, hashmap_remove-MaybeRemoved}
use c_base.HashMap.Wipe.{IsWipeable}
use c_base.HashMap.Slots.{table_of}
use c_base.Policy.{is_some}

module _ {S W K E : Type 0} {hash : K → ℕ} {same : K → K → Bool} (eq : IsEquality same) (key : K)
    (s : State S W K E) (f : K → Option E) (r : Represents hash same s f) where
  module _ (t : State S W K E) (j : ℕ) (gone : Holds (same key) (table_of s) j)
      (i : IsRemoved hash same j s t) where
    elsewhere : (k : K) (l : ℕ) → Holds (same k) (table_of t) l → l ≢ j
    elsewhere k l (k', occupied, _, _) p = absurd (cc (now, i.erased.tombstone))
      where
        now : get_elem? (table_of t).states j ≡ some SlotState.occupied
        now = sym (ap (get_elem? (table_of t).states) p) ∙ occupied

    old : (k : K) (l : ℕ) → Holds (same k) (table_of t) l → Holds (same k) (table_of s) l
    old k l holds =
        let (k', occupied, held, equal) = holds in
        let ne = elsewhere k l holds in
        (k', sym (i.erased.states l ne) ∙ occupied, sym (i.erased.keys l ne) ∙ held, equal)

    new : (k : K) (l : ℕ) → l ≢ j → Holds (same k) (table_of s) l → Holds (same k) (table_of t) l
    new k l ne (k', occupied, held, equal) =
        (k', i.erased.states l ne ∙ occupied, i.erased.keys l ne ∙ held, equal)

    -- Another slot does not hold the key, and the slot held no other key.
    different : (k : K) (l : ℕ) → Holds (same k) (table_of t) l → same key k ≡ false
    different k l holds = elim (Bool-cases (same key k)) [
      | inr e ↦ e
      | inl e ↦ absurd (
          elsewhere k l holds
            (r.unique key l j (Holds-other eq (table_of s) key k l e (old k l holds)) gone))
    ]

    kept : (k : K) (l : ℕ) → same key k ≡ false → Holds (same k) (table_of s) l → l ≢ j
    kept k l e holds p = absurd (
        cc (
          e,
          Holds-both eq (table_of s) key k j gone (subst (Holds (same k) (table_of s)) p holds),
        ))

    erase_complete : (k : K) (v : E) → erase same f key k ≡ some v → Binds same (table_of t) k v
    erase_complete k v found = elim (Bool-cases (same key k)) [
      | inl e ↦ let never : none ≡ some v = rw e at found in absurd (cc never)
      | inr e ↦
          let was : f k ≡ some v = rw e at found in
          let (l, holds, value) = r.complete k v was in
          let ne = kept k l e holds in (l, new k l ne holds, i.erased.elems l ne ∙ value)
    ]

    erase-Represents : Represents hash same t (erase same f key)
    erase-Represents = record {
      map = i.map;
      unique = λ k l l' h h'. r.unique k l l' (old k l h) (old k l' h');
      sound = λ k v (l, holds, value).
          rw (different k l holds)
            (r.sound k v (l, old k l holds, sym (i.erased.elems l (elsewhere k l holds)) ∙ value));
      complete = erase_complete;
    }

  absent-Represents :
      ((j : ℕ) → ¬ Holds (same key) (table_of s) j) → Represents hash same s (erase same f key)
  absent-Represents missing = record {
    map = r.map;
    unique = r.unique;
    sound = λ k v (l, holds, value). elim (Bool-cases (same key k)) [
      | inl e ↦ absurd (missing l (Holds-other eq (table_of s) key k l e holds))
      | inr e ↦ rw e (r.sound k v (l, holds, value))
    ];
    complete = λ k v found. elim (Bool-cases (same key k)) [
      | inl e ↦ let never : none ≡ some v = rw e at found in absurd (cc never)
      | inr e ↦ r.complete k v (rw e at found)
    ];
  }

  -- On a map that represents a finite map, that counts at least one entry, and whose destructors do
  -- not fault, `hashmap_remove` does not fault, and the map represents the finite map without the key.
  pub hashmap_remove-Represents :
      (memory : Memory K E)
      → IsWipeable memory.zero_key s.map.key_lifetime
      → IsWipeable memory.zero_elem s.map.elem_lifetime
      → is_some s.map.key_lifetime ≡ true
      → 0 < s.map.elem_count
      → Returns
          (hashmap_remove memory key s)
          (λ result. Represents hash same result.1 (erase same f key))
  hashmap_remove-Represents memory wk we given counted =
      let (result, run, post) =
        hashmap_remove-MaybeRemoved memory key s r.map wk we given counted in
      (result, run, go result post)
    where
      go :
          (result : Bool × State S W K E)
          → MaybeRemoved hash same key s result
          → Represents hash same result.1 (erase same f key)
      go (true, t) (j, gone, i) = erase-Represents t j gone i
      go (false, t) (is, missing) =
          subst (λ u. Represents hash same u (erase same f key)) (sym is)
            (absent-Represents missing)
