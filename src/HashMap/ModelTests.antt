-- ===== src/HashMap/ModelTests.antt =====
-- The hash map as a finite map at work: two numbers in four slots, of which two are empty.
use c_base.Base.{
  ℕ, zero, suc, ◌%◌, ◌<◌, ◌≡◌, ◌⊎◌, ◌==◌, refl, sym, ◌∙◌, Option, none, some, [], ◌∷◌, arith, inl,
  inr, ==→eq, eq→==, if◌then◌else◌, Bool-cases,
}
use c_base.Base.Run.{Returns}
use c_base.HashMap.{SlotState}
use c_base.HashMap.Entries.{IsMap}
use c_base.HashMap.Erase.{hashmap_remove-Represents}
use c_base.HashMap.Lookup.{hashmap_has, hashmap_at}
use c_base.HashMap.Model.{
  IsEquality, erase, Represents, value_at, hashmap_at-value, IsUnique, Binds,
}
use c_base.HashMap.Modify.{hashmap_remove}
use c_base.HashMap.Probe.{slot_at, IsEmpty, Holds}
use c_base.HashMap.Search.{IsPlaced}
use c_base.HashMap.Slots.{table_of}
use c_base.Policy.{is_some}
use c_base.HashMap.Tests.{Numbers, map_of, zeros, numbers-IsKeyed, wipes_numbers, wipes_bytes}

abbrev roomy : Numbers
roomy =
    map_of (50 ∷ 51 ∷ 52 ∷ 53 ∷ []) (0 ∷ 5 ∷ 9 ∷ 0 ∷ [])
      (SlotState.empty ∷ SlotState.occupied ∷ SlotState.occupied ∷ SlotState.empty ∷ []) 2 4

-- what is in it
abbrev contents : ℕ → Option ℕ
contents k = if k == 5 then some 51 else if k == 9 then some 52 else none

numbers-IsEquality : IsEquality ◌==◌
numbers-IsEquality = record {
  same_refl = λ k. eq→== k k refl;
  same_sym = λ a b e. eq→== b a (sym (==→eq a b e));
  same_trans = λ a b c e e'. eq→== a c (==→eq a b e ∙ ==→eq b c e');
}

behind : (m : ℕ) → m < 1 → ¬ IsEmpty (table_of roomy) (slot_at 4 (9 % 4) m)
behind zero lt e = cc
behind (suc m) lt e = omega arith

roomy-IsPlaced : IsPlaced 4 (λ n. n) (table_of roomy)
roomy-IsPlaced zero k occupied held = absurd cc
roomy-IsPlaced (suc zero) k occupied held =
    let here : k ≡ 5 = cc in (0, rw here refl, λ m lt. absurd (omega arith))
roomy-IsPlaced (suc (suc zero)) k occupied held =
    let here : k ≡ 9 = cc in (1, rw here refl, rw here behind)
roomy-IsPlaced (suc (suc (suc zero))) k occupied held = absurd cc
roomy-IsPlaced (suc (suc (suc (suc j)))) k occupied held = absurd cc

roomy-IsMap : IsMap (λ n. n) ◌==◌ roomy
roomy-IsMap = record {
  keyed = numbers-IsKeyed;
  elems = (none, refl);
  table = record { elems = refl; keys = refl; states = refl };
  placed = roomy-IsPlaced;
  vacancy = (0, omega arith, refl);
}

-- the two slots that hold something
roomy-Holds :
    (k j : ℕ) → Holds (◌==◌ k) (table_of roomy) j → ((j ≡ 1) × (k ≡ 5)) ⊎ ((j ≡ 2) × (k ≡ 9))
roomy-Holds k zero (k', occupied, held, equal) = absurd cc
roomy-Holds k (suc zero) (k', occupied, held, equal) =
    let here : k' ≡ 5 = cc in inl (refl, ==→eq k k' equal ∙ here)
roomy-Holds k (suc (suc zero)) (k', occupied, held, equal) =
    let here : k' ≡ 9 = cc in inr (refl, ==→eq k k' equal ∙ here)
roomy-Holds k (suc (suc (suc zero))) (k', occupied, held, equal) = absurd cc
roomy-Holds k (suc (suc (suc (suc j)))) (k', occupied, held, equal) = absurd cc

roomy-IsUnique : IsUnique ◌==◌ (table_of roomy)
roomy-IsUnique k i j h h' = omega (arith, roomy-Holds k i h, roomy-Holds k j h')

roomy_sound : (k v : ℕ) → Binds ◌==◌ (table_of roomy) k v → contents k ≡ some v
roomy_sound k v (j, holds, value) = elim (roomy-Holds k j holds) [
  | inl (at, is) ↦ rw is (rw at at value)
  | inr (at, is) ↦ rw is (rw at at value)
]

roomy_complete : (k v : ℕ) → contents k ≡ some v → Binds ◌==◌ (table_of roomy) k v
roomy_complete k v found = elim (Bool-cases (k == 5)) [
  | inl e ↦ (1, (5, refl, refl, e), rw e at found)
  | inr e ↦ elim (Bool-cases (k == 9)) [
    | inl e' ↦ (2, (9, refl, refl, e'), rw (e, e') at found)
    | inr e' ↦ let never : none ≡ some v = rw (e, e') at found in absurd (cc never)
  ]
]

roomy-Represents : Represents (λ n. n) ◌==◌ roomy contents
roomy-Represents = record {
  map = roomy-IsMap;
  unique = roomy-IsUnique;
  sound = roomy_sound;
  complete = roomy_complete;
}

at_value_example :
    Returns (hashmap_has 9 roomy) (λ present. present ≡ is_some (contents 9))
    × Returns (hashmap_at 9 roomy) (λ found. value_at (table_of roomy) found ≡ contents 9)
at_value_example = hashmap_at-value roomy contents roomy-Represents 9

erase_example :
    Returns
      (hashmap_remove zeros 9 roomy)
      (λ result. Represents (λ n. n) ◌==◌ result.1 (erase ◌==◌ contents 9))
erase_example =
    hashmap_remove-Represents numbers-IsEquality 9 roomy contents roomy-Represents zeros
      wipes_numbers wipes_bytes refl (omega arith)
