-- ===== src/HashMap/Tests.antt =====
-- The hash map at work: numbers as keys and elements, in four slots.
use c_base.Base.{
  ℕ, zero, suc, ◌%◌, ◌<◌, ◌≡◌, ◌==◌, refl, none, some, true, false, List, [], ◌∷◌, arith, inl,
  ==→eq,
}
use c_base.Base.Run.{ok, fault, Fault, Returns}
use c_base.Arena.{ArenaCtx, arena_vtable}
use c_base.HashMap.{SlotState, HashStrategy, State, Memory}
use c_base.HashMap.Entries.{IsMap, hashmap_has_full}
use c_base.HashMap.Store.{IsTransferable}
use c_base.HashMap.Lookup.{
  hashmap_freestanding_hash, hashmap_hash, find_loop, hashmap_has, hashmap_at,
}
use c_base.HashMap.Modify.{Target, insert_loop, hashmap_insert, hashmap_remove}
use c_base.HashMap.Probe.{slot_at, Skipped, IsEmpty}
use c_base.HashMap.Remove.{MaybeRemoved, hashmap_remove-MaybeRemoved}
use c_base.HashMap.Wipe.{IsWipeable}
use c_base.HashMap.Search.{IsKeyed, IsPlaced}
use c_base.HashMap.Slots.{
  table_of, call_hash, call_equals, transfer, wipe, hashmap_insert_at_location,
  hashmap_insert_at_slot, hashmap_remove_at_slot, invalid_index,
}
use c_base.Policy.{ElementPolicy, Lifetime}

abbrev pub Numbers : Type 0
Numbers = State ArenaCtx (Unit {0}) ℕ ℕ

-- A number is its own hash.
abbrev number : ElementPolicy (Unit {0}) ℕ
number = record {
  ctor = none;
  dtor = none;
  copy = some (λ w d e. ok (e, w));
  move = none;
  equals = some (λ w a b. ok (a == b));
  compare = none;
  hash = some (λ w a. ok a);
}

abbrev pub numbers : Lifetime (Unit {0}) ℕ
numbers = some (record { policy = some number })

abbrev pub map_of : List ℕ → List ℕ → List SlotState → ℕ → ℕ → Numbers
map_of elems keys states count capacity = record {
  map = record {
    buffer = some (record { address = 4096; cells = elems });
    keys_buffer = some (record { address = 5120; cells = keys });
    meta_buffer = some (record { address = 6144; cells = states });
    elem_count = count;
    capacity = capacity;
    key_size = 8;
    elem_size = 8;
    key_alignment = 8;
    elem_alignment = 8;
    allocator = some arena_vtable;
    key_lifetime = numbers;
    elem_lifetime = none;
    hash_strategy = HashStrategy.recompute;
  };
  heap = record { buffer = 4096; capacity = 4096; offset = 3072 };
  world = tt;
}

-- Key 5 is at home in slot 1, and 9 has come to slot 2 behind it; 7 has been removed from slot 3.
abbrev pub two_keys : Numbers
two_keys =
    map_of (50 ∷ 51 ∷ 52 ∷ 53 ∷ []) (0 ∷ 5 ∷ 9 ∷ 0 ∷ [])
      (SlotState.empty ∷ SlotState.occupied ∷ SlotState.occupied ∷ SlotState.tombstone ∷ []) 2 4

-- One slot, from which the only key has been removed.
abbrev worn : Numbers
worn = map_of (0 ∷ []) (0 ∷ []) (SlotState.tombstone ∷ []) 0 1

abbrev pub zeros : Memory ℕ ℕ
zeros = record {
  fresh_elem = λ a i. 0;
  fresh_key = λ a i. 0;
  fresh_state = λ a i. SlotState.empty;
  zero_elem = 0;
  zero_key = 0;
}

run_all : Unit {0}
unfolding hashmap_has hashmap_at hashmap_hash hashmap_freestanding_hash find_loop call_hash
    call_equals hashmap_remove hashmap_insert insert_loop transfer wipe hashmap_insert_at_location
    hashmap_insert_at_slot hashmap_remove_at_slot
run_all = tt

has_runs : hashmap_has 9 two_keys ≡ ok true
unfolding run_all
has_runs = refl

at_runs : hashmap_at 9 two_keys ≡ ok (some 2)
unfolding run_all
at_runs = refl

lacks_runs : hashmap_has 6 two_keys ≡ ok false
unfolding run_all
lacks_runs = refl

pub numbers-IsKeyed : IsKeyed numbers (λ n. n) ◌==◌
unfolding call_hash call_equals
numbers-IsKeyed = record {
  checked = refl;
  checked_hash = refl;
  hashes = λ w k. refl;
  compares = λ w k other. refl;
  congruent = λ k other e. ==→eq k other e;
}

pub home_taken : (m : ℕ) → m < 1 → ¬ IsEmpty (table_of two_keys) (slot_at 4 (9 % 4) m)
home_taken zero lt e = cc
home_taken (suc m) lt e = omega arith

two-IsPlaced : IsPlaced 4 (λ n. n) (table_of two_keys)
two-IsPlaced zero k occupied held = absurd (cc)
two-IsPlaced (suc zero) k occupied held =
    let here : k ≡ 5 = cc in (0, rw here refl, λ m lt. absurd (omega arith))
two-IsPlaced (suc (suc zero)) k occupied held =
    let here : k ≡ 9 = cc in (1, rw here refl, rw here home_taken)
two-IsPlaced (suc (suc (suc zero))) k occupied held = absurd (cc)
two-IsPlaced (suc (suc (suc (suc j)))) k occupied held = absurd (cc)

two_keys-IsMap : IsMap (λ n. n) ◌==◌ two_keys
two_keys-IsMap = record {
  keyed = numbers-IsKeyed;
  elems = (none, refl);
  table = record { elems = refl; keys = refl; states = refl };
  placed = two-IsPlaced;
  vacancy = (0, omega arith, refl);
}

pub wipes_numbers : IsWipeable 0 numbers
unfolding wipe
wipes_numbers = (some number, refl, refl, λ w slot. ((0, w), refl, tt))

pub wipes_bytes : IsWipeable 0 two_keys.map.elem_lifetime
unfolding wipe
wipes_bytes = (none, refl, refl, λ w slot. ((0, w), refl, tt))

hashmap_remove_example :
    Returns (hashmap_remove zeros 9 two_keys) (MaybeRemoved (λ n. n) ◌==◌ 9 two_keys)
hashmap_remove_example =
    hashmap_remove-MaybeRemoved zeros 9 two_keys two_keys-IsMap wipes_numbers wipes_bytes refl
      (omega arith)

worn-Skipped : (j : ℕ) → j < 1 → Skipped (◌==◌ 3) (table_of worn) j
worn-Skipped zero h = inl refl
worn-Skipped (suc j) h = absurd (omega arith)

full_example : hashmap_has 3 worn ≡ fault Fault.unreachable
full_example =
    hashmap_has_full 3 worn numbers-IsKeyed refl
      (record { elems = refl; keys = refl; states = refl }) (omega arith) worn-Skipped

probe_runs : insert_loop numbers 4 13 (table_of two_keys) 4 1 invalid_index ≡ ok (Target.vacant 3)
unfolding run_all
probe_runs = refl

pub copies_numbers : IsTransferable false numbers
unfolding transfer
copies_numbers = (some number, refl, refl, λ w dest src. ((src, src, w), refl, refl))

pub copies_bytes : IsTransferable false two_keys.map.elem_lifetime
unfolding transfer
copies_bytes = (none, refl, refl, λ w dest src. ((src, src, w), refl, refl))
