-- ===== src/DynArray/Tests.antt =====
-- The dynamic array at work: an arena, three numbers in four cells, and the theorems on them.
use c_base.Base.{ℕ, ◌+◌, ◌^◌, ◌≡◌, refl, none, some, Bool, List, [], ◌∷◌, arith, inr}
use c_base.Base.Run.{Run, ok, fault, Fault, Returns}
use c_base.Align.{align_up, check_alignment}
use c_base.Arena.{ArenaCtx, arena_bump, arena_alloc, arena_free, arena_vtable}
use c_base.Arena.Serving.{arena_vtable-IsServing}
use c_base.Arena.Tests.{eight}
use c_base.Buffer.{alloc_cells, free_cells}
use c_base.DynArray.{DynArray, State}
use c_base.DynArray.Copy.{Copied, dynarray_copy_walloc-Copied}
use c_base.DynArray.Lifecycle.{dynarray_copy_walloc}
use c_base.DynArray.Append.{MaybeAppended, dynarray_append-MaybeAppended}
use c_base.DynArray.Capacity.{grow_loop_endless}
use c_base.DynArray.Insert.{dynarray_insert-MaybeInserted}
use c_base.DynArray.Erase.{dynarray_remove-Removed}
use c_base.DynArray.Edit.{
  dynarray_push, dynarray_push_unchecked, dynarray_append, dynarray_insert, dynarray_remove,
}
use c_base.DynArray.Grow.{dynarray_ensure_capacity-Reserved}
use c_base.DynArray.Reserve.{Reserved}
use c_base.DynArray.Push.{MaybePushed, dynarray_push-MaybePushed}
use c_base.DynArray.Shift.{Removed, MaybeInserted}
use c_base.DynArray.Size.{grow_loop, dynarray_reserve, dynarray_ensure_capacity}
use c_base.DynArray.Store.{relocate, copy_cells, move_up_loop}
use c_base.DynArray.Transfer.{Moves}
use c_base.DynArray.View.{IsArray, IsCarrying, contents}
use c_base.Policy.{ElementPolicy}

abbrev Numbers : Type 0
Numbers = State ArenaCtx (Unit {0}) ℕ

-- Memory that has just been allocated reads as 0.
abbrev blank : ℕ → ℕ → ℕ
blank address i = 0

abbrev bytes : Numbers
bytes = record {
  array = record {
    buffer = some (record { address = 4096; cells = 7 ∷ 8 ∷ 9 ∷ 0 ∷ [] });
    size = 3;
    capacity = 4;
    elem_size = 8;
    alignment = 8;
    allocator = some arena_vtable;
    elem_lifetime = none;
  };
  heap = record { buffer = 4096; capacity = 512; offset = 32 };
  world = tt;
}

-- `move` takes the number and leaves 0.
abbrev take_over : Unit {0} → ℕ → ℕ → Run (ℕ × ℕ × Unit {0})
take_over w d e = ok (e, 0, w)

abbrev moving : ElementPolicy (Unit {0}) ℕ
moving = record {
  ctor = none;
  dtor = none;
  copy = none;
  move = some take_over;
  equals = none;
  compare = none;
  hash = none;
}

abbrev objects : Numbers
objects = record bytes {
  array = record (bytes.array) { elem_lifetime = some (record { policy = some moving }) };
}

run_all : Unit {0}
unfolding dynarray_push dynarray_append dynarray_insert dynarray_remove dynarray_reserve
    dynarray_ensure_capacity dynarray_push_unchecked arena_alloc arena_bump arena_free align_up
    check_alignment alloc_cells free_cells relocate copy_cells move_up_loop
run_all = tt

abbrev state_of : {A : Type 0} → Run (Bool × A × Numbers) → List ℕ
state_of (ok (_, _, t)) = contents t.array
state_of (fault e) = []

append_runs : state_of (dynarray_append blank (1 ∷ 2 ∷ 3 ∷ []) objects) ≡ 7 ∷ 8 ∷ 9 ∷ 1 ∷ 2 ∷ 3 ∷ []
unfolding run_all
append_runs = refl

insert_runs : state_of (dynarray_insert blank 1 5 bytes) ≡ 7 ∷ 5 ∷ 8 ∷ 9 ∷ []
unfolding run_all
insert_runs = refl

insert_object_runs : state_of (dynarray_insert blank 1 5 objects) ≡ 7 ∷ 5 ∷ 8 ∷ 9 ∷ []
unfolding run_all
insert_object_runs = refl

bytes-IsArray : IsArray bytes.array
bytes-IsArray = record {
  served = (arena_vtable, refl, arena_vtable-IsServing eight (omega arith));
  sized = omega arith;
  fits = omega arith;
  room = omega arith;
  cells = refl;
}

objects-IsArray : IsArray objects.array
objects-IsArray = record {
  served = (arena_vtable, refl, arena_vtable-IsServing eight (omega arith));
  sized = omega arith;
  fits = omega arith;
  room = omega arith;
  cells = refl;
}

bytes-IsCarrying : IsCarrying bytes.array.elem_lifetime
bytes-IsCarrying = (none, refl, tt)

take_over-Moves : Moves take_over
take_over-Moves w d e = ((e, 0, w), refl, refl)

objects-IsCarrying : IsCarrying objects.array.elem_lifetime
objects-IsCarrying = (some moving, refl, take_over-Moves)

ensure_capacity_example : Returns (dynarray_ensure_capacity blank 9 objects) (Reserved 9 objects)
ensure_capacity_example =
    dynarray_ensure_capacity-Reserved blank 9 objects objects-IsArray objects-IsCarrying
      (omega arith)

push_example : Returns (dynarray_push blank 6 objects) (MaybePushed 6 objects)
push_example =
    dynarray_push-MaybePushed blank 6 objects objects-IsArray objects-IsCarrying (omega arith)

append_example :
    Returns
      (dynarray_append blank (1 ∷ 2 ∷ 3 ∷ []) objects)
      (MaybeAppended (1 ∷ 2 ∷ 3 ∷ []) objects)
append_example =
    dynarray_append-MaybeAppended blank (1 ∷ 2 ∷ 3 ∷ []) objects objects-IsArray objects-IsCarrying
      (omega arith)

insert_example : Returns (dynarray_insert blank 1 5 objects) (MaybeInserted 1 5 objects)
insert_example =
    dynarray_insert-MaybeInserted blank 1 5 objects (some moving) objects-IsArray refl
      take_over-Moves tt (omega arith) (omega arith)

dynarray_remove_example : Returns (dynarray_remove 1 objects) (Removed 1 objects)
dynarray_remove_example =
    dynarray_remove-Removed 1 objects (some moving) objects-IsArray refl take_over-Moves tt
      (omega arith)

grow_endless_example : grow_loop 1000 8 (2 ^ 63 + 1) ≡ fault Fault.endless
grow_endless_example = grow_loop_endless 1000 8 (2 ^ 63 + 1) (inr eight) (omega arith)

-- `copy` writes the number.
abbrev write_over : Unit {0} → ℕ → ℕ → Run (ℕ × Unit {0})
write_over w d e = ok (e, w)

abbrev copying : ElementPolicy (Unit {0}) ℕ
copying = record moving { move = none; copy = some write_over }

abbrev copied_from : DynArray ArenaCtx (Unit {0}) ℕ
copied_from = record (bytes.array) { elem_lifetime = some (record { policy = some copying }) }

copied_from-IsArray : IsArray copied_from
copied_from-IsArray = record {
  served = (arena_vtable, refl, arena_vtable-IsServing eight (omega arith));
  sized = omega arith;
  fits = omega arith;
  room = omega arith;
  cells = refl;
}

copy_example :
    Returns
      (dynarray_copy_walloc blank copied_from arena_vtable objects)
      (Copied copied_from objects)
copy_example =
    dynarray_copy_walloc-Copied blank copied_from arena_vtable objects (some copying)
      copied_from-IsArray (arena_vtable-IsServing eight (omega arith)) refl
      (write_over, refl, λ w d e. ((e, w), refl, refl))
