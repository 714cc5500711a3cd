-- ===== src/DynArray/Reserve.antt =====
-- `dynarray_reserve` keeps the contents of an array.
use c_base.Base.{
  ℕ, ◌*◌, ◌≤◌, ◌<◌, ◌≡◌, refl, ap, sym, ◌∙◌, ◌⊎◌, inl, inr, List, Option, none, some, Bool, true,
  false, arith, length, take, take_ext, dec_lt, Option-cases, get_elem?,
}
use c_base.Base.Run.{◌>>=◌, Returns}
use c_base.Base.Word.{word_mod}
use c_base.Buffer.{Buffer}
use c_base.DynArray.{State}
use c_base.DynArray.Size.{replace_buffer, reserve_new, dynarray_reserve}
use c_base.DynArray.Store.{alloc_buffer}
use c_base.DynArray.Transfer.{Carries, IsCarried, relocate-IsCarried}
use c_base.DynArray.View.{
  IsArray, IsCarrying, contents, buffer_cells, HasCells, alloc_buffer-HasCells, free_buffer-total,
  Carries-can,
}
use c_base.Policy.{ElementPolicy}

-- The first cells of the new buffer are those of the old one.
pub carried_same :
    {E : Type 0}
    → (n : ℕ) (dst src result : List E) → n ≤ length dst
    → n ≤ length src
    → IsCarried 0 0 n dst src result
    → take n result ≡ take n src
carried_same n dst src result h k c =
    take_ext n result src (omega (arith, c.same_length)) k (λ i lt.
      ap (get_elem? result) (omega arith) ∙ c.inside i lt ∙ ap (get_elem? src) (omega arith))

pub times_le : (a b c d : ℕ) → a ≤ b → c ≤ d → a * c ≤ b * d
times_le a b c d h k = grind arith

module _ {S W E : Type 0} where
  -- The array is well formed, and holds what it held.
  pub record IsKept (s t : State S W E) : Type 0 where
    pub array : IsArray t.array
    pub same : contents t.array ≡ contents s.array
    pub size : t.array.size ≡ s.array.size
    pub elem_size : t.array.elem_size ≡ s.array.elem_size
    pub lifetime : t.array.elem_lifetime ≡ s.array.elem_lifetime

  -- With success there is room for `capacity` elements, and the contents are kept; without it, the
  -- array is as it was.
  abbrev pub Reserved : ℕ → State S W E → Bool × State S W E → Type 0
  Reserved capacity s (true, t) = IsKept s t × (capacity ≤ t.array.capacity)
  Reserved capacity s (false, t) = t.array ≡ s.array

  pub IsKept-self : (s : State S W E) → IsArray s.array → IsKept s s
  IsKept-self s a = record {
    array = a;
    same = refl;
    size = refl;
    elem_size = refl;
    lifetime = refl;
  }

  abbrev pub Replaced : ℕ → State S W E → State S W E → Type 0
  Replaced capacity s t = IsKept s t × (t.array.capacity ≡ capacity)

module _ {S W E : Type 0} (fresh : ℕ → ℕ → E) where
  pub replace_buffer-Replaced :
      (policy : Option (ElementPolicy W E)) (old new : Buffer E) (capacity : ℕ) (s : State S W E)
      → IsArray s.array
      → Carries policy
      → s.array.buffer ≡ some old
      → length new.cells ≡ capacity
      → s.array.size ≤ capacity
      → capacity * s.array.elem_size < word_mod
      → Returns (replace_buffer fresh policy old new capacity s) (Replaced capacity s)
  unfolding replace_buffer
  replace_buffer-Replaced policy old new capacity s a c e filled room fits =
      let held : length old.cells ≡ s.array.capacity =
        ap (λ b. length (buffer_cells b)) (sym e) ∙ a.cells in
      let ((cells, world), run, carried) =
        relocate-IsCarried policy s.array.size new.cells old.cells s.world c (omega arith)
          (omega (arith, held, a.room)) in
      let (heap, freed, _) = free_buffer-total s.array old s.heap a in
      (
        record {
          array = record (s.array) {
            buffer = some (record { address = new.address; cells = cells });
            capacity = capacity;
          };
          heap = heap;
          world = world;
        },
        rw (run, ◌>>=◌, freed, ◌>>=◌) refl,
        (
          record {
            array = record {
              served = a.served;
              sized = a.sized;
              fits = fits;
              room = room;
              cells = carried.same_length ∙ filled;
            };
            same =
                carried_same s.array.size new.cells old.cells cells (omega arith)
                  (omega (arith, held, a.room)) carried
                ∙ ap (λ b. take s.array.size (buffer_cells b)) (sym e);
            size = refl;
            elem_size = refl;
            lifetime = refl;
          },
          refl,
        ),
      )

  -- the state that `reserve_new` leaves where there was no buffer
  pub first_buffer-Reserved :
      (b : Buffer E) (capacity : ℕ) (heap : S) (s : State S W E)
      → IsArray s.array
      → s.array.buffer ≡ none
      → length b.cells ≡ capacity
      → capacity * s.array.elem_size < word_mod
      → Reserved capacity s (
        true,
        record s { array = record (s.array) { buffer = some b; capacity = capacity }; heap = heap },
      )
  first_buffer-Reserved b capacity heap s a e filled fits = (
    record {
      array = record {
        served = a.served;
        sized = a.sized;
        fits = fits;
        room = omega (arith, nothing);
        cells = filled;
      };
      same =
          ap (λ n. take n b.cells) nothing
          ∙ sym (ap (λ n. take n (buffer_cells s.array.buffer)) nothing);
      size = refl;
      elem_size = refl;
      lifetime = refl;
    },
    omega arith,
  )
    where
      empty : length (buffer_cells s.array.buffer) ≡ 0
      empty = ap (λ o. length (buffer_cells o)) e

      nothing : s.array.size ≡ 0
      nothing = omega (arith, empty, a.cells, a.room)

  pub reserve_new-Reserved :
      (policy : Option (ElementPolicy W E)) (capacity : ℕ) (s : State S W E)
      → IsArray s.array
      → Carries policy
      → s.array.size ≤ capacity
      → capacity * s.array.elem_size < word_mod
      → Returns (reserve_new fresh policy capacity s) (Reserved capacity s)
  unfolding reserve_new
  reserve_new-Reserved policy capacity s a c room fits =
      go (alloc_buffer-HasCells fresh s.array capacity s.heap a fits) (Option-cases s.array.buffer)
    where
      go :
          Returns (alloc_buffer fresh s.array capacity s.heap) (HasCells capacity)
          → (s.array.buffer ≡ none) ⊎ ((old : Buffer E) × (s.array.buffer ≡ some old))
          → Returns (reserve_new fresh policy capacity s) (Reserved capacity s)
      go ((none, heap), run, _) _ = ((false, record s { heap = heap }), rw (run, ◌>>=◌), refl)
      go ((some b, heap), run, filled) (inl e) = (
        (
          true,
          record s {
            array = record (s.array) { buffer = some b; capacity = capacity };
            heap = heap;
          },
        ),
        rw (run, ◌>>=◌, e) refl,
        first_buffer-Reserved b capacity heap s a e filled fits,
      )
      go ((some b, heap), run, filled) (inr (old, e)) =
          let s' : State S W E = record s { heap = heap } in
          let (t, done, r) =
            replace_buffer-Replaced policy old b capacity s' a c e filled room fits in
          (
            (true, t),
            rw (run, ◌>>=◌, e, done, ◌>>=◌) refl,
            (
              record {
                array = r.0.array;
                same = r.0.same;
                size = r.0.size;
                elem_size = r.0.elem_size;
                lifetime = r.0.lifetime;
              },
              omega (arith, r.1),
            ),
          )

  -- On a well-formed array whose elements carry over, for a capacity whose size in bytes does not
  -- wrap, `dynarray_reserve` does not fault. With success there is room for that many elements, the
  -- array is well formed and its contents are the same; without, the array is as it was.
  pub dynarray_reserve-Reserved :
      (capacity : ℕ) (s : State S W E)
      → IsArray s.array
      → IsCarrying s.array.elem_lifetime
      → capacity * s.array.elem_size < word_mod
      → Returns (dynarray_reserve fresh capacity s) (Reserved capacity s)
  unfolding dynarray_reserve
  dynarray_reserve-Reserved capacity s a (policy, read, c) fits =
      elim (dec_lt s.array.capacity capacity) [
        | no p ↦ ((true, s), rw (read, ◌>>=◌) (ground arith), (IsKept-self s a, omega arith))
        | yes p ↦
            let (r, run, done) =
              reserve_new-Reserved policy capacity s a c (omega (arith, a.room)) fits in
            (r, rw (read, ◌>>=◌, Carries-can policy c) (ground (arith, run)), done)
      ]
