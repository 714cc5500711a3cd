-- ===== src/DynArray/Append.antt =====
-- `dynarray_append`: many elements at once.
use c_base.Base.{
  ℕ, suc, ◌+◌, ◌*◌, ◌≤◌, ◌≡◌, refl, ap, sym, ◌∙◌, inl, List, [], ◌∷◌, ◌++◌, none, some, Bool, true,
  false, arith, length, take, take_two, get_elem?, ◌==◌,
}
use c_base.Base.Run.{ok, ◌>>=◌, Returns}
use c_base.Base.Word.{add_size}
use c_base.Buffer.{Buffer}
use c_base.DynArray.{State}
use c_base.DynArray.Edit.{with_cells, with_size, push_all, dynarray_append}
use c_base.DynArray.Grow.{IsRequest, dynarray_ensure_capacity-Reserved}
use c_base.DynArray.Reserve.{Reserved, times_le}
use c_base.DynArray.Push.{IsPushed, dynarray_push_unchecked-Pushed, buffer_of, size_fits}
use c_base.DynArray.Size.{dynarray_ensure_capacity}
use c_base.DynArray.Transfer.{IsCarried, copy_cells-IsCarried}
use c_base.DynArray.View.{IsArray, IsCarrying, contents, buffer_cells}
use c_base.Policy.{check_lifetime}

append_nil : {E : Type 0} → (xs : List E) → xs ++ [] ≡ xs
append_nil [] = refl
append_nil (x ∷ xs) = ap (λ zs. x ∷ zs) (append_nil xs)

append_assoc : {E : Type 0} → (xs ys zs : List E) → (xs ++ ys) ++ zs ≡ xs ++ (ys ++ zs)
append_assoc [] ys zs = refl
append_assoc (x ∷ xs) ys zs = ap (λ ws. x ∷ ws) (append_assoc xs ys zs)

nonempty : (n : ℕ) → (suc n == 0) ≡ false
nonempty n = ground arith

module _ {S W E : Type 0} where
  abbrev AllPushed : List E → State S W E → Bool × List E × State S W E → Type 0
  AllPushed es s (all, es', t) = (all ≡ true) × IsPushed es s t

  push_all-AllPushed :
      (es : List E) (s : State S W E)
      → IsArray s.array
      → IsCarrying s.array.elem_lifetime
      → s.array.size + length es ≤ s.array.capacity
      → Returns (push_all es s) (AllPushed es s)
  unfolding push_all
  push_all-AllPushed [] s a c room = (
    (true, [], s),
    refl,
    (
      refl,
      record {
        array = a;
        added = sym (append_nil (contents s.array));
        size = omega arith;
        capacity = refl;
        lifetime = refl;
      },
    ),
  )
  push_all-AllPushed (e ∷ es) s a (policy, read, c) room =
      let ((done, e', u), run, p) =
        dynarray_push_unchecked-Pushed e s a (policy, read, c) (omega arith) in
      let ((all, es', t), rest, q) =
        push_all-AllPushed es u p.1.array (policy, ap check_lifetime p.1.lifetime ∙ read, c)
          (omega (arith, p.1.size, p.1.capacity)) in
      (
        (all, e' ∷ es', t),
        rw (run, ◌>>=◌, p.0, rest, ◌>>=◌) refl,
        (
          q.0,
          record {
            array = q.1.array;
            added =
                q.1.added
                ∙ ap (λ xs. xs ++ es) p.1.added
                ∙ append_assoc (contents s.array) (e ∷ []) es;
            size = omega (arith, p.1.size, q.1.size);
            capacity = q.1.capacity ∙ p.1.capacity;
            lifetime = q.1.lifetime ∙ p.1.lifetime;
          },
        ),
      )

  -- With success the elements are behind what the array held; without, the array is as it was.
  abbrev pub MaybeAppended : List E → State S W E → Bool × List E × State S W E → Type 0
  MaybeAppended es s (true, _, t) = IsArray t.array × (contents t.array ≡ contents s.array ++ es)
  MaybeAppended es s (false, _, t) = t.array ≡ s.array

  abbrev Appended : List E → State S W E → Bool × List E × State S W E → Type 0
  Appended es s (done, _, t) =
      (done ≡ true) × IsArray t.array × (contents t.array ≡ contents s.array ++ es)

  Appended-Maybe :
      (es : List E) (s t : State S W E) (r : Bool × List E × State S W E)
      → contents t.array ≡ contents s.array
      → Appended es t r
      → MaybeAppended es s r
  Appended-Maybe es s t (true, es', u) same (_, a, e) = (a, e ∙ ap (λ xs. xs ++ es) same)
  Appended-Maybe es s t (false, es', u) same (h, _, _) = cc

  -- the state in which the elements have been copied behind the others and counted
  abbrev copied : State S W E → Buffer E → ℕ → List E → State S W E
  copied s b n cells = with_size (with_cells s b cells) (add_size s.array.size n)

  copied-added :
      (s : State S W E) (b : Buffer E) (es cells : List E)
      → IsArray s.array
      → s.array.size + length es ≤ s.array.capacity
      → s.array.buffer ≡ some b
      → length b.cells ≡ s.array.capacity
      → IsCarried s.array.size 0 (length es) b.cells es cells
      → IsArray (copied s b (length es) cells).array
        × (contents (copied s b (length es) cells).array ≡ contents s.array ++ es)
  copied-added s b es cells a room at held c = (
    record {
      served = a.served;
      sized = a.sized;
      fits = a.fits;
      room = omega (arith, counted);
      cells = c.same_length ∙ held;
    },
    take_two s.array.size (add_size s.array.size (length es)) b.cells es cells counted (omega arith)
          (omega (arith, counted, c.same_length)) (λ i lt. c.outside i (inl lt))
          (λ i lt. c.inside i lt ∙ ap (get_elem? es) (omega arith))
        ∙ ap (λ o. take s.array.size (buffer_cells o) ++ es) (sym at),
  )
    where
      counted : add_size s.array.size (length es) ≡ s.array.size + length es
      counted = omega (arith, size_fits s a)

module _ {S W E : Type 0} (fresh : ℕ → ℕ → E) where
  -- `dynarray_append` of at least one element, with room
  append_in_room :
      (e : E) (es : List E) (s t : State S W E)
      → IsArray t.array
      → IsCarrying s.array.elem_lifetime
      → t.array.elem_lifetime ≡ s.array.elem_lifetime
      → t.array.size + length (e ∷ es) ≤ t.array.capacity
      → dynarray_ensure_capacity fresh (add_size s.array.size (length (e ∷ es))) s ≡ ok (true, t)
      → Returns (dynarray_append fresh (e ∷ es) s) (Appended (e ∷ es) t)
  unfolding dynarray_append
  append_in_room e es s t a (some policy, read, c) same room run =
      let ((all, es', u), done, q) =
        push_all-AllPushed (e ∷ es) t a (some policy, ap check_lifetime same ∙ read, c) room in
      (
        (true, es', u),
        rw (read, ◌>>=◌, nonempty (length es), run, ◌>>=◌, done) (ap (λ d. ok (d, es', u)) q.0),
        (refl, q.1.array, q.1.added),
      )
  append_in_room e es s t a (none, read, c) same room run =
      let (b, at, held) = buffer_of t a (omega arith) in
      let (cells, done, p) =
        copy_cells-IsCarried (length (e ∷ es)) t.array.size 0 b.cells (e ∷ es) (omega arith)
          (omega arith) in
      let added = copied-added t b (e ∷ es) cells a room at held p in
      (
        (true, e ∷ es, copied t b (length (e ∷ es)) cells),
        rw (read, ◌>>=◌, nonempty (length es), run, ◌>>=◌, at, ◌>>=◌, done, ◌>>=◌) refl,
        (refl, added.0, added.1),
      )

  -- On a well-formed array whose elements carry over, if twice the new size in bytes does not wrap,
  -- `dynarray_append` does not fault. With success the array is well formed and holds what it held
  -- and then the elements, in order; without, the array is as it was.
  pub dynarray_append-MaybeAppended :
      (es : List E) (s : State S W E)
      → IsArray s.array
      → IsCarrying s.array.elem_lifetime
      → IsRequest fresh s (s.array.size + length es)
      → Returns (dynarray_append fresh es s) (MaybeAppended es s)
  unfolding dynarray_append
  dynarray_append-MaybeAppended [] s a (policy, read, c) h =
      ((true, [], s), rw (read, ◌>>=◌) refl, (a, sym (append_nil (contents s.array))))
  dynarray_append-MaybeAppended (e ∷ es) s a (policy, read, c) h = go (
      dynarray_ensure_capacity-Reserved fresh (add_size s.array.size (length (e ∷ es))) s a
        (policy, read, c) (rw plain h))
    where
      plain : add_size s.array.size (length (e ∷ es)) ≡ s.array.size + length (e ∷ es)
      plain = omega (
        arith,
        h,
        times_le (2 * (s.array.size + length (e ∷ es))) (2 * (s.array.size + length (e ∷ es))) 1
            s.array.elem_size (omega arith) (omega (arith, a.sized)),
      )

      go :
          Returns
            (dynarray_ensure_capacity fresh (add_size s.array.size (length (e ∷ es))) s)
            (Reserved (add_size s.array.size (length (e ∷ es))) s)
          → Returns (dynarray_append fresh (e ∷ es) s) (MaybeAppended (e ∷ es) s)
      go ((false, t), run, same) =
          ((false, e ∷ es, t), rw (read, ◌>>=◌, nonempty (length es), run, ◌>>=◌) refl, same)
      go ((true, t), run, (kept, room)) =
          let (r, done, p) =
            append_in_room e es s t kept.array (policy, read, c) kept.lifetime
              (omega (arith, plain, kept.size)) run in
          (r, done, Appended-Maybe (e ∷ es) s t r kept.same p)
