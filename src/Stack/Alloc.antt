-- ===== src/Stack/Alloc.antt =====
-- `stack_alloc`: the block and the header that it makes, when it refuses, and when the block is
-- aligned.
use c_base.Base.{
  ℕ, ◌+◌, ◌-◌, ◌%◌, ◌^◌, ◌≤◌, ◌<◌, ◌≡◌, ◌≢◌, refl, sym, ap, ◌∙◌, Option, none, some, arith, ltb,
  if◌then◌else◌,
}
use native.Mathlib.Nat.{mod-add-mod, mod-eq_of_lt}
use c_base.Base.Run.{ok, ◌>>=◌, Returns}
use c_base.Base.Word.{add_size, sub_size, word_mod}
use c_base.Align.{align_up, check_alignment}
use c_base.Align.Bounds.{
  IsAlignment, IsAlignUp, IsAlignDown, align_up-IsAlignUp, align_down-IsAlignDown,
}
use c_base.Align.Power.{check_alignment_iff}
use c_base.Stack.{
  StackCtx, header_size, header_alignment, store, compute_stack_header_ptr, stack_push, stack_alloc,
}

-- The buffer is an object in memory, so it has less than 2 ^ 63 bytes (PTRDIFF_MAX) and does not
-- reach the end of the address space.
pub record IsValid (s : StackCtx) : Type 0 where
  pub object : s.capacity < 2 ^ 63
  pub placed : 0 < s.buffer
  pub ends : s.buffer + s.capacity + 64 ≤ word_mod
  pub within : s.offset ≤ s.capacity

pub record IsSane (s : StackCtx) (size alignment : ℕ) : Type 0 where
  pub alignment_ok : IsAlignment alignment
  pub address_fits : s.buffer + s.capacity + 64 + alignment ≤ word_mod
  pub size_fits : size + alignment + 64 ≤ word_mod

abbrev pub eight : IsAlignment header_alignment
eight = (3, omega arith, refl)

-- the bytes between the offset and the first place where a header may stand
abbrev pub header_gap : StackCtx → ℕ
header_gap s = align_up s.offset header_alignment - s.offset

-- the aligned address that `stack_alloc` computes
abbrev pub aligned_address : StackCtx → ℕ → ℕ
aligned_address s alignment =
    align_up (s.buffer + align_up s.offset header_alignment + header_size) alignment

-- The block begins at the aligned address less the gap before the header, which the code leaves out
-- of the padding.
abbrev pub block_address : StackCtx → ℕ → ℕ
block_address s alignment = aligned_address s alignment - header_gap s

module _ (s : StackCtx) (valid : IsValid s) where
  pub header_room : IsAlignUp s.offset header_alignment (align_up s.offset header_alignment)
  header_room = align_up-IsAlignUp s.offset eight (omega arith)

  pub aligned_room :
      (alignment : ℕ)
      → IsAlignment alignment
      → s.buffer + s.capacity + 64 + alignment ≤ word_mod
      → IsAlignUp
          (s.buffer + align_up s.offset header_alignment + header_size)
          alignment
          (aligned_address s alignment)
  aligned_room alignment a fits = align_up-IsAlignUp _ a (omega (arith, header_room))

-- Where nothing wraps.
pub stack_push_plain :
    (s : StackCtx) (size alignment q : ℕ)
    → IsValid s
    → aligned_address s alignment ≡ q
    → s.buffer + align_up s.offset header_alignment + header_size ≤ q
    → q + size < word_mod + s.buffer + align_up s.offset header_alignment
    → q < word_mod
    → let p = q - header_gap s in
      let new_offset = p + size - s.buffer in
      stack_push s size alignment ≡ (
        if ltb (s.buffer + s.capacity) (p + size) then (none, s) else (
          some p,
          record s {
            offset = new_offset;
            headers =
                store s.headers
                  (compute_stack_header_ptr p)
                  (record { previous_offset = s.offset; current_offset = new_offset });
          },
        ))
unfolding stack_push
stack_push_plain s size alignment q v e above fits low = ground (arith, header_room s v, plain)
  where
    plain :
        align_up
          (add_size (add_size s.buffer (align_up s.offset header_alignment)) header_size)
          alignment
        ≡ q
    plain = ap (λ (t : ℕ). align_up t alignment) (omega (arith, header_room s v)) ∙ e

-- A null result leaves the stack alone, and means that the block does not fit. Any other is a block
-- behind room for a header, that ends at the new offset; the header that `compute_stack_header_ptr`
-- finds for it holds the old and the new offset, and no other header has changed.
abbrev pub Allocated : StackCtx → ℕ → ℕ → Option ℕ × StackCtx → Type 0
Allocated s size alignment (none, t) =
    (t ≡ s) × (s.buffer + s.capacity < block_address s alignment + size)
Allocated s size alignment (some p, t) =
    (p ≡ block_address s alignment)
    × (s.buffer + s.offset + header_size ≤ p)
    × (p + size ≡ s.buffer + t.offset)
    × (t ≡ record s {
      offset = t.offset;
      headers =
          store s.headers (compute_stack_header_ptr p)
            (record { previous_offset = s.offset; current_offset = t.offset });
    })
    × IsValid t

module _ {s : StackCtx} (size alignment : ℕ) (valid : IsValid s)
    (sane : IsSane s size alignment) where
  stack_push-Allocated : Allocated s size alignment (stack_push s size alignment)
  stack_push-Allocated =
      rw
        (stack_push_plain s size alignment (aligned_address s alignment) valid refl room.above
          (omega (arith, room, header_room s valid)) (omega (arith, room, header_room s valid)))
        (ground (arith, room, header_room s valid))
    where
      room :
          IsAlignUp
            (s.buffer + align_up s.offset header_alignment + header_size)
            alignment
            (aligned_address s alignment)
      room = aligned_room s valid alignment sane.alignment_ok sane.address_fits

  -- On a valid stack and a request that does not wrap, `stack_alloc` does not fault. It returns null
  -- and leaves the stack alone when the block would end beyond the buffer; otherwise the block has
  -- room for a header before it, ends at the new offset, and its header holds both offsets.
  pub stack_alloc-Allocated : Returns (stack_alloc s size alignment) (Allocated s size alignment)
  unfolding stack_alloc
  stack_alloc-Allocated = (stack_push s size alignment, rw (accepted, ◌>>=◌), stack_push-Allocated)
    where
      accepted : check_alignment alignment ≡ ok tt
      accepted = (check_alignment_iff alignment (omega arith)).1 sane.alignment_ok

-- The header of a block ends at or before the block, at most 7 bytes before it.
pub header_ptr_bounds :
    (p : ℕ)
    → header_size ≤ p
    → p < word_mod
    → IsAlignDown (p - header_size) header_alignment (compute_stack_header_ptr p)
unfolding compute_stack_header_ptr
header_ptr_bounds p h k =
    rw sub_plain (align_down-IsAlignDown (p - header_size) eight (omega arith))
  where
    sub_plain : sub_size p header_size ≡ p - header_size
    sub_plain = omega arith

-- What `stack_alloc` promises of a block at `p`: it is aligned, and its header lies between the old
-- end of the used part and the block.
pub record IsProper (s : StackCtx) (alignment p : ℕ) : Type 0 where
  pub aligned : p % alignment ≡ 0
  pub header_above : s.buffer + s.offset ≤ compute_stack_header_ptr p
  pub header_below : compute_stack_header_ptr p + header_size ≤ p

not_multiple : (q gap a : ℕ) → q % a ≡ 0 → 0 < gap → gap < a → gap ≤ q → (q - gap) % a ≢ 0
not_multiple q gap a e pos small le h = omega (arith, step ∙ e, mod-eq_of_lt small)
  where
    step : gap % a ≡ q % a
    step =
        ap (λ (t : ℕ). t % a) (omega (arith, h))
        ∙ mod-add-mod (q - gap) a gap
        ∙ ap (λ (t : ℕ). t % a) (omega arith)

module _ {s : StackCtx} {alignment : ℕ} (valid : IsValid s) (a : IsAlignment alignment)
    (fits : s.buffer + s.capacity + 64 + alignment ≤ word_mod) where
  place :
      IsAlignUp
        (s.buffer + align_up s.offset header_alignment + header_size)
        alignment
        (aligned_address s alignment)
  place = aligned_room s valid alignment a fits

  header_place :
      IsAlignDown
        (block_address s alignment - header_size)
        header_alignment
        (compute_stack_header_ptr (block_address s alignment))
  header_place =
      header_ptr_bounds (block_address s alignment) (omega (arith, place, header_room s valid))
        (omega (arith, place, header_room s valid))

  -- If the buffer is aligned to 8 and the used part ends at a multiple of 8, the block is aligned and
  -- its header is clear of the blocks before it.
  pub block_address-IsProper :
      s.buffer % header_alignment ≡ 0
      → s.offset % header_alignment ≡ 0
      → IsProper s alignment (block_address s alignment)
  block_address-IsProper base even = record {
    aligned = rw no_gap place.multiple;
    header_above = omega (arith, place, header_place, header_room s valid);
    header_below = omega (arith, place, header_place, header_room s valid);
  }
    where
      no_gap : block_address s alignment ≡ aligned_address s alignment
      no_gap = omega (arith, header_room s valid)

  -- If the used part does not end at a multiple of 8, a block that should be aligned to 8 or more is
  -- not.
  pub block_address_misaligned :
      s.offset % header_alignment ≢ 0
      → header_alignment ≤ alignment
      → block_address s alignment % alignment ≢ 0
  block_address_misaligned odd wide =
      not_multiple (aligned_address s alignment) (header_gap s) alignment place.multiple
        (omega (arith, header_room s valid)) (omega (arith, header_room s valid))
        (omega (arith, place, header_room s valid))

  -- If besides the alignment is 8 and the buffer is aligned to 8, the header of the block begins
  -- inside the used part, over the end of the block before it.
  pub block_address_overlaps :
      s.buffer % header_alignment ≡ 0
      → s.offset % header_alignment ≢ 0
      → alignment ≡ header_alignment
      → compute_stack_header_ptr (block_address s alignment) < s.buffer + s.offset
  block_address_overlaps base odd eq8 = omega (
    arith,
    header_place,
    header_room s valid,
    place.near,
    place.above,
    ap (λ (t : ℕ). aligned_address s alignment % t) (sym eq8) ∙ place.multiple,
  )
