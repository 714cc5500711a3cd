-- ===== src/Stack/Placement.antt =====
-- Where `stack_alloc` puts a block and its header, by where the used part ends.
use c_base.Base.{ℕ, ◌+◌, ◌%◌, ◌≤◌, ◌<◌, ◌≡◌, ◌≢◌, sym, Option, none, some}
use mathlib.Core.Path.{subst}
use c_base.Base.Run.{Returns}
use c_base.Stack.{StackCtx, compute_stack_header_ptr, stack_alloc, header_alignment}
use c_base.Stack.Alloc.{
  IsValid, IsSane, Allocated, IsProper, block_address, stack_alloc-Allocated,
  block_address-IsProper, block_address_misaligned, block_address_overlaps,
}

-- A block that satisfies `P`, or null because the block would end beyond the buffer.
abbrev pub Granted : StackCtx → ℕ → ℕ → (ℕ → Type 0) → Option ℕ × StackCtx → Type 0
Granted s size alignment P (none, t) = s.buffer + s.capacity < block_address s alignment + size
Granted s size alignment P (some p, t) = P p

granted :
    (s : StackCtx) (size alignment : ℕ) (P : ℕ → Type 0)
    → P (block_address s alignment)
    → (r : Option ℕ × StackCtx) → Allocated s size alignment r
    → Granted s size alignment P r
granted s size alignment P h (none, t) a = a.1
granted s size alignment P h (some p, t) a = subst P (sym a.0) h

module _ {s : StackCtx} (size alignment : ℕ) (valid : IsValid s)
    (sane : IsSane s size alignment) where
  granted_by :
      (P : ℕ → Type 0)
      → P (block_address s alignment)
      → Returns (stack_alloc s size alignment) (Granted s size alignment P)
  granted_by P h =
      let (r, run, a) = stack_alloc-Allocated size alignment valid sane in
      (r, run, granted s size alignment P h r a)

  -- On a valid stack with its buffer aligned to 8 and its used part ending at a multiple of 8,
  -- `stack_alloc`, for a request that does not wrap, returns an aligned block whose header is clear
  -- of the blocks before it, or null when the block would end beyond the buffer.
  pub stack_alloc-IsProper :
      s.buffer % header_alignment ≡ 0
      → s.offset % header_alignment ≡ 0
      → Returns (stack_alloc s size alignment) (Granted s size alignment (IsProper s alignment))
  stack_alloc-IsProper base even =
      granted_by (IsProper s alignment)
        (block_address-IsProper valid sane.alignment_ok sane.address_fits base even)

  -- On a valid stack whose used part does not end at a multiple of 8, for a request that does not wrap
  -- and wants an alignment of 8 or more, any block that `stack_alloc` returns is misaligned.
  pub stack_alloc_misaligned :
      s.offset % header_alignment ≢ 0
      → header_alignment ≤ alignment
      → Returns (stack_alloc s size alignment) (Granted s size alignment (λ p. p % alignment ≢ 0))
  stack_alloc_misaligned odd wide =
      granted_by (λ p. p % alignment ≢ 0)
        (block_address_misaligned valid sane.alignment_ok sane.address_fits odd wide)

  -- On a valid stack with its buffer aligned to 8 and its used part not ending at a multiple of 8, for
  -- a request that does not wrap and wants the alignment 8, the header of any block that `stack_alloc`
  -- returns begins inside the used part, over the end of the block before it.
  pub stack_alloc_overlaps :
      s.buffer % header_alignment ≡ 0
      → s.offset % header_alignment ≢ 0
      → alignment ≡ header_alignment
      → Returns
          (stack_alloc s size alignment)
          (Granted s size alignment (λ p. compute_stack_header_ptr p < s.buffer + s.offset))
  stack_alloc_overlaps base odd eq8 =
      granted_by (λ p. compute_stack_header_ptr p < s.buffer + s.offset)
        (block_address_overlaps valid sane.alignment_ok sane.address_fits base odd eq8)
