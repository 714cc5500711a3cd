-- ===== src/Source/Library.antt =====
-- The calls of the C library and of the operating system that src/foundation/memory/memory.c makes:
-- they are a parameter, over a state `H` of what they keep. A null result is `none`.
use c_base.Base.{ℕ, ◌+◌, ◌%◌, ◌<◌, ◌≡◌, Option, none, some, Bool}
use c_base.Base.Run.{Run, ok, Returns, ◌>>=◌}
use c_base.Base.Word.{word_mod, max_alignment}
use c_base.Align.Bounds.{IsAlignment}
use c_base.Source.{Handle}

pub record CLibrary (H : Type 0) : Type 0 where
  -- `malloc(size)`
  pub malloc : H → ℕ → Run (Option ℕ × H)
  -- `aligned_alloc(alignment, size)`
  pub aligned_alloc : H → ℕ → ℕ → Run (Option ℕ × H)
  pub free : H → ℕ → Run H
  -- `mmap` of private anonymous memory for reading and writing; MAP_FAILED is `none`
  pub mmap : H → ℕ → Run (Option ℕ × H)
  -- whether `munmap` returns 0
  pub munmap : H → ℕ → ℕ → Run (Bool × H)

-- What a call that allocates `size` bytes at an alignment gives: null, or a live block there that lies
-- inside the address space.
abbrev pub Given : {H : Type 0} → (H → ℕ → ℕ → Type 0) → ℕ → ℕ → Option ℕ × H → Type 0
Given live alignment size (none, h) = Unit
Given live alignment size (some p, h) =
    (0 < p) × (p % alignment ≡ 0) × (p + size < word_mod) × live h p size

-- The documented behaviour of the library. `live h p n` says that in the state `h` there is a block of
-- `n` bytes at `p` that has not been freed.
pub record IsLibrary {H : Type 0} (lib : CLibrary H) (live : H → ℕ → ℕ → Type 0) : Type 0 where
  pub allocates : (h : H) (size : ℕ) → Returns (lib.malloc h size) (Given live max_alignment size)
  pub aligns :
      (h : H) (alignment size : ℕ)
      → IsAlignment alignment
      → size % alignment ≡ 0
      → Returns (lib.aligned_alloc h alignment size) (Given live alignment size)
  pub frees : (h : H) (p size : ℕ) → live h p size → Returns (lib.free h p) (λ h'. Unit {0})

-- The creation of a source's context by `malloc(sizeof(ctx))`, and `free(source->ctx)`.
module _ {H C : Type 0} (lib : CLibrary H) where
  unfoldable pub create_ctx : ℕ → C → H → Run (Option (Handle C) × H)
  create_ctx ctx_size ctx h = do
    (p, h') ← lib.malloc h ctx_size
    elim p [
      | none ↦ ok (none, h')
      | some address ↦ ok (some (record { address = address; ctx = ctx }), h')
    ]

  -- The source is `(MemorySource){0}` afterwards; `free` of a null context does nothing.
  unfoldable pub destroy_ctx : Option (Handle C) → H → Run (Option (Handle C) × H)
  destroy_ctx none h = ok (none, h)
  destroy_ctx (some s) h = do h' ← lib.free h s.address; ok (none, h')
