-- ===== src/Source/Tests.antt =====
-- The sources at work, over a library with one block of memory, and over a small buffer.
use c_base.Base.{
  ℕ, ◌+◌, ◌%◌, ◌^◌, ◌<◌, ◌≡◌, refl, Option, none, some, true, false, arith, ltb, if◌then◌else◌,
  ◌==◌, ◌&&◌, inl, inr, [], ◌∷◌, Bool-cases, eq→==,
}
use c_base.Base.Run.{Run, ok, fault, Fault, Returns}
use c_base.Base.Word.{max_alignment}
use c_base.Align.{align_up, check_alignment}
use c_base.Align.Bounds.{IsAlignment}
use c_base.Source.Library.{CLibrary, IsLibrary, Given}
use c_base.Source.Stats.{no_stats, stattrack_release}
use c_base.Source.Malloc.{MallocCtx, malloc_reserve}
use c_base.Source.Malloc.Block.{malloc_reserve-Reserved, Reserved as malloc_reserved}
use c_base.Source.Cmalloc.{CmallocCtx, cmalloc_reserve}
use c_base.Source.Cmalloc.Block.{cmalloc_reserve-Reserved, Reserved as cmalloc_reserved}
use c_base.Source.Buffer.{
  BufferBlock, BufferAllocCtx, buffer_ctx, buffer_reserve, buffer_release, reserve_in, fit_loop,
  buffer_try_fit_pointer_in_block,
}
use c_base.Source.Buffer.Chain.{vacant, taken, IsBuffer, give_node, limit}
use c_base.Source.Buffer.Reserve.{Reserved, buffer_reserve-Reserved}
use c_base.Source.Buffer.Release.{buffer_ctx-IsBuffer, buffer_release-IsBuffer}
use c_base.Source.Buffer.Overrun.{buffer_release-Overrun, buffer_release_fresh}

-- What is given out: at most one block, at 65536.
abbrev Heap : Type 0
Heap = Option (ℕ × ℕ)

abbrev give : Heap → ℕ → ℕ → Run (Option ℕ × Heap)
give (some b) alignment size = ok (none, some b)
give none alignment size =
    if (65536 % alignment == 0) && ltb size (2 ^ 32)
    then ok (some 65536, some (65536, size))
    else ok (none, none)

abbrev take_back : Heap → ℕ → Run Heap
take_back none p = fault Fault.bad_pointer
take_back (some (q, n)) p = if p == q then ok none else fault Fault.bad_pointer

abbrev one_block : CLibrary Heap
one_block = record {
  malloc = λ h size. give h max_alignment size;
  aligned_alloc = give;
  free = take_back;
  mmap = λ h size. give h 4096 size;
  munmap = λ h p size. ok (p == 65536, none);
}

abbrev Live : Heap → ℕ → ℕ → Type 0
Live h p n = h ≡ some (p, n)

granted :
    (alignment size : ℕ)
    → ((65536 % alignment == 0) && ltb size (2 ^ 32)) ≡ true
    → (65536 % alignment ≡ 0) × (size < 2 ^ 32)
granted alignment size e = ground (arith, e)

give-Given :
    (h : Heap) (alignment size : ℕ) → Returns (give h alignment size) (Given Live alignment size)
give-Given (some b) alignment size = ((none, some b), refl, tt)
give-Given none alignment size = elim (Bool-cases ((65536 % alignment == 0) && ltb size (2 ^ 32))) [
  | inl e ↦
      let (multiple, small) = granted alignment size e in
      (
        (some 65536, some (65536, size)),
        rw e refl,
        (omega arith, multiple, omega (arith, small), refl),
      )
  | inr e ↦ ((none, none), rw e refl, tt)
]

take_back-Live : (h : Heap) (p n : ℕ) → Live h p n → Returns (take_back h p) (λ h'. Unit {0})
take_back-Live h p n e = rw (e, eq→== p p refl) (none, refl, tt)

one_block-IsLibrary : IsLibrary one_block Live
one_block-IsLibrary = record {
  allocates = λ h size. give-Given h max_alignment size;
  aligns = λ h alignment size a m. give-Given h alignment size;
  frees = take_back-Live;
}

abbrev sixteen : IsAlignment 16
sixteen = (4, omega arith, refl)

abbrev thirty_two : IsAlignment 32
thirty_two = (5, omega arith, refl)

abbrev fresh : MallocCtx Heap
fresh = record { stats = no_stats; heap = none }

abbrev fresh_headers : CmallocCtx Heap
fresh_headers = record { stats = no_stats; heap = none; headers = λ q. 0 }

malloc_runs : Returns (malloc_reserve one_block fresh 100 32 0) (λ r. r.0 ≡ some 65536)
unfolding malloc_reserve check_alignment align_up
malloc_runs = (_, refl, refl)

malloc_reserve_example :
    Returns (malloc_reserve one_block fresh 100 32 0) (malloc_reserved one_block Live fresh 100 32)
malloc_reserve_example =
    malloc_reserve-Reserved one_block-IsLibrary fresh 100 32 0 thirty_two (omega arith)

cmalloc_runs : Returns (cmalloc_reserve one_block fresh_headers 100 32 0) (λ r. r.0 ≡ some 65568)
unfolding cmalloc_reserve check_alignment align_up
cmalloc_runs = (_, refl, refl)

cmalloc_reserve_example :
    Returns
      (cmalloc_reserve one_block fresh_headers 100 32 0)
      (cmalloc_reserved one_block Live fresh_headers 100 32)
cmalloc_reserve_example =
    cmalloc_reserve-Reserved one_block-IsLibrary fresh_headers 100 32 0 thirty_two (omega arith)

abbrev blank : ℕ → BufferBlock
blank q = record { size = 0; free = false; next = 0; prev = 0 }

abbrev small : BufferAllocCtx
small = buffer_ctx blank (λ q. 0) 4096 1024

small-IsBuffer : IsBuffer small (vacant 4096 992 ∷ [])
small-IsBuffer =
    buffer_ctx-IsBuffer blank (λ q. 0) 4096 1024 (omega arith) (omega arith) (omega arith)

buffer_reserve_example :
    Returns (buffer_reserve small 100 16 0) (Reserved small (vacant 4096 992 ∷ []) 100 16)
unfolding buffer_ctx
buffer_reserve_example =
    buffer_reserve-Reserved small (vacant 4096 992 ∷ []) 100 16 0 small-IsBuffer sixteen
      (omega arith)

-- a block behind a free one, in a buffer of 1024 bytes
abbrev laid_out : ℕ → BufferBlock
laid_out q =
    if q == 4096
    then record { size = 200; free = true; next = 4296; prev = 0 }
    else if q == 4296
    then record { size = 100; free = false; next = 0; prev = 4096 }
    else record { size = 0; free = false; next = 0; prev = 0 }

abbrev two_blocks : BufferAllocCtx
two_blocks = record {
  stats = no_stats;
  buffer = 4096;
  capacity = 1024;
  first = 4096;
  blocks = laid_out;
  owners = λ q. 4296;
}

two_blocks-IsBuffer : IsBuffer two_blocks (vacant 4096 200 ∷ taken 4296 4336 100 ∷ [])
two_blocks-IsBuffer = record {
  chain = (
    refl,
    omega arith,
    omega arith,
    refl,
    (refl, refl, omega arith),
    (refl, omega arith, omega arith, refl, (refl, refl, refl, omega arith, omega arith), refl),
  );
  starts = refl;
}

buffer_release_example : Returns (buffer_release two_blocks 4336 100) (λ t.
    IsBuffer t (give_node 4296 (vacant 4096 200 ∷ taken 4296 4336 100 ∷ []))
    × (t.stats ≡ stattrack_release no_stats 100)
    × (t.buffer ≡ 4096)
    × (t.capacity ≡ 1024))
buffer_release_example =
    buffer_release-IsBuffer two_blocks 4296 4336 100 100
      (vacant 4096 200 ∷ taken 4296 4336 100 ∷ []) two_blocks-IsBuffer (omega arith)
      (inr (inl (refl, tt)))

-- what `buffer_reserve` makes of 1024 bytes for a request of 100 bytes aligned to 16
abbrev with_tail : ℕ → BufferBlock
with_tail q =
    if q == 4096
    then record { size = 100; free = false; next = 4244; prev = 0 }
    else if q == 4244
    then record { size = 844; free = true; next = 0; prev = 4096 }
    else record { size = 0; free = false; next = 0; prev = 0 }

abbrev reserved : BufferAllocCtx
reserved = record two_blocks { blocks = with_tail; owners = λ q. 4096 }

-- The reservation has these blocks, so the free one ends 32 bytes before the end of the buffer.
reserve_runs : Returns (buffer_reserve small 100 16 0) (λ r.
    (r.0 ≡ some 4144) × (r.1.blocks 4096 ≡ with_tail 4096) × (r.1.blocks 4244 ≡ with_tail 4244))
unfolding buffer_reserve fit_loop buffer_try_fit_pointer_in_block reserve_in buffer_ctx
    check_alignment align_up
reserve_runs = (_, refl, (refl, refl, refl))

reserved-IsBuffer : IsBuffer reserved (taken 4096 4144 100 ∷ vacant 4244 844 ∷ [])
reserved-IsBuffer = record {
  chain = (
    refl,
    omega arith,
    omega arith,
    refl,
    (refl, refl, refl, omega arith, omega arith),
    (refl, omega arith, omega arith, refl, (refl, refl, omega arith), refl),
  );
  starts = refl;
}

buffer_overrun_example :
    Returns
      (buffer_release reserved 4144 100)
      (λ t. ((t.blocks 4244).free ≡ true) × (limit [] 5120 < 4244 + (t.blocks 4244).size))
buffer_overrun_example =
    buffer_release-Overrun reserved 4096 4144 100 4244 844 [] reserved-IsBuffer (omega arith) 100
      (omega arith)

abbrev handed_out : BufferAllocCtx
handed_out = reserve_in small 4144 4096 100

hands_out : buffer_reserve small 100 16 0 ≡ ok (some 4144, handed_out)
unfolding reserve_runs
hands_out = refl

buffer_release_fresh_example : Returns (buffer_release handed_out 4144 100) (λ u.
    ((u.blocks (4144 + 100)).free ≡ true)
    × (4096 + 1024 < (4144 + 100) + (u.blocks (4144 + 100)).size))
buffer_release_fresh_example =
    buffer_release_fresh blank (λ q. 0) 4096 1024 100 16 0 4144 handed_out (omega arith)
      (omega arith) sixteen (omega arith) hands_out (omega arith)
