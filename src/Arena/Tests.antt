-- ===== src/Arena/Tests.antt =====
-- The arena at work: a small buffer, and the theorems at concrete requests.
use c_base.Base.{◌+◌, ◌-◌, ◌^◌, ◌≡◌, ◌↔◌, refl, none, some, [], ◌∷◌, arith}
use c_base.Base.Run.{ok, fault, Fault, Returns}
use c_base.Align.{align_up, check_alignment}
use c_base.Align.Bounds.{IsAlignment, IsAlignUp, align_up-IsAlignUp}
use c_base.Align.Power.{check_alignment_iff}
use c_base.Source.Ledger.{Ledger, ledger}
use c_base.Arena.{ArenaCtx, arena_bump, arena_alloc, arena_create}
use c_base.Arena.Alloc.{IsValid, Allocated, arena_alloc-Allocated, arena_alloc_overflow}
use c_base.Arena.Blocks.{alloc_all, Served, alloc_all-Served}
use c_base.Arena.Lifetime.{Created, arena_create-Created}

abbrev pub eight : IsAlignment 8
eight = (3, omega arith, refl)

align_up_example : IsAlignUp 1003 8 (align_up 1003 8)
align_up_example = align_up-IsAlignUp 1003 eight (omega arith)

check_alignment_example : (check_alignment 8 ≡ ok tt) ↔ IsAlignment 8
check_alignment_example = check_alignment_iff 8 (omega arith)

check_alignment_twelve : check_alignment 12 ≡ fault Fault.assertion
unfolding check_alignment
check_alignment_twelve = refl

abbrev used : ArenaCtx
used = record { buffer = 4096; capacity = 64; offset = 3 }

used-IsValid : IsValid used
used-IsValid = omega arith

alloc_runs :
    arena_alloc used 10 8 ≡ ok (some 4104, record { buffer = 4096; capacity = 64; offset = 18 })
unfolding arena_alloc arena_bump align_up check_alignment
alloc_runs = refl

alloc_full : arena_alloc used 57 8 ≡ ok (none, used)
unfolding arena_alloc arena_bump align_up check_alignment
alloc_full = refl

arena_alloc_example : Returns (arena_alloc used 10 8) (Allocated used 10 8)
arena_alloc_example =
    arena_alloc-Allocated 10 8 used-IsValid
      (record { alignment_ok = eight; address_fits = omega arith; size_fits = omega arith })

-- A block of 2 ^ 64 - 5 bytes from an arena of 64 bytes.
arena_alloc_overflow_example :
    arena_alloc used (2 ^ 64 - 5) 8 ≡ ok (some (align_up (4096 + 3) 8), used)
arena_alloc_overflow_example =
    arena_alloc_overflow (2 ^ 64 - 5) 8 used-IsValid eight (omega arith) (unfold align_up in refl)

alloc_all_example : Returns (alloc_all used ((10, 8) ∷ (4, 8) ∷ (100, 8) ∷ [])) (Served used)
alloc_all_example = alloc_all-Served ((10, 8) ∷ (4, 8) ∷ (100, 8) ∷ []) used-IsValid (
  eight,
  omega arith,
  omega arith,
  (eight, omega arith, omega arith, (eight, omega arith, omega arith, tt)),
)

abbrev pub two_blocks : Ledger
two_blocks = record { script = some 500 ∷ some 4096 ∷ []; live = (9, 1) ∷ [] }

arena_create_example : Returns (arena_create ledger 64 two_blocks) (Created 64 two_blocks)
arena_create_example = arena_create-Created 64 two_blocks
