-- ===== src/Stack/Tests.antt =====
-- The stack at work: three blocks, the two that overlap, and the theorems at concrete requests.
use c_base.Base.{ℕ, ◌+◌, ◌%◌, ◌<◌, ◌≡◌, ◌≢◌, refl, Option, some, [], ◌∷◌, arith}
use c_base.Base.Run.{ok, fault, Fault, Returns}
use c_base.Align.{align_up, align_down, check_alignment}
use c_base.Source.Ledger.{ledger}
use c_base.Arena.Tests.{two_blocks}
use c_base.Stack.{
  StackHeader, StackCtx, store, compute_stack_header_ptr, stack_push, stack_alloc, stack_free,
  stack_resize, stack_realloc, stack_create,
}
use c_base.Stack.Alloc.{IsValid, IsSane, eight, IsProper}
use c_base.Stack.Placement.{
  Granted, stack_alloc-IsProper, stack_alloc_misaligned, stack_alloc_overlaps,
}
use c_base.Stack.Lifetime.{Created, stack_create-Created}
use c_base.Stack.Live.{
  header, IsLive, Pushed, stack_alloc-IsLive, stack_free-top, stack_free-not_top, stack_realloc-top,
}

abbrev blank : ℕ → StackHeader
blank _ = header 0 0

abbrev fresh : StackCtx
fresh = record { buffer = 4096; capacity = 256; offset = 0; headers = blank }

run_all : Unit {0}
unfolding stack_alloc stack_push stack_free stack_realloc stack_resize compute_stack_header_ptr
    align_up align_down check_alignment
run_all = tt

-- A block of 4 bytes, and a block of 8 above it whose header lies over the first block.
abbrev four : StackCtx
four = record fresh { offset = 20; headers = store blank 4096 (header 0 20) }

alloc_four : stack_alloc fresh 4 4 ≡ ok (some 4112, four)
unfolding run_all
alloc_four = refl

alloc_eight :
    stack_alloc four 8 8
    ≡ ok (some 4132, record four { offset = 44; headers = store four.headers 4112 (header 20 44) })
unfolding run_all
alloc_eight = refl

fresh-IsLive : IsLive fresh []
fresh-IsLive = record { valid = omega arith; chain = refl }

-- Blocks of 8 bytes at 4112 and 4136.
abbrev two : StackCtx
two = record fresh {
  offset = 48;
  headers = store (store blank 4096 (header 0 24)) 4120 (header 24 48);
}

two-IsLive : IsLive two (4136 ∷ 4112 ∷ [])
unfolding run_all
two-IsLive = record {
  valid = omega arith;
  chain = (24, refl, omega arith, omega arith, (0, refl, omega arith, omega arith, refl));
}

abbrev sane : IsSane two 8 8
sane = record { alignment_ok = eight; address_fits = omega arith; size_fits = omega arith }

stack_alloc-IsLive_example : Returns (stack_alloc two 8 8) (Pushed (4136 ∷ 4112 ∷ []))
stack_alloc-IsLive_example = stack_alloc-IsLive 8 8 two-IsLive sane

stack_free-top_example : Returns (stack_free two 4136) (λ t. IsLive t (4112 ∷ []))
stack_free-top_example = stack_free-top two-IsLive

stack_free-not_top_example : stack_free two 4112 ≡ fault Fault.assertion
stack_free-not_top_example = stack_free-not_top 0 4112 two-IsLive refl

stack_realloc-top_example : Returns (stack_realloc two 4136 8 20) (λ (r : Option ℕ × StackCtx).
    (r.0 ≡ some 4136) × IsLive r.1 (4136 ∷ 4112 ∷ []) × (4136 + 20 ≡ r.1.buffer + r.1.offset))
stack_realloc-top_example = stack_realloc-top 8 20 two-IsLive refl (omega arith) (omega arith)

stack_realloc_zero : stack_realloc two 4136 8 0 ≡ fault Fault.bad_pointer
unfolding run_all
stack_realloc_zero = refl

stack_alloc-IsProper_example : Returns (stack_alloc two 8 8) (Granted two 8 8 (IsProper two 8))
stack_alloc-IsProper_example = stack_alloc-IsProper 8 8 two-IsLive.valid sane refl refl

four-IsValid : IsValid four
four-IsValid = omega arith

abbrev four_sane : IsSane four 8 8
four_sane = record { alignment_ok = eight; address_fits = omega arith; size_fits = omega arith }

stack_alloc_misaligned_example : Returns (stack_alloc four 8 8) (Granted four 8 8 (λ p. p % 8 ≢ 0))
stack_alloc_misaligned_example =
    stack_alloc_misaligned 8 8 four-IsValid four_sane (omega arith) (omega arith)

stack_alloc_overlaps_example :
    Returns (stack_alloc four 8 8) (Granted four 8 8 (λ p. compute_stack_header_ptr p < 4096 + 20))
stack_alloc_overlaps_example =
    stack_alloc_overlaps 8 8 four-IsValid four_sane refl (omega arith) refl

stack_create_example :
    Returns (stack_create ledger blank 64 two_blocks) (Created blank 64 two_blocks)
stack_create_example = stack_create-Created blank 64 two_blocks
