-- ===== src/Arena/Blocks.antt =====
-- Any sequence of allocations from one arena.
use c_base.Base.{ℕ, ◌+◌, ◌%◌, ◌≤◌, ◌≡◌, refl, ◌∙◌, Option, none, some, List, [], ◌∷◌, arith}
use c_base.Base.Run.{Run, ok, ◌>>=◌, Returns}
use c_base.Base.Word.{word_mod}
use c_base.Align.Bounds.{IsAlignment}
use c_base.Arena.{ArenaCtx, arena_alloc}
use c_base.Arena.Alloc.{IsValid, Allocated, arena_alloc-Allocated}

-- a size and an alignment
abbrev pub Request : Type 0
Request = ℕ × ℕ

-- an address, with the request that it answers
abbrev pub Granted : Type 0
Granted = ℕ × Request

-- The requests in order; those that were refused grant nothing.
pub alloc_all : ArenaCtx → List Request → Run (List Granted × ArenaCtx)
alloc_all s [] = ok ([], s)
alloc_all s ((size, alignment) ∷ rs) = do
  (p, t) ← arena_alloc s size alignment
  (granted, u) ← alloc_all t rs
  elim p [ none ↦ ok (granted, u) | some a ↦ ok ((a, (size, alignment)) ∷ granted, u) ]

-- Each block is aligned, begins at or above `lo`, and ends at or below the beginning of the next;
-- the last one ends at or below `hi`. So no two of them overlap.
abbrev pub IsStacked : ℕ → List Granted → ℕ → Type 0
IsStacked lo [] hi = lo ≤ hi
IsStacked lo ((p, (size, alignment)) ∷ gs) hi =
    (lo ≤ p) × (p % alignment ≡ 0) × IsStacked (p + size) gs hi

abbrev pub AllSane : ℕ → List Request → Type 0
AllSane end [] = Unit
AllSane end ((size, alignment) ∷ rs) =
    IsAlignment alignment
    × (end + alignment ≤ word_mod)
    × (size + alignment ≤ word_mod)
    × AllSane end rs

-- What a sequence of allocations from `s` has done.
pub record Served (s : ArenaCtx) (r : List Granted × ArenaCtx) : Type 0 where
  pub stacked : IsStacked (s.buffer + s.offset) r.0 (r.1.buffer + r.1.offset)
  pub buffer : r.1.buffer ≡ s.buffer
  pub capacity : r.1.capacity ≡ s.capacity
  pub valid : IsValid r.1

alloc_all-cons :
    (size alignment : ℕ) (rs : List Request) (s : ArenaCtx) (r : Option ℕ × ArenaCtx)
    → IsValid s
    → ((t : ArenaCtx)
        → IsValid t
        → t.buffer ≡ s.buffer
        → t.capacity ≡ s.capacity
        → Returns (alloc_all t rs) (Served t))
    → arena_alloc s size alignment ≡ ok r
    → Allocated s size alignment r
    → Returns (alloc_all s ((size, alignment) ∷ rs)) (Served s)
unfolding alloc_all
alloc_all-cons size alignment rs s (none, t) v ih run (unchanged, full) =
    let ((gs, u), rest, w) = ih s v refl refl in ((gs, u), rw (run, ◌>>=◌, unchanged, rest), w)
alloc_all-cons size alignment rs s (some p, t) v ih run (target, ends, sb, sc, vt) =
    let ((gs, u), rest, w) = ih t vt sb sc in
    (
      ((p, (size, alignment)) ∷ gs, u),
      rw (run, ◌>>=◌, rest),
      record {
        stacked = (target.above, target.multiple, rw (← ends) at w.stacked);
        buffer = w.buffer ∙ sb;
        capacity = w.capacity ∙ sc;
        valid = w.valid;
      },
    )

-- A valid arena serves any sequence of requests that do not wrap without a fault. The blocks that it
-- grants are aligned and lie in order, without overlap, between the old and the new end of the used
-- part; the arena keeps its buffer and capacity and stays valid, so they lie in its buffer.
pub alloc_all-Served :
    (rs : List Request) {s : ArenaCtx}
    → IsValid s
    → AllSane (s.buffer + s.capacity) rs
    → Returns (alloc_all s rs) (Served s)
unfolding alloc_all
alloc_all-Served [] {s} v sane =
    (([], s), refl, record { stacked = omega arith; buffer = refl; capacity = refl; valid = v })
alloc_all-Served ((size, alignment) ∷ rs) {s} v (a, e, n, rest) =
    let (r, run, done) =
      arena_alloc-Allocated {s = s} size alignment v
        (record { alignment_ok = a; address_fits = e; size_fits = n }) in
    alloc_all-cons size alignment rs s r v
      (λ t vt sb sc. alloc_all-Served rs {s = t} vt (rw (sb, sc) rest)) run done
