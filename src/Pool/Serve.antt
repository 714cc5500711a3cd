-- ===== src/Pool/Serve.antt =====
-- Sequences of allocations from a pool.
use c_base.Base.{
  ℕ, zero, suc, ◌+◌, ◌*◌, ◌≤◌, ◌≡◌, refl, ap, ◌∙◌, Option, none, some, List, [], ◌∷◌, arith, length,
}
use c_base.Base.Run.{Run, ok, ◌>>=◌, Returns}
use c_base.Pool.{PoolCtx, pool_alloc}
use c_base.Pool.Blocks.{IsPool, pool_alloc-Taken}

-- `n` requests, one after the other, and what they return
abbrev pub alloc_each : ℕ → PoolCtx → ℕ → ℕ → Run (List (Option ℕ) × PoolCtx)
alloc_each zero s size alignment = ok ([], s)
alloc_each (suc n) s size alignment = do
  (p, t) ← pool_alloc s size alignment
  (ps, u) ← alloc_each n t size alignment
  ok (p ∷ ps, u)

-- the addresses of the blocks, and null for the last request
abbrev pub granted : ℕ → ℕ → List ℕ → List (Option ℕ)
granted buffer block_size [] = none ∷ []
granted buffer block_size (i ∷ is) = some (buffer + i * block_size) ∷ granted buffer block_size is

abbrev pub onto : List ℕ → List ℕ → List ℕ
onto [] live = live
onto (i ∷ is) live = onto is (i ∷ live)

-- On a pool, requests that the assertions let through are granted as long as a block is free: they get
-- the free blocks one by one, in the order of the free list, and only when all are live the next
-- request gets null.
pub alloc_each-granted :
    (s : PoolCtx) (free live : List ℕ) (size alignment : ℕ)
    → IsPool s free live
    → size ≤ s.block_size
    → alignment ≤ s.alignment
    → Returns
        (alloc_each (suc (length free)) s size alignment)
        (λ r. (r.0 ≡ granted s.buffer s.block_size free) × IsPool r.1 [] (onto free live))
alloc_each-granted s [] live size alignment p fits aligned =
    let (r, run, is) = pool_alloc-Taken [] live size alignment p fits aligned in
    ((none ∷ [], s), rw (run, is, ◌>>=◌) refl, (refl, p))
alloc_each-granted s (i ∷ is) live size alignment p fits aligned =
    let ((q, t), run, (got, p', buffer, block, align)) =
      pool_alloc-Taken (i ∷ is) live size alignment p fits aligned in
    let ((qs, u), run', (gots, p'')) =
      alloc_each-granted t is (i ∷ live) size alignment p' (omega arith) (omega arith) in
    (
      (q ∷ qs, u),
      ap
            (λ m. m >>= λ (p, t).
              alloc_each (suc (length is)) t size alignment >>= λ (ps, u). ok (p ∷ ps, u))
            run
          ∙ ap (λ m. m >>= λ (ps, u). ok (q ∷ ps, u)) run',
      (rw (got, gots, buffer, block) refl, p''),
    )
