-- ===== src/Pool/Tests.antt =====
-- The pool at work: three blocks of 16 bytes, of which one is live, and the theorems on it.
use c_base.Base.{ℕ, ◌+◌, ◌*◌, ◌<◌, ◌≡◌, ◌≢◌, refl, none, some, [], ◌∷◌, arith}
use c_base.Base.Run.{ok, fault, Fault, Returns}
use c_base.Align.{align_up}
use c_base.Base.Word.{word_mod}
use c_base.Source.Ledger.{ledger}
use c_base.Arena.Tests.{two_blocks, eight}
use c_base.Pool.{
  PoolCtx, build_loop, pool_build_free_list, pool_init, pool_alloc, pool_free, pool_reset,
  pool_create,
}
use c_base.Pool.Blocks.{
  IsPool, Taken, pool_alloc-Taken, pool_free-live, pool_free-foreign, pool_reset-IsPool,
}
use c_base.Pool.Lists.{erase_at}
use c_base.Pool.Build.{range}
use c_base.Pool.Serve.{alloc_each, granted, onto, alloc_each-granted}
use c_base.Pool.Lifetime.{Created, pool_create-Created}

abbrev blank : PoolCtx
blank = record {
  free_list = none;
  buffer = 4096;
  meta = none ∷ none ∷ none ∷ [];
  block_size = 16;
  block_count = 3;
  alignment = 8;
}

-- Block 1 is live; 0 leads to 2.
abbrev busy : PoolCtx
busy = record blank { free_list = some 0; meta = some 2 ∷ some 2 ∷ none ∷ [] }

run_all : Unit {0}
unfolding build_loop pool_build_free_list pool_init pool_alloc pool_free pool_reset align_up
run_all = tt

build_runs :
    pool_build_free_list blank
    ≡ ok (record blank { free_list = some 0; meta = some 1 ∷ some 2 ∷ none ∷ [] })
unfolding run_all
build_runs = refl

alloc_runs : pool_alloc busy 16 8 ≡ ok (some 4096, record busy { free_list = some 2 })
unfolding run_all
alloc_runs = refl

alloc_too_large : pool_alloc busy 17 8 ≡ fault Fault.assertion
unfolding run_all
alloc_too_large = refl

free_runs :
    pool_free busy 4112
    ≡ ok (record busy { free_list = some 1; meta = some 2 ∷ some 0 ∷ none ∷ [] })
unfolding run_all
free_runs = refl

busy-IsPool : IsPool busy (0 ∷ 2 ∷ []) (1 ∷ [])
busy-IsPool = record {
  chain = (some 2, refl, refl, (none, refl, refl, refl));
  free_distinct = omega arith;
  live_distinct = omega arith;
  apart = omega arith;
  below = omega arith;
  count = refl;
  cells = refl;
  sized = omega arith;
  ends = omega arith;
}

pool_alloc_example : Returns (pool_alloc busy 10 4) (Taken busy (0 ∷ 2 ∷ []) (1 ∷ []))
pool_alloc_example =
    pool_alloc-Taken (0 ∷ 2 ∷ []) (1 ∷ []) 10 4 busy-IsPool (omega arith) (omega arith)

pool_free_example :
    Returns (pool_free busy (4096 + 1 * 16)) (λ t. IsPool t (1 ∷ 0 ∷ 2 ∷ []) (erase_at (1 ∷ []) 0))
pool_free_example = pool_free-live (0 ∷ 2 ∷ []) (1 ∷ []) 0 1 busy-IsPool refl

not_a_block : (i : ℕ) → i < 3 → 4100 ≢ 4096 + i * 16
not_a_block i h = omega arith

pool_free-foreign_example : pool_free busy 4100 ≡ fault Fault.assertion
pool_free-foreign_example =
    pool_free-foreign (0 ∷ 2 ∷ []) (1 ∷ []) 4100 busy-IsPool (omega arith) not_a_block

pool_reset_example : Returns (pool_reset busy) (λ t. IsPool t (range 0 3) [])
pool_reset_example = pool_reset-IsPool (0 ∷ 2 ∷ []) (1 ∷ []) busy-IsPool (omega arith)

rounded_bytes : align_up 20 8 * 3 < word_mod
unfolding align_up
rounded_bytes = omega arith

pool_create_example : Returns (pool_create ledger 20 3 8 two_blocks) (Created 20 3 8 two_blocks)
pool_create_example =
    pool_create-Created 20 3 8 two_blocks eight (omega arith) (omega arith) (omega arith)
      (omega arith) rounded_bytes

alloc_each_example :
    Returns
      (alloc_each 3 busy 10 4)
      (λ r. (r.0 ≡ granted 4096 16 (0 ∷ 2 ∷ [])) × IsPool r.1 [] (onto (0 ∷ 2 ∷ []) (1 ∷ [])))
alloc_each_example =
    alloc_each-granted busy (0 ∷ 2 ∷ []) (1 ∷ []) 10 4 busy-IsPool (omega arith) (omega arith)
