-- ===== src/Pool/Blocks.antt =====
-- The blocks of a pool: those in the free list, those that are handed out, and what allocating and
-- freeing do to the two.
use native.Mathlib.Nat.{mul-mod_left, mul-div_cancel, mul_comm, div-add-mod', div-lt_iff_lt-mul}
use c_base.Base.{
  ℕ, zero, suc, ◌+◌, ◌-◌, ◌*◌, ◌/◌, ◌≤◌, ◌<◌, ◌≡◌, ◌≢◌, refl, ap, ◌∙◌, Option, none, some, List, [],
  ◌∷◌, arith, length, get_elem?, set, length-set, get_elem?-set_self, lt-length_of_get_elem?,
}
use mathlib.Core.Path.{subst}
use c_base.Base.Cells.{store-ok}
use c_base.Base.Run.{fault, Fault, Returns}
use c_base.Base.Word.{word_mod, sub_size}
use c_base.Pool.{PoolCtx, pool_alloc, pool_free, pool_reset}
use c_base.Pool.Build.{
  IsChain, Distinct, range, length-range, range-Distinct, IsChain-set, IsReset,
  pool_build_free_list-IsReset,
}
use c_base.Pool.Lists.{
  Apart, AllBelow, erase_at, Distinct-erase, Distinct-get, Apart-erase, Apart-get, Apart-cons,
  AllBelow-erase, AllBelow-get, length_erase,
}

-- The pool with its `free` blocks, in the order of the free list, and its `live` ones.
pub record IsPool (s : PoolCtx) (free live : List ℕ) : Type 0 where
  pub chain : IsChain s.meta s.free_list free
  pub free_distinct : Distinct free
  pub live_distinct : Distinct live
  pub apart : Apart free live
  pub below : AllBelow s.block_count live
  pub count : length free + length live ≡ s.block_count
  pub cells : length s.meta ≡ s.block_count
  pub sized : 0 < s.block_size
  pub ends : s.buffer + s.block_count * s.block_size < word_mod

-- the address of a block
abbrev pub block_at : PoolCtx → ℕ → ℕ
block_at s i = s.buffer + i * s.block_size

-- What `pool_alloc` makes of the free and the live blocks: null from an empty free list, with no
-- change, and otherwise the address of the first free block, which becomes live.
abbrev pub Taken : PoolCtx → List ℕ → List ℕ → Option ℕ × PoolCtx → Type 0
Taken s [] live r = r ≡ (none, s)
Taken s (i ∷ is) live r =
    (r.0 ≡ some (block_at s i))
    × IsPool r.1 is (i ∷ live)
    × (r.1.buffer ≡ s.buffer)
    × (r.1.block_size ≡ s.block_size)
    × (r.1.alignment ≡ s.alignment)

index_fits : (i n size : ℕ) → i < n → i * size ≤ n * size
index_fits i n size h = grind arith

index_lt : (i n size : ℕ) → i < n → 0 < size → i * size < n * size
index_lt i n size h pos = grind arith

-- A request that the assertions let through, on a pool, does not fault, takes the first free block
-- and makes it live, and returns null only when every block is live.
pub pool_alloc-Taken :
    {s : PoolCtx} (free live : List ℕ) (size alignment : ℕ)
    → IsPool s free live
    → size ≤ s.block_size
    → alignment ≤ s.alignment
    → Returns (pool_alloc s size alignment) (Taken s free live)
unfolding pool_alloc
pool_alloc-Taken {s} [] live size alignment p fits aligned =
    ((none, s), ground (arith, p.chain), refl)
pool_alloc-Taken {s} (i ∷ is) live size alignment p fits aligned =
    let (next, head, read, rest) = p.chain in
    let inside : i < s.block_count = rw p.cells at (lt-length_of_get_elem? s.meta i next read) in
    (
      (some (block_at s i), record s { free_list = next }),
      ground (arith, head, read, index_fits i s.block_count s.block_size, p.ends),
      (
        refl,
        record {
          chain = rest;
          free_distinct = p.free_distinct.1;
          live_distinct = (p.apart.0, p.live_distinct);
          apart = Apart-cons i is live p.free_distinct.0 p.apart.1;
          below = (inside, p.below);
          count = omega (arith, p.count);
          cells = p.cells;
          sized = p.sized;
          ends = p.ends;
        },
        refl,
        refl,
        refl,
      ),
    )

-- Freeing any live block of a pool does not fault, and puts it at the head of the free list; the
-- other blocks stay as they were.
pub pool_free-live :
    {s : PoolCtx} (free live : List ℕ) (k i : ℕ)
    → IsPool s free live
    → get_elem? live k ≡ some i
    → Returns (pool_free s (block_at s i)) (λ t. IsPool t (i ∷ free) (erase_at live k))
unfolding pool_free
pool_free-live {s} free live k i p e = (
  record s { meta = set s.meta i s.free_list; free_list = some i },
  ground (
    arith,
    offset,
    below_end,
    p.ends,
    p.sized,
    mul_comm s.block_size s.block_count,
    mul-mod_left i s.block_size,
    mul-div_cancel i {n = s.block_size},
    store-ok s.meta i s.free_list (rw p.cells inside),
  ),
  record {
    chain = (
      s.free_list,
      refl,
      get_elem?-set_self s.meta i s.free_list (rw p.cells inside),
      IsChain-set s.meta s.free_list free i s.free_list (Apart-get free live k i p.apart e) p.chain,
    );
    free_distinct = (Apart-get free live k i p.apart e, p.free_distinct);
    live_distinct = Distinct-erase live k p.live_distinct;
    apart = (Distinct-get live k i p.live_distinct e, Apart-erase free live k p.apart);
    below = AllBelow-erase s.block_count live k p.below;
    count = omega (arith, p.count, length_erase live k i e);
    cells = length-set s.meta i s.free_list ∙ p.cells;
    sized = p.sized;
    ends = p.ends;
  },
)
  where
    inside : i < s.block_count
    inside = AllBelow-get s.block_count live k i p.below e

    below_end : i * s.block_size < s.block_count * s.block_size
    below_end = index_lt i s.block_count s.block_size inside p.sized

    offset : sub_size (block_at s i) s.buffer ≡ i * s.block_size
    offset = omega (arith, p.ends, below_end)

Apart-range : (i n : ℕ) → Apart (range i n) []
Apart-range i zero = tt
Apart-range i (suc n) = (tt, Apart-range (i + 1) n)

-- Resetting a pool of at least one block does not fault, and leaves all its blocks free, in the order
-- of addresses, whatever was live before.
pub pool_reset-IsPool :
    {s : PoolCtx} (free live : List ℕ)
    → IsPool s free live
    → 0 < s.block_count
    → Returns (pool_reset s) (λ t. IsPool t (range 0 s.block_count) [])
unfolding pool_reset
pool_reset-IsPool {s} free live p pos =
    let (t, run, r) = pool_build_free_list-IsReset s pos (omega (arith, p.cells)) in
    (t, run, rebuilt t r)
  where
    rebuilt : (t : PoolCtx) → IsReset s t → IsPool t (range 0 s.block_count) []
    rebuilt t r = record {
      chain =
          subst (λ (n : ℕ). IsChain t.meta t.free_list (range 0 n)) (ap PoolCtx.block_count r.rest)
            r.chain;
      free_distinct = range-Distinct 0 s.block_count;
      live_distinct = tt;
      apart = Apart-range 0 s.block_count;
      below = tt;
      count = omega (arith, length-range 0 s.block_count, ap PoolCtx.block_count r.rest);
      cells = omega (arith, r.same_length, p.cells, ap PoolCtx.block_count r.rest);
      sized = rw r.rest p.sized;
      ends = rw r.rest p.ends;
    }

quotient_lt : (d n size : ℕ) → 0 < size → d < n * size → d / size < n
quotient_lt d n size pos h = (div-lt_iff_lt-mul pos).1 h

-- To free an address that is not the beginning of a block of the pool, in its buffer or outside,
-- fails an assertion.
pub pool_free-foreign :
    {s : PoolCtx} (free live : List ℕ) (ptr : ℕ)
    → IsPool s free live
    → ptr < word_mod
    → ((i : ℕ) → i < s.block_count → ptr ≢ block_at s i)
    → pool_free s ptr ≡ fault Fault.assertion
unfolding pool_free
pool_free-foreign {s} free live ptr p fits foreign = ground (
  arith,
  p.ends,
  p.sized,
  mul_comm s.block_size s.block_count,
  offset,
  quotient_lt (ptr - s.buffer) s.block_count s.block_size p.sized,
  div-add-mod' (ptr - s.buffer) s.block_size,
  foreign ((ptr - s.buffer) / s.block_size),
)
  where
    offset : s.buffer ≤ ptr → sub_size ptr s.buffer ≡ ptr - s.buffer
    offset h = omega arith
