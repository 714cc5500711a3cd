-- ===== src/Pool/Lifetime.antt =====
-- `pool_create` and `pool_destroy` over a source that records what it has handed out.
use mathlib.Core.Path.{subst}
use native.Mathlib.Nat.{mul_comm}
use c_base.Base.{
  ℕ, ◌+◌, ◌*◌, ◌/◌, ◌-◌, ◌≤◌, ◌<◌, ◌≡◌, refl, ap, sym, ◌∙◌, inl, inr, none, some, List, ◌∷◌, arith,
  length, length-replicate, not, ◌==◌,
}
use c_base.Base.Run.{ok, assert, ◌>>=◌, Returns}
use c_base.Base.Word.{word_mod, mul_size, ptr_size}
use c_base.Align.{align_up, check_alignment}
use c_base.Align.Bounds.{IsAlignment, IsAlignUp, align_up-IsAlignUp}
use c_base.Align.Power.{check_alignment_iff}
use c_base.Allocator.{Allocator}
use c_base.Source.Ledger.{Ledger, Block, ledger, reserve_cases, release_top}
use c_base.Pool.{
  PoolCtx, pool_ctx_size, pool_init, pool_create_at, pool_create, pool_destroy, meta_buffer_size,
  fresh_meta,
}
use c_base.Pool.Build.{IsChain, range, pool_build_free_list-IsReset}

-- A pool of `count` blocks of `size` bytes, all of them free, in the order of addresses.
pub record IsFresh (size count alignment : ℕ) (s : PoolCtx) : Type 0 where
  pub chain : IsChain s.meta s.free_list (range 0 count)
  pub cells : length s.meta ≡ count
  pub block_size : s.block_size ≡ size
  pub block_count : s.block_count ≡ count
  pub alignment_kept : s.alignment ≡ alignment

length-fresh_meta :
    (count : ℕ) → pool_ctx_size + 8 * count < word_mod → length (fresh_meta count) ≡ count
length-fresh_meta count h =
    length-replicate ((meta_buffer_size count - align_up pool_ctx_size ptr_size) / 8) none
    ∙ omega (arith, header)
  where
    header : align_up pool_ctx_size ptr_size ≡ pool_ctx_size
    header = unfold align_up in refl

init-IsFresh :
    (buffer size count alignment : ℕ)
    → 0 < count
    → pool_ctx_size + 8 * count < word_mod
    → Returns
        (pool_init buffer (fresh_meta count) size count alignment)
        (λ s. IsFresh size count alignment s × (s.buffer ≡ buffer))
unfolding pool_init
init-IsFresh buffer size count alignment pos fits =
    let s : PoolCtx = record {
      free_list = none;
      buffer = buffer;
      meta = fresh_meta count;
      block_size = size;
      block_count = count;
      alignment = alignment;
    } in
    let (t, run, r) =
      pool_build_free_list-IsReset s pos (omega (arith, length-fresh_meta count fits)) in
    (
      t,
      rw nonzero run,
      (
        record {
          chain =
              subst (λ (n : ℕ). IsChain t.meta t.free_list (range 0 n))
                (ap PoolCtx.block_count r.rest) r.chain;
          cells = r.same_length ∙ length-fresh_meta count fits;
          block_size = ap PoolCtx.block_size r.rest;
          block_count = ap PoolCtx.block_count r.rest;
          alignment_kept = ap PoolCtx.alignment r.rest;
        },
        ap PoolCtx.buffer r.rest,
      ),
    )
  where
    nonzero : assert (not (count == 0)) ≡ ok tt
    nonzero = ground arith

-- A failed creation has left nothing reserved. A successful one made a fresh pool with blocks of the
-- least size that holds `block_size` bytes and keeps the alignment, over a buffer that was reserved
-- with as many bytes as they have together, beside the metadata, and destroying it releases all that
-- creating it reserved.
abbrev pub Created : ℕ → ℕ → ℕ → Ledger → Allocator PoolCtx × Ledger → Type 0
Created block_size count alignment l (none, m) = m.live ≡ l.live
Created block_size count alignment l (some h, m) =
    (size : ℕ) × IsAlignUp block_size alignment size
    × IsFresh size count alignment h.ctx
    × (m.live ≡ (h.ctx.buffer, count * size) ∷ (h.address, pool_ctx_size + 8 * count) ∷ l.live)
    × Returns (pool_destroy ledger (some h) m) (λ r. (r.0 ≡ none) × (r.1.live ≡ l.live))

destroy_top :
    (address : ℕ) (s : PoolCtx) (m : Ledger) (rest : List Block)
    → m.live
      ≡ (s.buffer, mul_size s.block_count s.block_size)
        ∷ (address, meta_buffer_size s.block_count)
        ∷ rest
    → Returns
        (pool_destroy ledger (some (record { address = address; ctx = s })) m)
        (λ r. (r.0 ≡ none) × (r.1.live ≡ rest))
unfolding pool_destroy
destroy_top address s m rest e =
    let (m₁, release₁, back₁) =
      release_top m s.buffer (mul_size s.block_count s.block_size)
        ((address, meta_buffer_size s.block_count) ∷ rest) e in
    let (m₂, release₂, back₂) =
      release_top m₁ address (meta_buffer_size s.block_count) rest back₁ in
    ((none, m₂), rw (release₁, ◌>>=◌, release₂), (refl, back₂))

-- The two blocks of a fresh pool, as `pool_destroy` computes them.
fresh_blocks :
    (b size count alignment address : ℕ) (s : PoolCtx) (live rest : List Block)
    → IsFresh size count alignment s
    → s.buffer ≡ b
    → live ≡ (b, mul_size size count) ∷ (address, meta_buffer_size count) ∷ rest
    → live
      ≡ (s.buffer, mul_size s.block_count s.block_size)
        ∷ (address, meta_buffer_size s.block_count)
        ∷ rest
fresh_blocks b size count alignment address s live rest f at e =
    rw (at, f.block_size, f.block_count, mul_comm count size) e

-- Without a wrap, the two blocks have the sizes that they should have.
whole_blocks :
    (b size count address : ℕ) (s : PoolCtx) (live rest : List Block)
    → size * count < word_mod
    → pool_ctx_size + 8 * count < word_mod
    → s.buffer ≡ b
    → live ≡ (b, mul_size size count) ∷ (address, meta_buffer_size count) ∷ rest
    → live ≡ (s.buffer, count * size) ∷ (address, pool_ctx_size + 8 * count) ∷ rest
whole_blocks b size count address s live rest bytes fits at e =
    e
    ∙ ap (λ n. (b, n) ∷ (address, meta_buffer_size count) ∷ rest)
        (omega (arith, bytes, mul_comm size count))
    ∙ ap (λ n. (b, count * size) ∷ (address, n) ∷ rest) (omega arith)
    ∙ ap (λ n. (n, count * size) ∷ (address, pool_ctx_size + 8 * count) ∷ rest) (sym at)

module _ (block_size size count alignment : ℕ) (up : IsAlignUp block_size alignment size)
    (pos : 0 < count) (fits : pool_ctx_size + 8 * count < word_mod)
    (bytes : size * count < word_mod) where
  create_at-Created :
      (address : ℕ) (l m : Ledger)
      → m.live ≡ (address, meta_buffer_size count) ∷ l.live
      → Returns
          (pool_create_at ledger address size count alignment m)
          (Created block_size count alignment l)
  unfolding pool_create_at pool_destroy
  create_at-Created address l m e = elim (reserve_cases m (mul_size size count) alignment 0) [
    | inl (m', run, same) ↦
        let (m'', release, back) =
          release_top m' address (meta_buffer_size count) l.live (same ∙ e) in
        ((none, m''), rw (run, ◌>>=◌, release), back)
    | inr (b, m', run, more) ↦
        let (s, init, (f, at)) = init-IsFresh b size count alignment pos fits in
        let live = more ∙ ap (λ (t : List Block). (b, mul_size size count) ∷ t) e in
        (
          (some (record { address = address; ctx = s }), m'),
          rw (run, ◌>>=◌, init),
          (
            size,
            up,
            f,
            whole_blocks b size count address s m'.live l.live bytes fits at live,
            destroy_top address s m' l.live
                (fresh_blocks b size count alignment address s m'.live l.live f at live),
          ),
        )
  ]

-- At a power of two for an alignment, with at least one block, and where neither the size of a block
-- rounded up to the alignment, nor the bytes of all blocks, nor those of the metadata wrap,
-- `pool_create` does not fault, whatever the memory source answers. It either fails with nothing left
-- reserved, or makes a pool of `count` blocks, all of them free, whose size is the least multiple of
-- the alignment that is not below the size asked for; it has then reserved exactly the bytes of the
-- blocks and of the metadata. `pool_destroy` takes it down without a fault, releasing each of the two
-- once and with the size it was reserved with.
pub pool_create-Created :
    (block_size count alignment : ℕ) (l : Ledger)
    → IsAlignment alignment
    → alignment < word_mod
    → 0 < count
    → pool_ctx_size + 8 * count < word_mod
    → block_size + alignment ≤ word_mod
    → align_up block_size alignment * count < word_mod
    → Returns
        (pool_create ledger block_size count alignment l)
        (Created block_size count alignment l)
unfolding pool_create
pool_create-Created block_size count alignment l a small pos fits rounds bytes =
    elim (reserve_cases l (meta_buffer_size count) 8 0) [
      | inl (m, run, same) ↦ ((none, m), rw (accepted, ◌>>=◌, run), same)
      | inr (address, m, run, more) ↦
          let (r, rest, created) =
            create_at-Created block_size (align_up block_size alignment) count alignment
              (align_up-IsAlignUp block_size a rounds) pos fits bytes address l m more in
          (r, rw (accepted, ◌>>=◌, run) rest, created)
    ]
  where
    accepted : check_alignment alignment ≡ ok tt
    accepted = (check_alignment_iff alignment small).1 a
