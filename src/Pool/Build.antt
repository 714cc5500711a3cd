-- ===== src/Pool/Build.antt =====
-- The free list in the metadata buffer, and what `pool_build_free_list` builds.
use c_base.Base.{
  ℕ, zero, suc, ◌+◌, ◌-◌, ◌≤◌, ◌<◌, ◌≡◌, ◌≢◌, refl, ap, ◌∙◌, sym, Option, none, some, List, [], ◌∷◌,
  arith, length, get_elem?, set, length-set, get_elem?-set_self, get_elem?-set_ne,
}
use mathlib.Core.Path.{subst}
use c_base.Base.Cells.{store-ok}
use c_base.Base.Run.{◌>>=◌, Returns}
use c_base.Pool.{PoolCtx, build_loop, pool_build_free_list}

-- From `head` the `next` pointers lead through the blocks `is` to the null pointer.
abbrev pub IsChain : List (Option ℕ) → Option ℕ → List ℕ → Type 0
IsChain meta head [] = head ≡ none
IsChain meta head (i ∷ is) =
    (next : Option ℕ) × (head ≡ some i) × (get_elem? meta i ≡ some next) × IsChain meta next is

-- `i` is none of the blocks.
abbrev pub Absent : ℕ → List ℕ → Type 0
Absent i [] = Unit
Absent i (j ∷ js) = (i ≢ j) × Absent i js

abbrev pub Distinct : List ℕ → Type 0
Distinct [] = Unit
Distinct (i ∷ is) = Absent i is × Distinct is

-- the `n` blocks from `i` on
abbrev pub range : ℕ → ℕ → List ℕ
range i zero = []
range i (suc n) = i ∷ range (i + 1) n

pub length-range : (i n : ℕ) → length (range i n) ≡ n
length-range i zero = refl
length-range i (suc n) = ap suc (length-range (i + 1) n)

Absent-range : (j i n : ℕ) → j < i → Absent j (range i n)
Absent-range j i zero h = tt
Absent-range j i (suc n) h = (omega arith, Absent-range j (i + 1) n (omega arith))

pub range-Distinct : (i n : ℕ) → Distinct (range i n)
range-Distinct i zero = tt
range-Distinct i (suc n) = (Absent-range i (i + 1) n (omega arith), range-Distinct (i + 1) n)

-- A write to a block that is not in the chain leaves the chain.
pub IsChain-set :
    (meta : List (Option ℕ)) (head : Option ℕ) (is : List ℕ) (i : ℕ) (v : Option ℕ)
    → Absent i is
    → IsChain meta head is
    → IsChain (set meta i v) head is
IsChain-set meta head [] i v out c = c
IsChain-set meta head (j ∷ js) i v (ne, out) (next, e, read, rest) =
    (next, e, get_elem?-set_ne meta i j v ne ∙ read, IsChain-set meta next js i v out rest)

-- What the loop has built when it stops: the chain from `previous` on, and nothing below it.
record IsBuilt (meta : List (Option ℕ)) (previous left : ℕ) (result : List (Option ℕ))
    : Type 0 where
  chain : IsChain result (some previous) (range previous (suc left))
  below : (j : ℕ) → j < previous → get_elem? result j ≡ get_elem? meta j
  same_length : length result ≡ length meta

build_loop-IsBuilt :
    (left i previous : ℕ) (meta : List (Option ℕ))
    → i ≡ previous + 1
    → previous + left < length meta
    → Returns (build_loop left i previous meta) (IsBuilt meta previous left)
unfolding build_loop
build_loop-IsBuilt zero i previous meta e h = (
  set meta previous none,
  store-ok meta previous none (omega arith),
  record {
    chain = (none, refl, get_elem?-set_self meta previous none (omega arith), refl);
    below = λ j lt. get_elem?-set_ne meta previous j none (omega arith);
    same_length = length-set meta previous none;
  },
)
build_loop-IsBuilt (suc left) i previous meta e h =
    let meta' : List (Option ℕ) = set meta previous (some i) in
    let (result, run, built) =
      build_loop-IsBuilt left (i + 1) i meta' refl
        (omega (arith, length-set meta previous (some i))) in
    (
      result,
      rw (store-ok meta previous (some i) (omega arith), ◌>>=◌) run,
      record {
        chain = (
          some i,
          refl,
          built.below previous (omega arith)
              ∙ get_elem?-set_self meta previous (some i) (omega arith),
          rw (sym e) built.chain,
        );
        below = λ j lt.
            built.below j (omega arith) ∙ get_elem?-set_ne meta previous j (some i) (omega arith);
        same_length = built.same_length ∙ length-set meta previous (some i);
      },
    )

-- What `pool_build_free_list` has done to a pool: every block is free, in the order of addresses.
pub record IsReset (s t : PoolCtx) : Type 0 where
  pub chain : IsChain t.meta t.free_list (range 0 t.block_count)
  pub same_length : length t.meta ≡ length s.meta
  pub rest : t ≡ record s { meta = t.meta; free_list = t.free_list }

-- On a pool with a metadata cell for each of its blocks, of which there is at least one,
-- `pool_build_free_list` does not fault, links all the blocks from the first to the last, and
-- changes nothing else.
pub pool_build_free_list-IsReset :
    (s : PoolCtx)
    → 0 < s.block_count
    → s.block_count ≤ length s.meta
    → Returns (pool_build_free_list s) (IsReset s)
unfolding pool_build_free_list
pool_build_free_list-IsReset s pos fits =
    let (meta, run, built) = build_loop-IsBuilt (s.block_count - 1) 1 0 s.meta refl (omega arith) in
    (
      record s { meta = meta; free_list = some 0 },
      rw (run, ◌>>=◌),
      record {
        chain = subst (λ (n : ℕ). IsChain meta (some 0) (range 0 n)) whole built.chain;
        same_length = built.same_length;
        rest = refl;
      },
    )
  where
    whole : suc (s.block_count - 1) ≡ s.block_count
    whole = omega arith
