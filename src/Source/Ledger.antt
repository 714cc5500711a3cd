-- ===== src/Source/Ledger.antt =====
-- A memory source for specifications: what each reservation returns is scripted, and the ledger
-- holds the blocks that were handed out and not yet released. To release anything else is a fault.
use c_base.Base.{
  ℕ, List, [], ◌∷◌, Option, none, some, Bool, true, false, ◌&&◌, ◌≡◌, refl, ◌⊎◌, inl, inr, arith,
  ◌==◌, if◌then◌else◌,
}
use c_base.Base.Run.{Run, ok, fault, Fault, Returns}
use c_base.Source.{MemorySource}

-- an address and a size
abbrev pub Block : Type 0
Block = ℕ × ℕ

pub record Ledger : Type 0 where
  pub script : List (Option ℕ)
  pub live : List Block

abbrev pub same : Block → Block → Bool
same (p, m) (q, n) = (p == q) && (m == n)

abbrev pub has : Block → List Block → Bool
has b [] = false
has b (c ∷ cs) = if same b c then true else has b cs

abbrev pub drop_block : Block → List Block → List Block
drop_block b [] = []
drop_block b (c ∷ cs) = if same b c then cs else c ∷ drop_block b cs

unfoldable pub ledger_reserve : Ledger → ℕ → ℕ → ℕ → Run (Option ℕ × Ledger)
ledger_reserve l size alignment flags = elim l.script [
  | [] ↦ ok (none, l)
  | none ∷ rest ↦ ok (none, record l { script = rest })
  | some p ∷ rest ↦ ok (some p, record { script = rest; live = (p, size) ∷ l.live })
]

unfoldable pub ledger_release : Ledger → ℕ → ℕ → Run Ledger
ledger_release l ptr size =
    if has (ptr, size) l.live
    then ok (record l { live = drop_block (ptr, size) l.live })
    else fault Fault.bad_pointer

abbrev pub ledger : MemorySource Ledger
ledger = record { reserve = ledger_reserve; release = ledger_release }

-- What a reservation does to the ledger: nothing, or one more block.
pub reserve_cases :
    (l : Ledger) (size alignment flags : ℕ)
    → ((l' : Ledger) × (ledger_reserve l size alignment flags ≡ ok (none, l')) × (l'.live ≡ l.live))
      ⊎ ((p : ℕ) × (l' : Ledger) × (ledger_reserve l size alignment flags ≡ ok (some p, l'))
          × (l'.live ≡ (p, size) ∷ l.live))
unfolding ledger_reserve
reserve_cases l size alignment flags = go l.script l.live
  where
    go :
        (s : List (Option ℕ)) (live : List Block)
        → let m : Ledger = record { script = s; live = live } in
          ((l' : Ledger) × (ledger_reserve m size alignment flags ≡ ok (none, l'))
            × (l'.live ≡ live))
          ⊎ ((p : ℕ) × (l' : Ledger) × (ledger_reserve m size alignment flags ≡ ok (some p, l'))
              × (l'.live ≡ (p, size) ∷ live))
    go [] live = inl (_, refl, refl)
    go (none ∷ rest) live = inl (_, refl, refl)
    go (some p ∷ rest) live = inr (p, _, refl, refl)

-- The block on top of the ledger can be released.
pub release_top :
    (l : Ledger) (p size : ℕ) (rest : List Block)
    → l.live ≡ (p, size) ∷ rest
    → Returns (ledger_release l p size) (λ l'. l'.live ≡ rest)
unfolding ledger_release
release_top l p size rest e = (record l { live = rest }, rw e (ground arith), refl)
