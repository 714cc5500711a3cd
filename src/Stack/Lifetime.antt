-- ===== src/Stack/Lifetime.antt =====
-- `stack_create` and `stack_destroy` over a source that records what it has handed out.
use c_base.Base.{ℕ, ◌≡◌, refl, ◌∙◌, inl, inr, none, some, ◌∷◌}
use c_base.Base.Run.{◌>>=◌, Returns}
use c_base.Allocator.{Allocator}
use c_base.Source.Ledger.{Ledger, ledger, reserve_cases, release_top}
use c_base.Stack.{
  StackHeader, StackCtx, stack_ctx_size, stack_init, stack_create_at, stack_create, stack_destroy,
}

-- `memory` is what the buffer holds at first.
-- A failed creation has left nothing reserved. A successful one made an empty stack of the capacity
-- asked for, and destroying it releases all that creating it reserved.
module _ (memory : ℕ → StackHeader) where
  abbrev pub Created : ℕ → Ledger → Allocator StackCtx × Ledger → Type 0
  Created capacity l (none, m) = m.live ≡ l.live
  Created capacity l (some h, m) =
      (h.ctx ≡ stack_init h.ctx.buffer capacity memory)
      × Returns (stack_destroy ledger (some h) m) (λ r. (r.0 ≡ none) × (r.1.live ≡ l.live))

  create_at-Created :
      (address capacity : ℕ) (l m : Ledger)
      → m.live ≡ (address, stack_ctx_size) ∷ l.live
      → Returns (stack_create_at ledger memory address capacity m) (Created capacity l)
  unfolding stack_create_at stack_destroy stack_init
  create_at-Created address capacity l m e = elim (reserve_cases m capacity 16 0) [
    | inl (m', run, same) ↦
        let (m'', release, back) = release_top m' address stack_ctx_size l.live (same ∙ e) in
        ((none, m''), rw (run, ◌>>=◌, release), back)
    | inr (b, m', run, more) ↦
        let (m₁, release₁, back₁) = release_top m' b capacity m.live more in
        let (m₂, release₂, back₂) = release_top m₁ address stack_ctx_size l.live (back₁ ∙ e) in
        (
          (some (record { address = address; ctx = stack_init b capacity memory }), m'),
          rw (run, ◌>>=◌),
          (refl, ((none, m₂), rw (release₁, ◌>>=◌, release₂), (refl, back₂))),
        )
  ]

  -- Whatever the memory source answers, `stack_create` does not fault, and either fails with nothing
  -- left reserved, or makes a stack that `stack_destroy` takes down without a fault, releasing each
  -- block once and with the size it was reserved with.
  pub stack_create-Created :
      (capacity : ℕ) (l : Ledger)
      → Returns (stack_create ledger memory capacity l) (Created capacity l)
  unfolding stack_create
  stack_create-Created capacity l = elim (reserve_cases l stack_ctx_size 8 0) [
    | inl (m, run, same) ↦ ((none, m), rw (run, ◌>>=◌), same)
    | inr (address, m, run, more) ↦
        let (r, rest, created) = create_at-Created address capacity l m more in
        (r, rw (run, ◌>>=◌) rest, created)
  ]
