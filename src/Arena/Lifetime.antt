-- ===== src/Arena/Lifetime.antt =====
-- `arena_create` and `arena_destroy` over a source that records what it has handed out.
use c_base.Base.{ℕ, ◌≡◌, refl, ◌∙◌, inl, inr, none, some, ◌∷◌}
use c_base.Base.Run.{◌>>=◌, Returns}
use c_base.Allocator.{Allocator}
use c_base.Source.Ledger.{Ledger, ledger, reserve_cases, release_top}
use c_base.Arena.{
  ArenaCtx, arena_ctx_size, arena_init, arena_create_at, arena_create, arena_destroy,
}

-- A failed creation has left nothing reserved. A successful one made an empty arena of the capacity
-- asked for, and destroying it releases all that creating it reserved.
abbrev pub Created : ℕ → Ledger → Allocator ArenaCtx × Ledger → Type 0
Created capacity l (none, m) = m.live ≡ l.live
Created capacity l (some h, m) =
    (h.ctx ≡ arena_init h.ctx.buffer capacity)
    × Returns (arena_destroy ledger (some h) m) (λ r. (r.0 ≡ none) × (r.1.live ≡ l.live))

create_at-Created :
    (address capacity : ℕ) (l m : Ledger)
    → m.live ≡ (address, arena_ctx_size) ∷ l.live
    → Returns (arena_create_at ledger address capacity m) (Created capacity l)
unfolding arena_create_at arena_destroy arena_init
create_at-Created address capacity l m e = elim (reserve_cases m capacity 16 0) [
  | inl (m', run, same) ↦
      let (m'', release, back) = release_top m' address arena_ctx_size l.live (same ∙ e) in
      ((none, m''), rw (run, ◌>>=◌, release), back)
  | inr (b, m', run, more) ↦
      let (m₁, release₁, back₁) = release_top m' b capacity m.live more in
      let (m₂, release₂, back₂) = release_top m₁ address arena_ctx_size l.live (back₁ ∙ e) in
      (
        (some (record { address = address; ctx = arena_init b capacity }), m'),
        rw (run, ◌>>=◌),
        (refl, ((none, m₂), rw (release₁, ◌>>=◌, release₂), (refl, back₂))),
      )
]

-- Whatever the memory source answers, `arena_create` does not fault, and either fails with nothing
-- left reserved, or makes an arena that `arena_destroy` takes down without a fault, releasing each
-- block once and with the size it was reserved with.
pub arena_create-Created :
    (capacity : ℕ) (l : Ledger) → Returns (arena_create ledger capacity l) (Created capacity l)
unfolding arena_create
arena_create-Created capacity l = elim (reserve_cases l arena_ctx_size 8 0) [
  | inl (m, run, same) ↦ ((none, m), rw (run, ◌>>=◌), same)
  | inr (address, m, run, more) ↦
      let (r, rest, created) = create_at-Created address capacity l m more in
      (r, rw (run, ◌>>=◌) rest, created)
]
