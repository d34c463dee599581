-- ===== src/Core/Outbox/Calls.antt =====
-- What sequences of calls keep of the outbox: packages/core/src/store.ts.
use bek.Common.{ℕ, ◌∙◌, List, [], ◌∷◌, All, All-imp, All-stand}
use bek.Core.Outbox.{Outbox, OutboxOptions}
use bek.Core.Outbox.Keys.{
  OutboxCommand, keys, Distinct, perform_outbox, run_outbox, perform-Distinct,
}
use bek.Core.Outbox.Stands.{Stands, IsLater-refl, IsStored, run-Stands, enqueue-stores}

module _ (o : OutboxOptions) where
  keys-Distinct :
      (calls : List (OutboxCommand × ℕ)) (b : Outbox)
      → Distinct (keys b)
      → Distinct (keys (run_outbox o calls b))
  unfolding run_outbox
  keys-Distinct [] b h = h
  keys-Distinct ((c, clock) ∷ calls) b h =
      keys-Distinct calls (perform_outbox o c clock b) (perform-Distinct o c clock b h)

  IsStored-first :
      (c : OutboxCommand) (clock : ℕ) (calls : List (OutboxCommand × ℕ)) (b : Outbox)
      → IsStored (run_outbox o calls (perform_outbox o c clock b)) (c, clock)
  unfolding perform_outbox
  IsStored-first (OutboxCommand.enqueue input) clock calls b =
      let (e, i, at, key) = enqueue-stores o input clock b in
      let (later, j, there, v) = run-Stands o calls e _ (e, i, at, IsLater-refl e) in
      (later, j, there, v.same_key ∙ key)
  IsStored-first (OutboxCommand.begin id at) clock calls b = tt
  IsStored-first (OutboxCommand.complete id at) clock calls b = tt
  IsStored-first (OutboxCommand.fail input) clock calls b = tt

  All-IsStored :
      (calls : List (OutboxCommand × ℕ)) (b : Outbox) → All (IsStored (run_outbox o calls b)) calls
  unfolding run_outbox
  All-IsStored [] b = tt
  All-IsStored ((c, clock) ∷ calls) b =
      (IsStored-first c clock calls b, All-IsStored calls (perform_outbox o c clock b))

  -- Whatever is called, no two deliveries have the same key. Every delivery is kept, with its id, its
  -- key, its time of creation and no fewer attempts, and whatever is enqueued has a delivery of its
  -- key in the end.
  pub run_outbox-Distinct :
      (calls : List (OutboxCommand × ℕ)) (b : Outbox)
      → Distinct (keys b)
      → Distinct (keys (run_outbox o calls b))
        × All (λ d. Stands d (run_outbox o calls b)) b.deliveries
        × All (IsStored (run_outbox o calls b)) calls
  run_outbox-Distinct calls b h = (
    keys-Distinct calls b h,
    All-imp _ b.deliveries (λ d (i, at). run-Stands o calls d b (d, i, at, IsLater-refl d))
        (All-stand b.deliveries),
    All-IsStored calls b,
  )
