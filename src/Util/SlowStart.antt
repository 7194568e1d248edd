-- ===== src/Util/SlowStart.antt =====
-- SlowStartBatch of pkg/yurtappmanager/util/tools.go. The calls of one batch run in goroutines:
-- `order start size` lists the indices of the batch that begins at `start` in the order in which
-- its calls take effect, so a statement about every `order` is one about every interleaving. A call
-- reads and changes a world `W` and returns an error or none.
pub mod Laws
pub mod Quiet
mod Examples
use yurt_app_manager.Prelude.{
  ℕ, zero, suc, ◌+◌, ◌-◌, ◌*◌, min, Option, none, some, List, [], ◌∷◌, Error, length,
}

-- The indices of a batch.
abbrev pub range_from : ℕ → ℕ → List ℕ
range_from start zero = []
range_from start (suc size) = start ∷ range_from (suc start) size

module _ {ℓ} {W : Type ℓ} (fn : ℕ → W → Option Error × W) where
  abbrev pub report : Option Error → List Error → List Error
  report none errors = errors
  report (some e) errors = e ∷ errors

  -- The calls of a batch, with what they put on the error channel. A call and its send on the channel
  -- are one step here, so the errors stand in the order of the calls' effects.
  unfoldable pub run_calls : List ℕ → W → List Error × W
  run_calls [] w = ([], w)
  run_calls (i ∷ is) w =
      let (e, w') = fn i w in let (errors, w'') = run_calls is w' in (report e errors, w'')

  module _ (order : ℕ → ℕ → List ℕ) where
    -- The loop over batches, on fuel: the successes, the first error on the channel, the world.
    -- `none` means that the fuel ran out.
    unfoldable pub batches : ℕ → ℕ → ℕ → ℕ → ℕ → W → Option (ℕ × Option Error × W)
    unfolding run_calls
    batches zero size remaining index successes w = none
    batches (suc fuel) zero remaining index successes w = some (successes, none, w)
    batches (suc fuel) (suc size) remaining index successes w =
        let (errors, w') = run_calls (order index (suc size)) w in
        let next = successes + (suc size - length errors) in
        let left = remaining - suc size in
        elim errors [
          | e ∷ _ ↦ some (next, some e, w')
          | [] ↦ batches fuel (min (2 * suc size) left) left (index + suc size) next w'
        ]

    unfoldable pub slow_start_batch : ℕ → ℕ → W → Option (ℕ × Option Error × W)
    unfolding batches
    slow_start_batch count initial w = batches (suc count) (min count initial) count 0 0 w
