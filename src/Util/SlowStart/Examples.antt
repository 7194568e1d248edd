-- ===== src/Util/SlowStart/Examples.antt =====
-- A batch of calls, for the theorem about SlowStartBatch.
use mathlib.Core.List.Permᴰ
use yurt_app_manager.Prelude.{ℕ, ◌+◌, Option, none, Error, ◌≡◌, some, arith}
use yurt_app_manager.Util.SlowStart.{range_from, slow_start_batch}
use yurt_app_manager.Util.SlowStart.Laws.{Outcome, slow_start_batch-Outcome}

-- The calls succeed and are counted.
abbrev count_call : ℕ → ℕ → Option Error × ℕ
count_call index w = (none, w + 1)

slow_start_batch-Outcome_example :
    (n : ℕ) × (e : Option Error) × (w' : ℕ) × (slow_start_batch count_call range_from 5 1 0
      ≡ some (n, e, w'))
    × Outcome count_call 5 1 0 n e w'
slow_start_batch-Outcome_example =
    slow_start_batch-Outcome count_call range_from
      (λ start size. ∣ Permᴰ.refl (range_from start size) ∣₁) 5 1 0 (omega arith)
