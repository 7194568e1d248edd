-- ===== src/Util/SlowStart/Quiet.antt =====
-- A batch that ends without an error, as one run of calls of which none fails.
use mathlib.Core.List.{Perm, Permᴰ}
use mathlib.Core.Logic.{∥∥₁_elim}
use mathlib.Core.Bool.{Bool-set}
use yurt_app_manager.Prelude.{
  ℕ, ◌<◌, Bool, false, ◌||◌, Option, none, some, List, [], ◌∷◌, ◌++◌, Error, ◌≡◌, refl, sym, ap,
  ◌∙◌, subst, arith,
}
use yurt_app_manager.Util.SlowStart.{range_from, run_calls, slow_start_batch}
use yurt_app_manager.Util.SlowStart.Laws.{
  Outcome, slow_start_batch-Outcome, run_calls-append, first,
}

first-eq-none : (errors : List Error) → first errors ≡ none → errors ≡ []
first-eq-none [] h = refl
first-eq-none (e ∷ es) h = cc

module _ {W : Type 0} (fn : ℕ → W → Option Error × W) where
  -- A run without errors starts with a call without one.
  pub run_calls-eq-nil :
      (i : ℕ) (is : List ℕ) (w w' : W)
      → run_calls fn (i ∷ is) w ≡ ([], w')
      → ((fn i w).0 ≡ none) × (run_calls fn is (fn i w).1 ≡ ([], w'))
  unfolding run_calls
  run_calls-eq-nil i is w w' h = ground (arith, h)

  pub run_calls-nil : (w w' : W) → run_calls fn [] w ≡ ([], w') → w ≡ w'
  unfolding run_calls
  run_calls-nil w w' h = ap (λ (r : List Error × W). r.1) h

  -- Where the batches end without an error, each index has been called once, in some order, and no
  -- call has failed.
  pub slow_start_batch_quiet :
      (order : ℕ → ℕ → List ℕ)
      → ((start size : ℕ) → Perm (order start size) (range_from start size))
      → (count initial : ℕ) (w : W) → 0 < initial
      → (n : ℕ) × (e : Option Error) × (w' : W) × (slow_start_batch fn order count initial w
          ≡ some (n, e, w'))
        × (e ≡ none → (is : List ℕ) × Perm is (range_from 0 count) × (run_calls fn is w ≡ ([], w')))
  slow_start_batch_quiet order fair count initial w h =
      let (n, e, w', ran, outcome) = slow_start_batch-Outcome fn order fair count initial w h in
      (n, e, w', ran, λ none_reported. all_calls n e w' outcome none_reported)
    where
      all_calls :
          (n : ℕ) (e : Option Error) (w' : W)
          → Outcome fn count initial w n e w'
          → e ≡ none
          → (is : List ℕ) × Perm is (range_from 0 count) × (run_calls fn is w ≡ ([], w'))
      all_calls n e w' outcome none_reported =
          let calls = outcome.before ++ outcome.last in
          let silent = first-eq-none outcome.errors (sym outcome.reported ∙ none_reported) in
          (
            calls,
            subst (λ k. Perm calls (range_from 0 k)) (outcome.complete none_reported) outcome.calls,
            run_calls-append fn outcome.before outcome.last w
                ∙ rw (outcome.quiet, outcome.ran, silent) refl,
          )

-- Whether one of the indices passes a test.
abbrev pub any_at : (ℕ → Bool) → List ℕ → Bool
any_at test [] = false
any_at test (i ∷ is) = test i || any_at test is

any_at-permᴰ : (test : ℕ → Bool) {is js : List ℕ} → Permᴰ is js → any_at test is ≡ any_at test js
any_at-permᴰ test Permᴰ.nil = refl
any_at-permᴰ test (Permᴰ.cons e p) = ground (arith, e, any_at-permᴰ test p)
any_at-permᴰ test (Permᴰ.swap e f) = ground (arith, e, f)
any_at-permᴰ test (Permᴰ.trans p q) = any_at-permᴰ test p ∙ any_at-permᴰ test q

pub any_at-perm : (test : ℕ → Bool) {is js : List ℕ} → Perm is js → any_at test is ≡ any_at test js
any_at-perm test p = ∥∥₁_elim p (Bool-set _ _) (any_at-permᴰ test)
