-- ===== src/Util/SlowStart/Laws.antt =====
-- What a run of SlowStartBatch has called, and that its loop ends.
use mathlib.Core.List.Perm
use mathlib.Core.List.{Perm, append-nil}
use native.Mathlib.Nat.{add-zero, zero-add}
use yurt_app_manager.Prelude.{
  ℕ, zero, suc, ◌+◌, ◌-◌, ◌*◌, ◌≤◌, ◌<◌, min, Option, none, some, List, [], ◌∷◌, ◌++◌, Error,
  length, length-append, length-perm, ◌≡◌, refl, ap, ◌∙◌, subst, arith,
}
use yurt_app_manager.Util.SlowStart.{range_from, report, run_calls, batches, slow_start_batch}

length-range_from : (start size : ℕ) → length (range_from start size) ≡ size
length-range_from start zero = refl
length-range_from start (suc size) = ap suc (length-range_from (suc start) size)

range_from-append :
    (start a b : ℕ) → range_from start a ++ range_from (start + a) b ≡ range_from start (a + b)
range_from-append start zero b = rw (add-zero start, zero-add b) refl
range_from-append start (suc a) b =
    let next : start + suc a ≡ suc start + a = omega arith in
    let total : suc a + b ≡ suc (a + b) = omega arith in
    rw (next, total) (ap (λ l. start ∷ l) (range_from-append (suc start) a b))

module _ {W : Type 0} (fn : ℕ → W → Option Error × W) where
  pub run_calls-append :
      (xs ys : List ℕ) (w : W)
      → run_calls fn (xs ++ ys) w ≡ (
        (run_calls fn xs w).0 ++ (run_calls fn ys (run_calls fn xs w).1).0,
        (run_calls fn ys (run_calls fn xs w).1).1,
      )
  unfolding run_calls
  run_calls-append [] ys w = refl
  run_calls-append (x ∷ xs) ys w =
      rw (run_calls-append xs ys (fn x w).1) (report-append (fn x w).0 _ _)
    where
      report-append :
          (e : Option Error) (as' bs : List Error) {v : W}
          → ◌≡◌ {A = List Error × W} (report fn e (as' ++ bs), v) (report fn e as' ++ bs, v)
      report-append none as' bs = refl
      report-append (some e) as' bs = refl

  length-run_calls : (is : List ℕ) (w : W) → length (run_calls fn is w).0 ≤ length is
  unfolding run_calls
  length-run_calls [] w = omega arith
  length-run_calls (i ∷ is) w = ground (arith, length-run_calls is (fn i w).1)

abbrev pub first : List Error → Option Error
first [] = none
first (e ∷ es) = some e

-- A run of SlowStartBatch that gave `n`, `e` and the world `w'`: the batches of calls before its
-- last one, and the last one.
pub record Outcome {W : Type 0} (fn : ℕ → W → Option Error × W) (count initial : ℕ) (w : W) (n : ℕ)
    (e : Option Error) (w' : W) : Type 0 where
  pub before : List ℕ
  pub last : List ℕ
  pub mid : W
  pub errors : List Error
  -- the earlier batches saw no error
  pub quiet : run_calls fn before w ≡ ([], mid)
  pub ran : run_calls fn last mid ≡ (errors, w')
  -- the calls are those of the first indices, each once
  pub calls : Perm (before ++ last) (range_from 0 (length (before ++ last)))
  pub within : length (before ++ last) ≤ count
  -- the last batch is no larger than what succeeded before it, and the initial size more
  pub slow : length last ≤ length before + initial
  pub counted : n + length errors ≡ length (before ++ last)
  pub reported : e ≡ first errors
  pub complete : e ≡ none → length (before ++ last) ≡ count

module _ {W : Type 0} (fn : ℕ → W → Option Error × W) (order : ℕ → ℕ → List ℕ)
    (fair : (start size : ℕ) → Perm (order start size) (range_from start size)) (count initial : ℕ)
    (w0 : W) where
  length-order : (start size : ℕ) → length (order start size) ≡ size
  length-order start size = length-perm (fair start size) ∙ length-range_from start size

  -- The state of the loop at the head of an iteration.
  record Inv (size remaining index successes : ℕ) (w : W) : Type 0 where
    done : List ℕ
    quiet : run_calls fn done w0 ≡ ([], w)
    calls : Perm done (range_from 0 index)
    all_good : successes ≡ index
    total : index + remaining ≡ count
    fits : size ≤ remaining
    slow : size ≤ index + initial
    moves : 0 < remaining → 0 < size

  Inv-length :
      {size remaining index successes : ℕ} {w : W} (i : Inv size remaining index successes w)
      → length i.done ≡ index
  Inv-length {index = index} i = length-perm i.calls ∙ length-range_from 0 index

  calls-append :
      {done : List ℕ} (index size : ℕ)
      → Perm done (range_from 0 index)
      → Perm (done ++ order index size) (range_from 0 (index + size))
  calls-append {done} index size p =
      subst (Perm (done ++ order index size))
        (rw (zero-add index) at (range_from-append 0 index size)) (Perm.append p (fair index size))

  idle : {remaining : ℕ} → (0 < remaining → 0 < 0) → remaining ≡ 0
  idle {remaining = zero} h = refl
  idle {remaining = suc r} h = absurd (omega (arith, h (omega arith)))

  -- An iteration, by what the batch has put on the channel.
  abbrev after : ℕ → ℕ → ℕ → ℕ → ℕ → List Error × W → Option (ℕ × Option Error × W)
  after fuel size remaining index successes (errors, w') =
      let next = successes + (suc size - length errors) in
      let left = remaining - suc size in
      elim errors [
        | e ∷ _ ↦ some (next, some e, w')
        | [] ↦ batches fn order fuel (min (2 * suc size) left) left (index + suc size) next w'
      ]

  -- The loop ends where nothing is left.
  finish :
      {remaining index successes : ℕ} {w : W}
      → Inv 0 remaining index successes w
      → Outcome fn count initial w0 successes none w
  finish i = record {
    before = i.done;
    last = [];
    mid = _;
    errors = [];
    quiet = i.quiet;
    ran = unfold run_calls in refl;
    calls = rw (append-nil i.done, Inv-length i) i.calls;
    within = rw (append-nil i.done) (omega (arith, Inv-length i, i.total));
    slow = omega arith;
    counted = rw (append-nil i.done) (omega (arith, Inv-length i, i.all_good));
    reported = refl;
    complete = λ _. rw (append-nil i.done) (omega (arith, Inv-length i, i.total, idle i.moves));
  }

  fail :
      {size remaining index successes : ℕ} {w : W} (e : Error) (es : List Error) (w' : W)
      → Inv (suc size) remaining index successes w
      → run_calls fn (order index (suc size)) w ≡ (e ∷ es, w')
      → Outcome fn count initial w0 (successes + (suc size - length (e ∷ es))) (some e) w'
  fail {size} {index = index} e es w' i h =
      let batch = order index (suc size) in
      let total = length-append i.done batch in
      let errors : suc (length es) ≤ suc size = omega (
        arith,
        subst (λ r. length r ≤ length batch) (ap (λ (p : List Error × W). p.0) h)
            (length-run_calls fn batch _),
        length-order index (suc size),
      ) in
      record {
        before = i.done;
        last = batch;
        mid = _;
        errors = e ∷ es;
        quiet = i.quiet;
        ran = h;
        calls =
            rw (total, Inv-length i, length-order index (suc size))
              (calls-append index (suc size) i.calls);
        within = omega (arith, total, Inv-length i, length-order index (suc size), i.total, i.fits);
        slow = omega (arith, Inv-length i, length-order index (suc size), i.slow);
        counted =
            omega (arith, total, Inv-length i, length-order index (suc size), i.all_good, errors);
        reported = refl;
        complete = λ p. cc;
      }

  go_on :
      {size remaining index successes : ℕ} {w : W} (w' : W)
      → Inv (suc size) remaining index successes w
      → run_calls fn (order index (suc size)) w ≡ ([], w')
      → Inv
          (min (2 * suc size) (remaining - suc size))
          (remaining - suc size)
          (index + suc size)
          (successes + (suc size - 0))
          w'
  go_on {size} {index = index} w' i h = record {
    done = i.done ++ order index (suc size);
    quiet = run_calls-append fn i.done (order index (suc size)) w0 ∙ rw (i.quiet, h) refl;
    calls = calls-append index (suc size) i.calls;
    all_good = omega (arith, i.all_good);
    total = omega (arith, i.total, i.fits);
    fits = omega arith;
    slow = omega (arith, i.slow);
    moves = λ m. omega arith;
  }

  batches-Outcome :
      (fuel size remaining index successes : ℕ) (w : W)
      → remaining < fuel
      → Inv size remaining index successes w
      → (n : ℕ) × (e : Option Error) × (w' : W) × (batches fn order fuel size remaining index
            successes w
          ≡ some (n, e, w'))
        × Outcome fn count initial w0 n e w'
  unfolding batches
  batches-Outcome zero size remaining index successes w h i = absurd (omega arith)
  batches-Outcome (suc fuel) zero remaining index successes w h i =
      (successes, none, w, refl, finish i)
  batches-Outcome (suc fuel) (suc size) remaining index successes w h i =
      go
        (batches-Outcome fuel (min (2 * suc size) (remaining - suc size)) (remaining - suc size)
          (index + suc size) (successes + (suc size - 0)))
        (run_calls fn (order index (suc size)) w) refl
    where
      go :
          ((w' : W)
            → remaining - suc size < fuel
            → Inv
                (min (2 * suc size) (remaining - suc size))
                (remaining - suc size)
                (index + suc size)
                (successes + (suc size - 0))
                w'
            → (n : ℕ) × (e : Option Error) × (w'' : W) × (batches fn order fuel
                  (min (2 * suc size) (remaining - suc size))
                  (remaining - suc size)
                  (index + suc size)
                  (successes + (suc size - 0))
                  w'
                ≡ some (n, e, w''))
              × Outcome fn count initial w0 n e w'')
          → (r : List Error × W) → run_calls fn (order index (suc size)) w ≡ r
          → (n : ℕ) × (e : Option Error) × (w' : W) × (batches fn order
                (suc fuel)
                (suc size)
                remaining
                index
                successes
                w
              ≡ some (n, e, w'))
            × Outcome fn count initial w0 n e w'
      go more ([], w') h' =
          let (n, e, end, run, out) = more w' (omega (arith, i.fits)) (go_on w' i h') in
          (n, e, end, ap (after fuel size remaining index successes) h' ∙ run, out)
      go more (e ∷ es, w') h' = (
        successes + (suc size - length (e ∷ es)),
        some e,
        w',
        ap (after fuel size remaining index successes) h',
        fail e es w' i h',
      )

-- However the goroutines of each batch interleave, SlowStartBatch with a positive initial size ends and its result is true of
-- the calls that it has made: they are those of the first indices, each once; no error came before
-- the last batch, which is no larger than the calls before it and the initial size together; the
-- successes are the calls less the errors; the error is the first one reported, and without one
-- all of the calls have been made.
pub slow_start_batch-Outcome :
    {W : Type 0} (fn : ℕ → W → Option Error × W) (order : ℕ → ℕ → List ℕ)
    → ((start size : ℕ) → Perm (order start size) (range_from start size))
    → (count initial : ℕ) (w : W) → 0 < initial
    → (n : ℕ) × (e : Option Error) × (w' : W) × (slow_start_batch fn order count initial w
        ≡ some (n, e, w'))
      × Outcome fn count initial w n e w'
unfolding slow_start_batch
slow_start_batch-Outcome fn order fair count initial w pos =
    batches-Outcome fn order fair count initial w (suc count) (min count initial) count 0 0 w
      (omega arith)
      (record {
        done = [];
        quiet = unfold run_calls in refl;
        calls = Perm.refl [];
        all_good = refl;
        total = omega arith;
        fits = omega arith;
        slow = omega arith;
        moves = λ h. omega arith;
      })
