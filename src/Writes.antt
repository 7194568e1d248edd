-- ===== src/Writes.antt =====
-- The writes of a reconciler, one after the other: each is answered by the API server, and a
-- refused write has been sent all the same.
use yurt_app_manager.Prelude.{
  Option, none, some, List, [], ◌∷◌, ◌++◌, Error, Result, ok, err, panic, ◌≡◌, refl, ap, arith,
  ok_inj, Option-cases, inl, inr,
}

module _ (Write : Type 0) where
  -- The answer to a write may depend on all that were sent before.
  abbrev pub Server : Type 0
  Server = List Write → Write → Option Error

  abbrev pub Writes : Type 0 → Type 0
  Writes A = List Write → Result A × List Write

module _ {Write A : Type 0} where
  abbrev pub pure : A → Writes Write A
  pure a log = (ok a, log)

  abbrev pub lift : Result A → Writes Write A
  lift r log = (r, log)

module _ {Write A B : Type 0} where
  abbrev pub and_then : Result A → (A → Writes Write B) → Writes Write B
  and_then (ok a) f = f a
  and_then (err e) f = λ log. (err e, log)
  and_then panic f = λ log. (panic, log)

  infixl 5 ◌>>=◌ ◌>>◌
  abbrev pub ◌>>=◌ : Writes Write A → (A → Writes Write B) → Writes Write B
  ◌>>=◌ m f log = let (r, log') = m log in and_then r f log'

  abbrev pub ◌>>◌ : Writes Write A → Writes Write B → Writes Write B
  m >> k = m >>= λ _. k

  -- What ran before a successful end has succeeded.
  pub and_then-eq-ok :
      (r : Result A) (f : A → Writes Write B) (log : List Write) {b : B} {end : List Write}
      → and_then r f log ≡ (ok b, end)
      → (a : A) × (r ≡ ok a) × (f a log ≡ (ok b, end))
  and_then-eq-ok (ok a) f log h = (a, refl, h)
  and_then-eq-ok (err e) f log h = cc
  and_then-eq-ok panic f log h = cc

module _ {Write A : Type 0} where
  pub pure-eq-ok :
      (a : A) (log : List Write) {b : A} {end : List Write} → pure a log ≡ (ok b, end) → a ≡ b
  pure-eq-ok a log h = ok_inj (ap (λ (p : Result A × List Write). p.0) h)

  pub log-eq :
      {r r' : Result A} {log log' : List Write}
      → ◌≡◌ {A = Result A × List Write} (r, log) (r', log')
      → log ≡ log'
  log-eq h = ap (λ (p : Result A × List Write). p.1) h

module _ {Write B : Type 0} where
  -- The first part of a run that succeeds has succeeded.
  pub >>-eq-ok :
      (m : Writes Write (Unit {0})) (k : Writes Write B) (log : List Write) {b : B}
      {end : List Write}
      → (m >> k) log ≡ (ok b, end)
      → (mid : List Write) × (m log ≡ (ok tt, mid)) × (k mid ≡ (ok b, end))
  >>-eq-ok m k log h =
      let (_, done, rest) = and_then-eq-ok (m log).0 (λ _. k) (m log).1 h in
      ((m log).1, (λ i. (done i, (m log).1)), rest)

module _ {Write : Type 0} where
  unfoldable pub send : Server Write → Write → Writes Write (Unit {0})
  send answer w log = elim (answer log w) [
    | none ↦ (ok tt, log ++ w ∷ [])
    | some e ↦ (err e, log ++ w ∷ [])
  ]

  -- A write that was not refused stands at the end of the log.
  pub send-eq-ok :
      (answer : Server Write) (w : Write) (log : List Write) {u : Unit {0}} {end : List Write}
      → send answer w log ≡ (ok u, end)
      → end ≡ log ++ w ∷ []
  unfolding send
  send-eq-ok answer w log h = ground arith

  -- What follows a write runs only if the write was not refused.
  pub send-then-eq-ok :
      {B : Type 0} (answer : Server Write) (w : Write) (k : Writes Write B) (log : List Write)
      {b : B} {end : List Write}
      → (send answer w >> k) log ≡ (ok b, end)
      → k (log ++ w ∷ []) ≡ (ok b, end)
  unfolding send
  send-then-eq-ok answer w k log h = elim (Option-cases (answer log w)) [
    | inl e ↦ rw (e, send) at h
    | inr (x, e) ↦ cc (rw (e, send) at h)
  ]

  pub send-eq-err :
      (answer : Server Write) (w : Write) (log : List Write) {e : Error}
      → answer log w ≡ some e
      → send answer w log ≡ (err e, log ++ w ∷ [])
  unfolding send
  send-eq-err answer w log h = rw (h, send) refl
