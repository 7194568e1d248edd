-- ===== src/RefManager/Claims.antt =====
-- What a claim has seen and written.
use yurt_app_manager.Prelude.{
  true, false, none, some, List, [], ◌∷◌, ◌++◌, String, Error, Result, ok, err, panic, ◌≡◌, ◌⊎◌,
  eq_iff, inl, inr, refl, sym, ap, ◌∙◌, arith, Option-cases,
}
use yurt_app_manager.Writes.{
  Server, Writes, send, send-eq-ok, send-eq-err, and_then-eq-ok, >>-eq-ok, log-eq, lift, and_then,
  ◌>>=◌,
}
use yurt_app_manager.RefManager.{
  Object, Owner, Library, OwnerReference, matches, without_owner, can_adopt, adopt, release,
  claim_object, claim_owned_objects, wrap, wrap_writes,
}

value_log :
    {A : Type 0} {r r' : Result A} {l m : List Object}
    → ◌≡◌ {A = Result A × List Object} (r, l) (r', m)
    → r ≡ r'
value_log {A} h = ap (λ (p : Result A × List Object). p.0) h

wrap-eq-ok : {A : Type 0} (text : String) (r : Result A) {a : A} → wrap text r ≡ ok a → r ≡ ok a
wrap-eq-ok text (ok a) h = h
wrap-eq-ok text (err e) h = cc
wrap-eq-ok text panic h = cc

ok-injective : {A : Type 0} {a b : A} → ok a ≡ ok b → a ≡ b
ok-injective {A} {a} h = ap value h
  where
    value : Result A → A
    value (ok b) = b
    value _ = a

log-bind-lift :
    {A B : Type 0} (m : Writes Object A) (f : A → Result B) (log : List Object)
    → ((m >>= λ a. lift (f a)) log).1 ≡ (m log).1
log-bind-lift {A} m f log = go (m log)
  where
    go : (p : Result A × List Object) → (and_then p.0 (λ a. lift (f a)) p.1).1 ≡ p.1
    go (ok a, l) = refl
    go (err e, l) = refl
    go (panic, l) = refl

module _ (lib : Library) (owner : Owner) (answer : Server Object) where
  claim_object_deleting :
      (obj : Object) (log : List Object)
      → owner.deleting ≡ true
      → (claim_object lib owner answer obj log).1 ≡ log
  unfolding claim_object
  claim_object_deleting obj log h = ground arith

  -- An owner that is being deleted writes no object, whatever it is asked to claim.
  pub claim_owned_objects_deleting :
      (objs log : List Object)
      → owner.deleting ≡ true
      → (claim_owned_objects lib owner answer objs log).1 ≡ log
  unfolding claim_owned_objects
  claim_owned_objects_deleting [] log h = refl
  claim_owned_objects_deleting (obj ∷ objs) log h =
      log-bind-lift (claim_owned_objects lib owner answer objs) _
        (claim_object lib owner answer obj log).1
      ∙ claim_owned_objects_deleting objs (claim_object lib owner answer obj log).1 h
      ∙ claim_object_deleting obj log h

  wrap_writes-eq-ok :
      (text : String) (obj : Object) (log : List Object) {mid : List Object}
      → wrap_writes text (send answer obj) log ≡ (ok tt, mid)
      → mid ≡ log ++ obj ∷ []
  wrap_writes-eq-ok text obj log h =
      sym (log-eq h)
      ∙ send-eq-ok answer obj log
          (λ i. (wrap-eq-ok text (send answer obj log).0 (value_log h) i, (send answer obj log).1))

  adopt-eq-ok :
      (obj obj' : Object) (log log' : List Object)
      → adopt lib owner answer obj log ≡ (ok obj', log')
      → (lib.set_controller_reference owner obj ≡ ok obj')
        × (log' ≡ log ++ obj' ∷ [])
        × (can_adopt lib owner answer ≡ ok tt)
  unfolding adopt
  adopt-eq-ok obj obj' log log' h =
      let (_, may, h1) =
        and_then-eq-ok (wrap "can't adopt Object" (can_adopt lib owner answer)) _ log h in
      let (owned, set, h2) =
        and_then-eq-ok
          (wrap "can't set Object owner reference" (lib.set_controller_reference owner obj)) _ log
          h1 in
      let (mid, sent, last) =
        >>-eq-ok (wrap_writes "can't update Object owner reference" (send answer owned)) _ log h2 in
      let object = ok-injective (value_log last) in
      (
        wrap-eq-ok "can't set Object owner reference" (lib.set_controller_reference owner obj) set
            ∙ ap (λ (o : Object). ok o) object,
        sym (log-eq last)
            ∙ wrap_writes-eq-ok "can't update Object owner reference" owned log sent
            ∙ ap (λ (o : Object). log ++ o ∷ []) object,
        wrap-eq-ok "can't adopt Object" (can_adopt lib owner answer) may,
      )

  -- An object that its controller no longer selects and that is gone when its owner reference is to
  -- be dropped: the answer `not found` comes out of the claim as an error, wrapped.
  pub claim_object_vanished :
      (obj : Object) (log : List Object) (controller : OwnerReference) (refs : List OwnerReference)
      → lib.controller_of obj.owner_references ≡ some controller
      → controller.uid ≡ owner.uid
      → matches lib owner answer obj ≡ false
      → owner.deleting ≡ false
      → without_owner owner obj.owner_references ≡ some refs
      → answer log (record obj { owner_references = refs }) ≡ some Error.not_found
      → (claim_object lib owner answer obj log).0
        ≡ err (Error.wrapped "can't remove owner reference" Error.not_found)
  unfolding claim_object release
  claim_object_vanished obj log controller refs c u m d r gone = ground (
    arith,
    eq_iff controller.uid owner.uid,
    send-eq-err answer (record obj { owner_references = refs }) log gone,
  )

  controlled_claimed :
      (obj obj' : Object) (log log' : List Object) (c : OwnerReference)
      → lib.controller_of obj.owner_references ≡ some c
      → claim_object lib owner answer obj log ≡ (ok (true, obj'), log')
      → (matches lib owner answer obj ≡ true) × (c.uid ≡ owner.uid) × (obj' ≡ obj) × (log' ≡ log)
  unfolding claim_object
  controlled_claimed obj obj' log log' c e h = ground (arith, eq_iff c.uid owner.uid)

  orphan_claimed :
      (obj obj' : Object) (log log' : List Object)
      → lib.controller_of obj.owner_references ≡ none
      → claim_object lib owner answer obj log ≡ (ok (true, obj'), log')
      → (matches lib owner answer obj ≡ true)
        × (owner.deleting ≡ false)
        × (obj.deleting ≡ false)
        × (adopt lib owner answer obj log ≡ (ok obj', log'))
  unfolding claim_object
  orphan_claimed obj obj' log log' e h = ground arith

  -- A claim that succeeds: the object passes the selector and the filters, and either the owner
  -- controls it already and nothing is written, or it had no controller, neither it nor the owner
  -- is being deleted, the owner was read again and may adopt, and the object with its new owner
  -- reference is the one write.
  pub claim_object_claimed :
      (obj obj' : Object) (log log' : List Object)
      → claim_object lib owner answer obj log ≡ (ok (true, obj'), log')
      → (matches lib owner answer obj ≡ true)
        × (((controller : OwnerReference) × (lib.controller_of obj.owner_references
                ≡ some controller)
              × (controller.uid ≡ owner.uid)
              × (obj' ≡ obj)
              × (log' ≡ log))
            ⊎ ((lib.controller_of obj.owner_references ≡ none)
                × (owner.deleting ≡ false)
                × (obj.deleting ≡ false)
                × (can_adopt lib owner answer ≡ ok tt)
                × (lib.set_controller_reference owner obj ≡ ok obj')
                × (log' ≡ log ++ obj' ∷ [])))
  claim_object_claimed obj obj' log log' h =
      elim (Option-cases (lib.controller_of obj.owner_references)) [
        | inl orphan ↦
            let (m, d, d', run) = orphan_claimed obj obj' log log' orphan h in
            let (set, writes, may) = adopt-eq-ok obj obj' log log' run in
            (m, inr (orphan, d, d', may, set, writes))
        | inr (c, e) ↦
            let (m, u, o, l) = controlled_claimed obj obj' log log' c e h in
            (m, inl (c, e, u, o, l))
      ]
