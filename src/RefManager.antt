-- ===== src/RefManager.antt =====
-- pkg/yurtappmanager/util/refmanager/ref_manager.go: a controller claims the objects that it owns,
-- adopts orphans and releases what its selector no longer matches.
pub mod Claims
mod Examples
use yurt_app_manager.Prelude.{
  ℕ, Bool, true, false, Option, none, some, List, [], ◌∷◌, ◌++◌, ◌==◌, ◌&&◌, ◌||◌, not, String,
  GoMap, Error, Result, ok, err, panic, if◌then◌else◌,
}
use yurt_app_manager.Writes.{Server, Writes, pure, lift, send, ◌>>=◌, ◌>>◌}

pub record OwnerReference : Type 0 where
  pub uid : String
  pub controller : Bool

pub record Object : Type 0 where
  pub name : String
  pub labels : GoMap String
  pub owner_references : List OwnerReference
  pub deleting : Bool

pub record Owner : Type 0 where
  pub uid : String
  pub deleting : Bool

-- What the manager calls of the Kubernetes libraries: GetControllerOf, the selector's Matches with
-- the filters, SetControllerReference; and its one read of the owner, which `sync.Once` keeps.
pub record Library : Type 0 where
  pub controller_of : List OwnerReference → Option OwnerReference
  pub selector_matches : GoMap String → Bool
  pub filters : List (Object → Bool)
  pub set_controller_reference : Owner → Object → Result Object
  pub fresh_owner : Result Owner

-- `fmt.Errorf` around an error.
abbrev pub wrap {ℓ} : {A : Type ℓ} → String → Result A → Result A
wrap text (ok a) = ok a
wrap text (err e) = err (Error.wrapped text e)
wrap text panic = panic

abbrev pub wrap_writes : {A : Type 0} → String → Writes Object A → Writes Object A
wrap_writes text m log = let (r, log') = m log in (wrap text r, log')

-- The first reference to the owner is dropped.
unfoldable pub without_owner : Owner → List OwnerReference → Option (List OwnerReference)
without_owner owner [] = none
without_owner owner (r ∷ rs) =
    let rest = without_owner owner rs in
    if r.uid == owner.uid then some rs else elim rest [ none ↦ none | some rs' ↦ some (r ∷ rs') ]

module _ (lib : Library) (owner : Owner) (answer : Server Object) where
  unfoldable pub passes : List (Object → Bool) → Object → Bool
  passes [] obj = true
  passes (f ∷ fs) obj = if not (f obj) then false else passes fs obj

  unfoldable pub matches : Object → Bool
  unfolding passes
  matches obj = if not (lib.selector_matches obj.labels) then false else passes lib.filters obj

  -- canAdopt: none, or why the owner may not adopt.
  pub can_adopt : Result (Unit {0})
  can_adopt = elim lib.fresh_owner [
    | err e ↦ err e
    | panic ↦ panic
    | ok fresh ↦
        if not (fresh.uid == owner.uid)
        then err (Error.message "original owner is gone")
        else if fresh.deleting
        then err (Error.message "the owner has just been deleted")
        else ok tt
  ]

  -- The early return where the manager has no schema is left out: can_adopt has read the owner by the
  -- schema before, and panics without one.
  pub adopt : Object → Writes Object Object
  unfolding can_adopt
  adopt obj = do
    lift (wrap "can't adopt Object" can_adopt)
    owned ← lift (wrap "can't set Object owner reference" (lib.set_controller_reference owner obj))
    wrap_writes "can't update Object owner reference" (send answer owned)
    pure owned

  pub release : Object → Writes Object (Unit {0})
  unfolding without_owner
  release obj = elim (without_owner owner obj.owner_references) [
    | none ↦ pure tt
    | some refs ↦
        wrap_writes "can't remove owner reference"
          (send answer (record obj { owner_references = refs }))
  ]

  -- `errors.IsNotFound`: the object is gone, which is no error.
  abbrev unless_not_found : {A : Type 0} → Object → Result A → Result (Bool × Object)
  unless_not_found obj (err Error.not_found) = ok (false, obj)
  unless_not_found obj (err e) = err e
  unless_not_found obj panic = panic
  unless_not_found obj (ok a) = ok (false, obj)

  release_unmatched : Object → Writes Object (Bool × Object)
  unfolding release
  release_unmatched obj log = let (r, log') = release obj log in (unless_not_found obj r, log')

  abbrev adopted : Object → Result Object → Result (Bool × Object)
  adopted obj (ok obj') = ok (true, obj')
  adopted obj r = unless_not_found obj r

  adopt_orphan : Object → Writes Object (Bool × Object)
  unfolding adopt
  adopt_orphan obj log = let (r, log') = adopt obj log in (adopted obj r, log')

  -- Whether the object is claimed, and the object as it then is.
  unfoldable pub claim_object : Object → Writes Object (Bool × Object)
  unfolding release_unmatched adopt_orphan
  claim_object obj = elim (lib.controller_of obj.owner_references) [
    | some controller ↦
        if not (controller.uid == owner.uid)
        then pure (false, obj)
        else if matches obj
        then pure (true, obj)
        else if owner.deleting
        then pure (false, obj)
        else release_unmatched obj
    | none ↦
        if owner.deleting || not (matches obj)
        then pure (false, obj)
        else if obj.deleting
        then pure (false, obj)
        else adopt_orphan obj
  ]

  abbrev add_claim :
      Result (Bool × Object) → List Object × List Error → Result (List Object × List Error)
  add_claim (ok (true, obj)) (objs, errors) = ok (obj ∷ objs, errors)
  add_claim (ok (false, obj)) (objs, errors) = ok (objs, errors)
  add_claim (err e) (objs, errors) = ok (objs, e ∷ errors)
  add_claim panic acc = panic

  -- The claimed objects and the errors, both in the order of the objects.
  pub claim_owned_objects : List Object → Writes Object (List Object × List Error)
  unfolding claim_object
  claim_owned_objects [] log = pure ([], []) log
  claim_owned_objects (obj ∷ objs) log =
      let (r, log') = claim_object obj log in
      (do acc ← claim_owned_objects objs; lift (add_claim r acc)) log'
