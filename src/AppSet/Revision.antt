-- ===== src/AppSet/Revision.antt =====
-- pkg/yurtappmanager/controller/yurtappset/revision.go: the revisions of a YurtAppSet. What it calls
-- of k8s.io/kubernetes/pkg/controller/history is the record History, the API calls are the record Api
-- over a world `W`.
pub mod Cleaning
use yurt_app_manager.Prelude.{
  pos, negsuc, ℕ, zero, suc, ◌+◌, ◌-◌, ◌>>=◌, Bool, true, false, Option, none, some, List, [], ◌∷◌,
  ◌==◌, ◌&&◌, not, String, Error, Result, ok, err, panic, GoMap, eqb, leb, add32, length,
  if◌then◌else◌,
}
use yurt_app_manager.AppSet.Types.{YurtAppSet, Int32Pointer}

pub record ControllerRevision : Type 0 where
  pub name : String
  pub namespace : String
  pub revision : ℕ
  pub labels : GoMap String
  pub raw : String

pub record History : Type 0 where
  pub sort_controller_revisions : List ControllerRevision → List ControllerRevision
  pub find_equal_revisions : List ControllerRevision → ControllerRevision → List ControllerRevision
  pub equal_revision : ControllerRevision → ControllerRevision → Bool
  -- ControllerRevisionName of the parent's name and the hash of the revision's data and the count
  pub name_at : String → ControllerRevision → ℕ → String
  -- NewControllerRevision of the owner's name, the labels, the patch, the number and the count; the
  -- reference to the owner is not among the fields of a revision here, and the look-up of the owner's
  -- kind, which is a registered one, does not fail
  pub new_controller_revision : String → GoMap String → String → ℕ → ℕ → Result ControllerRevision

pub record Api (W : Type 0) : Type 0 where
  pub controlled_histories : YurtAppSet → W → Result (List ControllerRevision) × W
  pub create : ControllerRevision → W → Option Error × W
  pub get : String → String → W → Result ControllerRevision × W
  pub update : ControllerRevision → W → Option Error × W
  pub delete : ControllerRevision → W → Option Error × W
  pub get_yurt_app_set_patch : YurtAppSet → Result String

abbrev pub last? : List ControllerRevision → Option ControllerRevision
last? [] = none
last? (r ∷ []) = some r
last? (r ∷ s ∷ rs) = last? (s ∷ rs)

unfoldable pub next_revision : List ControllerRevision → ℕ
next_revision revisions = elim (last? revisions) [ none ↦ 1 | some r ↦ r.revision + 1 ]

abbrev pub drop : ℕ → List ControllerRevision → List ControllerRevision
drop zero rs = rs
drop (suc n) [] = []
drop (suc n) (r ∷ rs) = drop n rs

abbrev pub named : String → List ControllerRevision → Option ControllerRevision
named s [] = none
named s (r ∷ rs) = elim (named s rs) [
  | some q ↦ some q
  | none ↦ if r.name == s then some r else none
]

-- A slice of pointers after the revision that `changed` is of has been changed in place; the names of
-- the revisions of a namespace are all different.
abbrev pub changed_in_place : ControllerRevision → List ControllerRevision → List ControllerRevision
changed_in_place changed [] = []
changed_in_place changed (r ∷ rs) =
    (if r.name == changed.name then changed else r) ∷ changed_in_place changed rs

-- A revision beside the slice of revisions, which stays as it is.
abbrev pub beside :
    {W : Type 0}
    → List ControllerRevision
    → Result ControllerRevision × ℕ × W
    → Result (ControllerRevision × List ControllerRevision) × ℕ × W
beside revisions (ok r, count, w) = (ok (r, revisions), count, w)
beside revisions (err e, count, w) = (err e, count, w)
beside revisions (panic, count, w) = (panic, count, w)

abbrev pub collisions : Option Int32Pointer → ℕ
collisions none = 0
collisions (some p) = p.value

abbrev pub out_of_fuel :
    {W : Type 0}
    → ℕ
    → W
    → Option (Result ControllerRevision × ℕ × W)
    → Result ControllerRevision × ℕ × W
out_of_fuel count w none = (panic, count, w)
out_of_fuel count w (some r) = r

module _ {W : Type 0} (api : Api W) (history : History) where
  -- The loop of cleanExpiredRevision over the rest of the revisions, `exceed` of which are to go.
  unfoldable pub clean_from : String → ℕ → List ControllerRevision → W → Option Error × W
  clean_from live exceed [] w = (none, w)
  clean_from live zero (r ∷ rs) w = (none, w)
  clean_from live (suc exceed) (r ∷ rs) w =
      let skipped = clean_from live exceed rs w in
      let (e, w1) = api.delete r w in
      let next = clean_from live exceed rs w1 in
      if r.name == live then skipped else elim e [ none ↦ next | some x ↦ (some x, w1) ]

  -- With a negative limit the slice after the loop is out of range.
  unfoldable pub clean_expired_revision :
      YurtAppSet → List ControllerRevision → W → Result (List ControllerRevision) × W
  unfolding clean_from
  clean_expired_revision yas revisions w = elim yas.revision_history_limit [
    | none ↦ (panic, w)
    | some (pos limit) ↦
        (let exceed = length revisions - limit in
          let (e, w1) = clean_from yas.status.current_revision exceed revisions w in
          if leb (length revisions) limit
          then (ok revisions, w)
          else (elim e [ none ↦ ok (drop exceed revisions) | some x ↦ err x ], w1))
    | some (negsuc n) ↦
        (let (e, w1) =
            clean_from yas.status.current_revision (length revisions + suc n) revisions w in
          (elim e [ none ↦ panic | some x ↦ err x ], w1))
  ]

  -- The loop of createControllerRevision, on fuel: the revision and the collision count.
  unfoldable pub create_from :
      ℕ → YurtAppSet → ControllerRevision → ℕ → W → Option (Result ControllerRevision × ℕ × W)
  create_from zero parent revision count w = none
  create_from (suc fuel) parent revision count w =
      let clone : ControllerRevision = record revision {
        name = history.name_at parent.name revision count;
      } in
      let (e, w1) = api.create clone w in
      let (got, w2) = api.get parent.namespace clone.name w1 in
      let again = create_from fuel parent revision (add32 count 1) w2 in
      elim e [
        | none ↦ some (ok clone, count, w1)
        | some Error.already_exists ↦ elim got [
          | err x ↦ some (err x, count, w2)
          | panic ↦ some (panic, count, w2)
          | ok exists ↦ if exists.raw == clone.raw then some (ok exists, count, w2) else again
        ]
        | some x ↦ some (err x, count, w1)
      ]

  unfoldable pub new_revision : YurtAppSet → ℕ → ℕ → Result ControllerRevision
  new_revision yas revision count = api.get_yurt_app_set_patch yas >>= λ patch.
      if yas.has_stateful_set_template
      then placed yas.stateful_set_labels patch
      else if yas.has_deployment_template
      then placed yas.deployment_labels patch
      else err (Error.message "YurtAppSet need specific WorkloadTemplate")
    where
      placed : GoMap String → String → Result ControllerRevision
      placed labels patch =
          history.new_controller_revision yas.name labels patch revision count >>= λ cr.
          ok (record cr { namespace = yas.namespace })
