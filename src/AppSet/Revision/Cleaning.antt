-- ===== src/AppSet/Revision/Cleaning.antt =====
-- What cleanExpiredRevision deletes and returns, and that createControllerRevision ends.
use yurt_app_manager.Prelude.{
  ℕ, pos, zero, suc, ◌-◌, none, some, List, [], ◌∷◌, ◌==◌, String, Error, Result, ok, length, ◌≡◌,
  ◌≢◌, refl, ap, subst, sym, arith, add32, leb, Option-cases, Bool-cases, ok_inj, true, inl, inr,
  if◌then◌else◌,
}
use yurt_app_manager.AppSet.Types.{YurtAppSet}
use yurt_app_manager.AppSet.Revision.{
  ControllerRevision, History, Api, drop, clean_from, clean_expired_revision, create_from,
}

abbrev pub take : ℕ → List ControllerRevision → List ControllerRevision
take zero rs = []
take (suc n) [] = []
take (suc n) (r ∷ rs) = r ∷ take n rs

abbrev pub not_named : String → List ControllerRevision → List ControllerRevision
not_named live [] = []
not_named live (r ∷ rs) = if r.name == live then not_named live rs else r ∷ not_named live rs

-- The server deletes each of the revisions in turn, and nothing else happens.
abbrev pub Deletes : {W : Type 0} → Api W → List ControllerRevision → W → W → Type 0
Deletes api [] w w' = w ≡ w'
Deletes api (r ∷ rs) w w' = ((api.delete r w).0 ≡ none) × Deletes api rs (api.delete r w).1 w'

abbrev world_of : {W : Type 0} → Result (List ControllerRevision) × W → W
world_of (e, w) = w

abbrev result_of :
    {W : Type 0} → Result (List ControllerRevision) × W → Result (List ControllerRevision)
result_of (e, w) = e

clean_from-Deletes :
    {W : Type 0} (api : Api W) (history : History) (live : String) (exceed : ℕ)
    (rs : List ControllerRevision) (w : W)
    → (clean_from api history live exceed rs w).0 ≡ none
    → Deletes api (not_named live (take exceed rs)) w (clean_from api history live exceed rs w).1
unfolding clean_from
clean_from-Deletes api history live zero [] w h = refl
clean_from-Deletes api history live zero (r ∷ rs) w h = refl
clean_from-Deletes api history live (suc exceed) [] w h = refl
clean_from-Deletes api history live (suc exceed) (r ∷ rs) w h = elim (Bool-cases (r.name == live)) [
  | inl e ↦
      rw (e, clean_from) (clean_from-Deletes api history live exceed rs w (rw (e, clean_from) at h))
  | inr e ↦ elim (Option-cases (api.delete r w).0) [
    | inl d ↦
        rw (e, d, clean_from)
          (
            refl,
            clean_from-Deletes api history live exceed rs (api.delete r w).1
                (rw (e, d, clean_from) at h),
          )
    | inr (x, d) ↦ cc (rw (e, d, clean_from) at h)
  ]
]

-- cleanExpiredRevision, when it succeeds with a history limit that is not negative, has had the server
-- delete, one after the other, the oldest revisions that exceed the limit, but for the live one, and
-- nothing else; it returns the newest revisions, which leave out all that exceed the limit, the live
-- one too.
pub clean_expired_revision-Deletes :
    {W : Type 0} (api : Api W) (history : History) (yas : YurtAppSet) (limit : ℕ)
    (revisions kept : List ControllerRevision) (w w' : W)
    → yas.revision_history_limit ≡ some (pos limit)
    → clean_expired_revision api history yas revisions w ≡ (ok kept, w')
    → Deletes api
        (not_named yas.status.current_revision (take (length revisions - limit) revisions))
        w
        w'
      × (kept ≡ drop (length revisions - limit) revisions)
unfolding clean_expired_revision
clean_expired_revision-Deletes {W} api history yas limit revisions kept w w' some_limit h =
    elim (Bool-cases (leb (length revisions) limit)) [
      | inl e ↦
          (let same : Path (Result (List ControllerRevision) × W) (ok revisions, w) (ok kept, w') =
              rw (some_limit, e, clean_expired_revision) at h in
            subst Left (none_exceed e) (ap world_of same, sym (ok_inj (ap result_of same))))
      | inr e ↦ elim (Option-cases (clean_from api history live exceed revisions w).0) [
        | inl d ↦
            (let same : Path (Result (List ControllerRevision) × W)
                  (ok (drop exceed revisions), (clean_from api history live exceed revisions w).1)
                  (ok kept, w') =
                rw (some_limit, e, d, clean_expired_revision) at h in
              (
                subst (Deletes api (not_named live (take exceed revisions)) w) (ap world_of same)
                    (clean_from-Deletes api history live exceed revisions w d),
                sym (ok_inj (ap result_of same)),
              ))
        | inr (x, d) ↦ cc (ap result_of (rw (some_limit, e, d, clean_expired_revision) at h))
      ]
    ]
  where
    live : String
    live = yas.status.current_revision

    exceed : ℕ
    exceed = length revisions - limit

    Left : ℕ → Type 0
    Left n = Deletes api (not_named live (take n revisions)) w w' × (kept ≡ drop n revisions)

    none_exceed : leb (length revisions) limit ≡ true → 0 ≡ exceed
    none_exceed e = ground (arith, e)

abbrev pub add_times : ℕ → ℕ → ℕ
add_times zero count = count
add_times (suc n) count = add_times n (add32 count 1)

-- createControllerRevision returns: where the server does not say of the name that belongs to some later collision
-- count that it exists already, as many attempts as there are counts before it, and one, are enough.
pub create_from_returns :
    {W : Type 0} (api : Api W) (history : History) (parent : YurtAppSet)
    (revision : ControllerRevision) (n count : ℕ) (w : W)
    → ((v : W)
        → (api.create
            (record revision { name = history.name_at parent.name revision (add_times n count) })
            v).0
          ≢ some Error.already_exists)
    → create_from api history (suc n) parent revision count w ≢ none
unfolding create_from
create_from_returns api history parent revision zero count w free h = ground (arith, free w)
create_from_returns api history parent revision (suc n) count w free h = ground (
  arith,
  create_from_returns api history parent revision n (add32 count 1)
      (api.get parent.namespace (history.name_at parent.name revision count)
        (api.create (record revision { name = history.name_at parent.name revision count }) w).1).1
      free,
)
