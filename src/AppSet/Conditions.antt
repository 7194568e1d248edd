-- ===== src/AppSet/Conditions.antt =====
-- NewYurtAppSetCondition, GetYurtAppSetCondition, SetYurtAppSetCondition, RemoveYurtAppSetCondition
-- and filterOutCondition of
-- pkg/yurtappmanager/controller/yurtappset/yurtappset_controller_utils.go.
use yurt_app_manager.Prelude.{
  ℕ, true, false, Option, none, some, List, [], ◌∷◌, ◌++◌, ◌==◌, ◌&&◌, String, ◌≡◌, refl, sym, ap,
  ◌∙◌, arith, eq_iff, eq_refl, if◌then◌else◌, All, All-append, Bool-cases, Option-cases, inl, inr,
}
use yurt_app_manager.AppSet.Types.{Condition}

-- `now` is the time of the call.
pub new_condition : ℕ → String → String → String → String → Condition
new_condition now kind status reason message = record {
  kind = kind;
  status = status;
  last_transition_time = now;
  reason = reason;
  message = message;
}

unfoldable pub get_condition : List Condition → String → Option Condition
get_condition [] kind = none
get_condition (c ∷ cs) kind = if c.kind == kind then some c else get_condition cs kind

pub filter_out_condition : List Condition → String → List Condition
filter_out_condition [] kind = []
filter_out_condition (c ∷ cs) kind =
    let rest = filter_out_condition cs kind in if c.kind == kind then rest else c ∷ rest

-- The condition to store, given the current one of that type.
transitioned : Condition → Condition → Condition
transitioned current c =
    if current.status == c.status
    then record c { last_transition_time = current.last_transition_time }
    else c

pub set_condition : List Condition → Condition → List Condition
unfolding transitioned filter_out_condition get_condition
set_condition cs c = elim (get_condition cs c.kind) [
  | none ↦ filter_out_condition cs c.kind ++ c ∷ []
  | some current ↦
      if current.status == c.status && current.reason == c.reason
      then cs
      else filter_out_condition cs c.kind ++ transitioned current c ∷ []
]

pub remove_condition : List Condition → String → List Condition
unfolding filter_out_condition
remove_condition cs kind = filter_out_condition cs kind

get-filter_out :
    (cs : List Condition) (kind other : String)
    → get_condition (filter_out_condition cs kind) other
      ≡ (if kind == other then none else get_condition cs other)
unfolding get_condition filter_out_condition
get-filter_out [] kind other = ground arith
get-filter_out (c ∷ cs) kind other = ground (
  arith,
  get-filter_out cs kind other,
  eq_iff c.kind kind,
  eq_iff c.kind other,
  eq_iff kind other,
)

-- Once a condition is removed, none of its type is found, and those of other types are found as
-- before.
pub get-remove_condition :
    (cs : List Condition) (kind other : String)
    → get_condition (remove_condition cs kind) other
      ≡ (if kind == other then none else get_condition cs other)
unfolding remove_condition
get-remove_condition cs kind other = get-filter_out cs kind other

get-append :
    (cs : List Condition) (c : Condition) (other : String)
    → get_condition cs c.kind ≡ none
    → get_condition (cs ++ c ∷ []) other
      ≡ (if c.kind == other then some c else get_condition cs other)
unfolding get_condition
get-append [] c other h = refl
get-append (d ∷ cs) c other h =
    ground
      (arith, get-append cs c other, eq_iff d.kind c.kind, eq_iff d.kind other, eq_iff c.kind other)

get-replaced :
    (cs : List Condition) (c : Condition) (other : String)
    → get_condition (filter_out_condition cs c.kind ++ c ∷ []) other
      ≡ (if c.kind == other then some c else get_condition cs other)
get-replaced cs c other =
    get-append (filter_out_condition cs c.kind) c other
      (get-filter_out cs c.kind c.kind ∙ rw (eq_refl c.kind) refl)
    ∙ ground (arith, get-filter_out cs c.kind other)

-- What is found of a condition's type after it has been set.
abbrev pub stored : Option Condition → Condition → Condition
stored none c = c
stored (some current) c =
    if current.status == c.status && current.reason == c.reason
    then current
    else if current.status == c.status
    then record c { last_transition_time = current.last_transition_time }
    else c

found_eq :
    (cs : List Condition) (c : Condition) (other : String) (d : Condition)
    → get_condition cs c.kind ≡ some d
    → (c.kind == other) ≡ true
    → get_condition cs other ≡ some d
found_eq cs c other d e h = ap (get_condition cs) (sym ((eq_iff c.kind other).0 h)) ∙ e

-- After a condition is set: of its type the current one is found if it has the same status and
-- reason, else the new one, which keeps the current transition time if the status is the same; of
-- another type what was found before.
pub get-set_condition :
    (cs : List Condition) (c : Condition) (other : String)
    → get_condition (set_condition cs c) other ≡ (
        if c.kind == other
        then some (stored (get_condition cs c.kind) c)
        else get_condition cs other)
unfolding set_condition transitioned
get-set_condition cs c other = elim (Option-cases (get_condition cs c.kind)) [
  | inl e ↦ rw (e, set_condition) (get-replaced cs c other)
  | inr (d, e) ↦ ground (
    arith,
    get-replaced cs c other,
    get-replaced cs (record c { last_transition_time = d.last_transition_time }) other,
    eq_iff c.kind other,
    found_eq cs c other d e,
  )
]

-- The conditions of a status have distinct types.
abbrev pub HasOneEach : List Condition → Type 0
HasOneEach [] = Unit
HasOneEach (c ∷ cs) = All (λ d. (d.kind == c.kind) ≡ false) cs × HasOneEach cs

filter_out-All :
    (cs : List Condition) (kind other : String)
    → All (λ d. (d.kind == other) ≡ false) cs
    → All (λ d. (d.kind == other) ≡ false) (filter_out_condition cs kind)
unfolding filter_out_condition
filter_out-All [] kind other h = tt
filter_out-All (c ∷ cs) kind other h = ground (arith, filter_out-All cs kind other)

filter_out-HasOneEach :
    (cs : List Condition) (kind : String)
    → HasOneEach cs
    → HasOneEach (filter_out_condition cs kind)
unfolding filter_out_condition
filter_out-HasOneEach [] kind h = tt
filter_out-HasOneEach (c ∷ cs) kind h =
    ground (arith, filter_out-All cs kind c.kind, filter_out-HasOneEach cs kind)

filtered_out :
    (cs : List Condition) (c : Condition)
    → All (λ d. (c.kind == d.kind) ≡ false) (filter_out_condition cs c.kind)
unfolding filter_out_condition
filtered_out [] c = tt
filtered_out (d ∷ cs) c =
    ground (arith, filtered_out cs c, eq_iff c.kind d.kind, eq_iff d.kind c.kind)

append-HasOneEach :
    (cs : List Condition) (c : Condition)
    → HasOneEach cs
    → All (λ d. (c.kind == d.kind) ≡ false) cs
    → HasOneEach (cs ++ c ∷ [])
append-HasOneEach [] c h k = (tt, tt)
append-HasOneEach (d ∷ cs) c h k = (
  All-append (λ e. (e.kind == d.kind) ≡ false) cs (c ∷ []) h.0 (k.0, tt),
  append-HasOneEach cs c h.1 k.1,
)

replaced-HasOneEach :
    (cs : List Condition) (c : Condition)
    → HasOneEach cs
    → HasOneEach (filter_out_condition cs c.kind ++ c ∷ [])
replaced-HasOneEach cs c h =
    append-HasOneEach (filter_out_condition cs c.kind) c (filter_out-HasOneEach cs c.kind h)
      (filtered_out cs c)

-- Setting a condition keeps the types of the conditions distinct.
pub set_condition-HasOneEach :
    (cs : List Condition) (c : Condition) → HasOneEach cs → HasOneEach (set_condition cs c)
unfolding set_condition transitioned
set_condition-HasOneEach cs c h = elim (Option-cases (get_condition cs c.kind)) [
  | inl e ↦ rw (e, set_condition) (replaced-HasOneEach cs c h)
  | inr (d, e) ↦
      rw (e, set_condition)
        (elim (Bool-cases (d.status == c.status)) [
          | inl s ↦ elim (Bool-cases (d.reason == c.reason)) [
            | inl r ↦ rw (s, r) h
            | inr r ↦
                rw (s, r)
                  (replaced-HasOneEach cs
                    (record c { last_transition_time = d.last_transition_time }) h)
          ]
          | inr s ↦ rw s (replaced-HasOneEach cs c h)
        ])
]

-- A condition whose type is there with the same status and reason is not stored: a message that
-- differs is lost.
pub set_condition_drops_message :
    (cs : List Condition) (c current : Condition)
    → get_condition cs c.kind ≡ some current
    → current.status ≡ c.status
    → current.reason ≡ c.reason
    → set_condition cs c ≡ cs
unfolding set_condition
set_condition_drops_message cs c current found status reason =
    rw (found, set_condition, status, reason, eq_refl c.status, eq_refl c.reason) refl
