-- ===== src/AppSet/PoolControl.antt =====
-- PoolControl of pkg/yurtappmanager/controller/yurtappset/pool_control.go with the StatefulSetAdapter,
-- and getPoolNameFrom of yurtappset_controller_utils.go. The API calls are the record Api over a
-- world `W`; `list_owned` is the list of the sets that match the selector.
pub mod Conversions
mod Examples
use yurt_app_manager.Prelude.{
  ℕ, zero, suc, Bool, true, false, Option, none, some, List, [], ◌∷◌, ◌==◌, String, Error, Result,
  ok, err, panic, ◌>>=◌, GoMap, get, value_of, if◌then◌else◌,
}
use yurt_app_manager.AppSet.Adapter.{
  Library, YurtAppSetTemplate, StatefulSet, PodTemplateSpec, pool_name_label_key,
  annotation_patch_key, is_expected,
}
use yurt_app_manager.AppSet.Template.{apply_pool_template}

-- A pool with the set that it was read from.
pub record Pool : Type 0 where
  pub name : String
  pub namespace : String
  pub pool_ref : StatefulSet
  pub observed_generation : ℕ
  pub replicas : ℕ
  pub ready_replicas : ℕ
  pub patch_info : String

pub record Api (W : Type 0) : Type 0 where
  pub list_claimed : YurtAppSetTemplate → W → Result (List StatefulSet) × W
  pub get : String → String → W → Result StatefulSet × W
  pub create : StatefulSet → W → Option Error × W
  pub update : StatefulSet → W → Option Error × W
  pub delete : StatefulSet → W → Option Error × W

pub get_pool_name_from : GoMap String → Result String
get_pool_name_from labels = elim (get labels pool_name_label_key) [
  | none ↦ err (Error.message "no label found")
  | some name ↦ if name == "" then err (Error.message "label has an empty value") else ok name
]

pub convert_to_pool : StatefulSet → Result Pool
unfolding get_pool_name_from
convert_to_pool set = get_pool_name_from set.labels >>= λ name. ok (record {
  name = name;
  namespace = set.namespace;
  pool_ref = set;
  observed_generation = set.observed_generation;
  replicas = elim set.replicas [ none ↦ 0 | some r ↦ r ];
  ready_replicas = set.ready_replicas;
  patch_info = value_of set.annotations annotation_patch_key;
})

pub convert_all : List StatefulSet → Result (List Pool)
unfolding convert_to_pool
convert_all [] = ok []
convert_all (s ∷ ss) = convert_to_pool s >>= λ pool. convert_all ss >>= λ pools. ok (pool ∷ pools)

-- The zero value of a set.
abbrev pub empty_set : StatefulSet
empty_set = record {
  name = "";
  namespace = "";
  generate_name = "";
  labels = none;
  annotations = none;
  owners = [];
  selector = none;
  replicas = none;
  update_strategy = "";
  pod_management_policy = "";
  service_name = "";
  volume_claim_templates = [];
  revision_history_limit = none;
  template = record {
    labels = none;
    annotations = none;
    spec = record { affinity = none; tolerations = none; containers = "" };
  };
  observed_generation = 0;
  ready_replicas = 0;
}

abbrev pub update_retries : ℕ
update_retries = 5

module _ {W : Type 0} (api : Api W) (library : Library) where
  pub get_all_pools : YurtAppSetTemplate → W → Result (List Pool) × W
  unfolding convert_all
  get_all_pools yas w =
      let (sets, w1) = api.list_claimed yas w in (sets >>= λ claimed. convert_all claimed, w1)

  -- What the template could not be applied to is created all the same.
  pub create_pool : YurtAppSetTemplate → String → String → ℕ → W → Result (Option Error) × W
  create_pool yas pool revision replicas w =
      elim (apply_pool_template library yas pool revision replicas empty_set) [
        | panic ↦ (panic, w)
        | err e ↦ (err e, w)
        | ok (_, set) ↦ (let (e, w1) = api.create set w in (ok e, w1))
      ]

  -- A read, the template, an update; `last` is the error of the update before.
  pub update_from :
      ℕ → Option Error → Pool → YurtAppSetTemplate → String → ℕ → W → Result (Option Error) × W
  update_from zero last pool yas revision replicas w = (ok last, w)
  update_from (suc retries) last pool yas revision replicas w =
      let (got, w1) = api.get pool.namespace pool.pool_ref.name w in
      elim got [
        | err e ↦ (ok (some e), w1)
        | panic ↦ (panic, w1)
        | ok set ↦ elim (apply_pool_template library yas pool.name revision replicas set) [
          | panic ↦ (panic, w1)
          | err e ↦ (ok (some e), w1)
          | ok (some e, _) ↦ (ok (some e), w1)
          | ok (none, applied) ↦
              (let (e, w2) = api.update applied w1 in
                let again = update_from retries e pool yas revision replicas w2 in
                elim e [ none ↦ (ok none, w2) | some _ ↦ again ])
        ]
      ]

  pub update_pool : Pool → YurtAppSetTemplate → String → ℕ → W → Result (Option Error) × W
  unfolding update_from
  update_pool pool yas revision replicas w =
      update_from update_retries none pool yas revision replicas w

  pub delete_pool : Pool → W → Option Error × W
  delete_pool pool w = api.delete pool.pool_ref w

pub pool_is_expected : Pool → String → Bool
pool_is_expected pool revision = is_expected pool.pool_ref.labels revision
