-- ===== src/Webhook/Ingresses.antt =====
-- pkg/yurtappmanager/webhook/yurtingress/yurtingress_validating.go: which node pools an ingress may
-- have. The two lists of the API server are arguments; an ingress is its name and the names of its
-- pools. SetDefaultsYurtIngress is of pkg/yurtappmanager/apis/apps/v1alpha1/defaults.go.
pub mod Exclusive
use Prim.Native.String.{◌++◌}
use yurt_app_manager.Prelude.{
  ℕ, Bool, true, false, Option, none, some, List, [], ◌∷◌, ◌==◌, ◌&&◌, not, String, Error, Result,
  ok, err, panic, has, is_empty, eqb, lookup, insert, if◌then◌else◌,
}
use yurt_app_manager.Webhook.Fields.{FieldError, ErrorList, forbidden, children}

pub record Spec : Type 0 where
  pub ingress_controller_image : String
  pub ingress_webhook_cert_gen_image : String
  pub replicas : ℕ
  pub pools : List String

unfoldable pub set_defaults_yurt_ingress : Spec → Spec
set_defaults_yurt_ingress spec = record spec {
  ingress_controller_image =
      or_default "registry.k8s.io/ingress-nginx/controller:v0.48.1" spec.ingress_controller_image;
  ingress_webhook_cert_gen_image =
      or_default "docker.io/jettech/kube-webhook-certgen:v1.5.1"
        spec.ingress_webhook_cert_gen_image;
  replicas = if eqb spec.replicas 0 then 1 else spec.replicas;
}
  where
    or_default : String → String → String
    or_default image given = if given == "" then image else given

abbrev pub not_allowed : String → ErrorList
not_allowed detail = forbidden (children ("spec" ∷ "pools" ∷ [])) detail ∷ []

-- The pools of an ingress, and of all: a later ingress overwrites an earlier one.
unfoldable pub enable_each : String → List String → List (String × String) → List (String × String)
enable_each ingress [] m = m
enable_each ingress (p ∷ ps) m = enable_each ingress ps (insert p ingress m)

unfoldable pub enabled_pools :
    List (String × List String) → List (String × String) → List (String × String)
unfolding enable_each
enabled_pools [] m = m
enabled_pools ((ingress, pools) ∷ ingresses) m =
    enabled_pools ingresses (enable_each ingress pools m)

-- The loop over the pools of the spec.
unfoldable pub check_pools : String → List (String × String) → List String → List String → ErrorList
check_pools name enabled node_pools [] = []
check_pools name enabled node_pools (p ∷ ps) =
    let rest = check_pools name enabled node_pools ps in
    if not (has p node_pools)
    then not_allowed (p ++ " does not exist in the cluster!")
    else elim (lookup p enabled) [
      | none ↦ rest
      | some ingress ↦
          if ingress == name
          then rest
          else not_allowed
              ("Nodepool \"" ++ p ++ "\" has been enabled in \"" ++ ingress ++ "\" already!")
    ]

-- Only the first list that fails is told of; without node pools nothing is checked.
unfoldable pub validate_yurt_ingress_spec :
    Result (List (String × List String))
    → Result (List String)
    → String
    → List String
    → Bool
    → Result ErrorList
unfolding enabled_pools check_pools
validate_yurt_ingress_spec ingresses node_pools name [] is_delete = ok []
validate_yurt_ingress_spec panic node_pools name (p ∷ ps) is_delete = panic
validate_yurt_ingress_spec (err e) node_pools name (p ∷ ps) is_delete =
    ok (not_allowed "List YurtIngressList error!")
validate_yurt_ingress_spec (ok ingresses) panic name (p ∷ ps) is_delete = panic
validate_yurt_ingress_spec (ok ingresses) (err e) name (p ∷ ps) is_delete =
    ok (not_allowed "List nodepool list error!")
validate_yurt_ingress_spec (ok ingresses) (ok node_pools) name (p ∷ ps) is_delete =
    if is_empty node_pools
    then ok []
    else ok (
        check_pools name (if is_delete then [] else enabled_pools ingresses []) node_pools (p ∷ ps))
