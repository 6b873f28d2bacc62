-- ===== src/Controller/SharedServices.antt =====
-- The planning of the shared Services: the first loop of reconcileSharedServices
-- (internal/controller/shared_services.go), over the installations of the cluster. apimachinery's
-- semantic comparison of two specs is a parameter.
pub mod Scopes
pub mod Apply
pub mod Pass
pub mod Verdict
pub mod Agreed
pub mod Told
use yanet_operator.Base.{
  Bool, true, false, not, Option, none, some, List, [], ◌∷◌, ◌++◌, String, contains, if◌then◌else◌,
  nat_eq, string_eq, int_eq, option_eq, Result, ok, err,
}
use yanet_operator.Base.{pair_eq}
use yanet_operator.Base.Dict.{Dict, lookup, insert, erase}
use yanet_operator.Kube.{OwnerReference}
use yanet_operator.Api.Names.{NameRules}
use yanet_operator.Api.Errors.{Error}
use yanet_operator.Api.Types.{YanetConfigSpec}
use yanet_operator.Resolve.{ResolvedComponent, ResolvedSidecar}
use yanet_operator.Resolve.Component.{resolve_box_service_component}
use yanet_operator.Resolve.Enabled.{ComponentRef, enabled_components_for_box}
use yanet_operator.Manifests.Services.{
  ServicePlan, ServiceSpec, Service, PlanError, BuildContext, build_services, validate_plan,
  to_service,
}
use yanet_operator.Controller.Apply.{ApplyError}
use yanet_operator.Controller.Ownership.{Yanet}
use yanet_operator.Controller.Placement.{PlacementProducer}

-- A namespace and a name, and a namespace and a box type.
abbrev pub SharedServiceKey : Type 0
SharedServiceKey = String × String

abbrev pub SharedServiceScope : Type 0
SharedServiceScope = String × String

abbrev pub key_of : Service → SharedServiceKey
key_of s = (s.meta.namespace, s.meta.name)

abbrev pub scope_of : Yanet → SharedServiceScope
scope_of yanet = (yanet.meta.namespace, yanet.spec.box_type)

pub data SharedError : Type 0 where
  installations_not_listed services_not_listed : String → SharedError
  components_unresolved : Yanet → Error → SharedError
  component_unresolved : Yanet → ComponentRef → Error → SharedError
  plan_refused : String → String → PlanError → SharedError
  conflicting_plans : SharedServiceKey → SharedError
  producers_not_listed : String → SharedError
  migration_needs_drain : SharedServiceScope → String → PlacementProducer → SharedError
  not_applied : SharedServiceKey → ApplyError → SharedError
  not_deleted : SharedServiceKey → String → SharedError

-- The Services to apply, and the set of the keys with conflicting plans.
pub record Table : Type 0 where
  pub desired : Dict SharedServiceKey Service
  pub blocked : List SharedServiceKey

-- The planning state, with installationFailed in `failed`.
pub record Draft : Type 0 where
  pub table : Table
  pub protected_scopes : List SharedServiceScope
  pub scopes : List SharedServiceScope
  pub failed : Bool
  pub errors : List SharedError

abbrev pub empty_table : Table
empty_table = record { desired = []; blocked = [] }

abbrev pub no_draft : Draft
no_draft = record {
  table = empty_table;
  protected_scopes = [];
  scopes = [];
  failed = false;
  errors = [];
}

abbrev pub fail : SharedError → Draft → Draft
fail e d = record d { failed = true; errors = d.errors ++ (e ∷ []) }

module _ (same_spec : ServiceSpec → ServiceSpec → Bool) where
  abbrev pub differs_from : Option Service → Service → Bool
  differs_from none service = false
  differs_from (some previous) service = not (same_spec previous.spec service.spec)

  -- What the loop does to the table with one valid Service.
  unfoldable pub put_service : Service → Table → Table
  unfolding insert erase
  put_service service t =
      let key = key_of service in
      if contains t.blocked key
      then t
      else if differs_from (lookup key t.desired) service
      then record { desired = erase key t.desired; blocked = key ∷ t.blocked }
      else record { desired = insert key service t.desired; blocked = t.blocked }

  unfoldable pub add_service : Service → Draft → Draft
  unfolding put_service
  add_service service d =
      let key = key_of service in
      let d' = record d { table = put_service service d.table } in
      if contains d.table.blocked key
      then record d' { failed = true }
      else if differs_from (lookup key d.table.desired) service
      then fail (conflicting_plans key) d'
      else d'

  module _ (rules : NameRules) (short_key : String → String) (is_dns1035_label : String → Bool)
      (config : YanetConfigSpec) (owner : OwnerReference) where
    abbrev pub add_checked : String → ServicePlan → Result PlanError (Unit {0}) → Draft → Draft
    add_checked namespace plan (err e) d = fail (plan_refused namespace plan.name e) d
    add_checked namespace plan (ok u) d = add_service (to_service plan namespace owner) d

    unfoldable pub add_plans : String → List ServicePlan → Draft → Draft
    unfolding add_service validate_plan to_service
    add_plans namespace [] d = d
    add_plans namespace (p ∷ ps) d =
        add_plans namespace ps (add_checked namespace p (validate_plan is_dns1035_label p) d)

    abbrev pub context_of : Yanet → BuildContext
    context_of yanet = record { namespace = yanet.meta.namespace; box_type = yanet.spec.box_type }

    abbrev pub add_resolved :
        Yanet → ComponentRef → Result Error (Option ResolvedComponent) → Draft → Draft
    add_resolved yanet ref (err e) d = fail (component_unresolved yanet ref e) d
    add_resolved yanet ref (ok none) d = d
    add_resolved yanet ref (ok (some component)) d =
        add_plans yanet.meta.namespace
          (build_services ResolvedSidecar short_key (context_of yanet) component) d

    unfoldable pub add_refs : Yanet → List ComponentRef → Draft → Draft
    unfolding add_plans build_services resolve_box_service_component
    add_refs yanet [] d = d
    add_refs yanet (r ∷ rs) d = add_refs yanet rs (
        add_resolved yanet r
          (resolve_box_service_component rules short_key config yanet.spec.box_type r.kind
            r.operator_name)
          d)

    abbrev pub protect : SharedServiceScope → Draft → Draft
    protect scope d = record d { protected_scopes = scope ∷ d.protected_scopes }

    abbrev pub protect_failed : SharedServiceScope → Draft → Draft
    protect_failed scope d = if d.failed then protect scope d else d

    abbrev pub add_enabled : Yanet → Result Error (List ComponentRef) → Draft → Draft
    add_enabled yanet (err e) d = protect (scope_of yanet) (fail (components_unresolved yanet e) d)
    add_enabled yanet (ok refs) d = protect_failed (scope_of yanet) (add_refs yanet refs d)

    unfoldable pub add_installations : List Yanet → Draft → Draft
    unfolding add_refs enabled_components_for_box
    add_installations [] d = d
    add_installations (y ∷ ys) d =
        if y.meta.deleting
        then add_installations ys d
        else let fresh = record d { scopes = scope_of y ∷ d.scopes; failed = false } in
          add_installations ys
            (add_enabled y (enabled_components_for_box short_key config y.spec.box_type) fresh)
