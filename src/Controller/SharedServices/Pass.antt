-- ===== src/Controller/SharedServices/Pass.antt =====
-- reconcileSharedServices as a whole (internal/controller/shared_services.go): planning, the
-- application of the desired Services in the order of their keys, and the deletion of the others. What
-- the pass meets is given by functions of the key that a request is about. A pass returns the
-- requests that it sent and its errors; once the kill switch is found on it ends without an error.
pub mod Untouched
pub mod Justified
pub mod Clean
pub mod Complete
use yanet_operator.Base.{
  Bool, true, false, not, ◌||◌, Option, none, some, List, [], ◌∷◌, ◌++◌, String, ◌==◌, contains,
  if◌then◌else◌, nat_eq, string_eq, int_eq, option_eq, Result, ok, err,
}
use yanet_operator.Base.{pair_eq}
use yanet_operator.Base.Dict.{keys, lookup, has}
use yanet_operator.Base.Text.{text_lt}
use yanet_operator.Base.Sort.{sort_by}
use yanet_operator.Kube.{OwnerReference, ObjectMeta}
use yanet_operator.Api.Names.{NameRules}
use yanet_operator.Api.Types.{YanetConfigSpec}
use yanet_operator.Manifests.Workload.{label_box_type}
use yanet_operator.Manifests.Services.{ServiceSpec, Service}
use yanet_operator.Controller.Apply.{Comparison}
use yanet_operator.Controller.Ownership.{Yanet, group_version}
use yanet_operator.Controller.Placement.{Listings, label_value}
use yanet_operator.Controller.SharedServices.{
  SharedServiceKey, SharedServiceScope, SharedError, Table, Draft, no_draft, key_of,
  add_installations, installations_not_listed, services_not_listed, not_applied, not_deleted,
}
use yanet_operator.Controller.SharedServices.Scopes.{blocked_shared_service_placement_scopes}
use yanet_operator.Controller.SharedServices.Apply.{
  Encounter, Applied, ServiceWrite, delete_service, apply_shared_service, controlled_by,
}

pub data DeleteAnswer : Type 0 where
  deleted gone : DeleteAnswer
  delete_failed : String → DeleteAnswer

-- The kill switch before the application and before the deletion under a key, and the answers.
pub record Cluster : Type 0 where
  pub installations : Result String (List Yanet)
  pub listings : String → Listings
  pub stopped_apply : SharedServiceKey → Bool
  pub encounter : SharedServiceKey → Encounter
  pub services : Result String (List Service)
  pub stopped_delete : SharedServiceKey → Bool
  pub delete : SharedServiceKey → DeleteAnswer

-- The requests sent, the errors, and whether the kill switch ended the pass.
pub record Progress : Type 0 where
  pub sent : List ServiceWrite
  pub protected_scopes : List SharedServiceScope
  pub errors : List SharedError
  pub stopped : Bool

abbrev pub key_precedes : SharedServiceKey → SharedServiceKey → Bool
key_precedes a b = if a.0 == b.0 then text_lt a.1 b.1 else text_lt a.0 b.0

-- The scope of a Service, by its label.
abbrev pub labelled_scope : Service → SharedServiceScope
labelled_scope s = (s.meta.namespace, label_value label_box_type s.meta.labels)

-- metav1.NewControllerRef
abbrev pub config_owner : ObjectMeta → OwnerReference
config_owner config = record {
  api_version = group_version;
  kind = "YanetConfig";
  name = config.name;
  uid = config.uid;
}

module _ (cluster : Cluster) where
  abbrev pub note_applied : SharedServiceKey → Service → Applied → Progress → Progress
  note_applied key service applied p = elim applied.outcome [
    | ok u ↦ record p { sent = p.sent ++ applied.sent }
    | err e ↦ record p {
      sent = p.sent ++ applied.sent;
      errors = p.errors ++ (not_applied key e ∷ []);
      protected_scopes = labelled_scope service ∷ p.protected_scopes;
    }
  ]

  module _ (comparison : Comparison ServiceSpec) (table : Table) where
    -- The body of the loop over the keys, before what follows.
    abbrev pub apply_one :
        List SharedServiceScope
        → SharedServiceKey
        → Option Service
        → (Progress → Progress)
        → Progress
        → Progress
    apply_one migrating k none next p = next p
    apply_one migrating k (some service) next p =
        if contains migrating (labelled_scope service)
        then next p
        else if cluster.stopped_apply k
        then record p { stopped = true }
        else next (
            note_applied k service (apply_shared_service comparison service (cluster.encounter k))
              p)

    -- The loop over the keys of the desired Services.
    unfoldable pub apply_loop :
        List SharedServiceScope → List SharedServiceKey → Progress → Progress
    unfolding apply_shared_service
    apply_loop migrating [] p = p
    apply_loop migrating (k ∷ ks) p =
        apply_one migrating k (lookup k table.desired) (apply_loop migrating ks) p

    abbrev pub is_kept : OwnerReference → List SharedServiceScope → Service → Bool
    is_kept owner protected_scopes service =
        has (key_of service) table.desired
        || contains protected_scopes (labelled_scope service)
        || contains table.blocked (key_of service)
        || not (controlled_by service.meta.controller owner)

    abbrev pub note_deleted : Service → DeleteAnswer → Progress → Progress
    note_deleted service answer p = elim answer [
      | deleted ↦ record p { sent = p.sent ++ (delete_service service ∷ []) }
      | gone ↦ record p { sent = p.sent ++ (delete_service service ∷ []) }
      | delete_failed e ↦ record p {
        sent = p.sent ++ (delete_service service ∷ []);
        errors = p.errors ++ (not_deleted (key_of service) e ∷ []);
      }
    ]

    abbrev pub prune_one : OwnerReference → Service → (Progress → Progress) → Progress → Progress
    prune_one owner s next p =
        if is_kept owner p.protected_scopes s
        then next p
        else if cluster.stopped_delete (key_of s)
        then record p { stopped = true }
        else next (note_deleted s (cluster.delete (key_of s)) p)

    -- The loop over the Services listed for pruning.
    unfoldable pub prune_services : OwnerReference → List Service → Progress → Progress
    unfolding controlled_by
    prune_services owner [] p = p
    prune_services owner (s ∷ ss) p = prune_one owner s (prune_services owner ss) p

    abbrev pub prune_listed : OwnerReference → Result String (List Service) → Progress → Progress
    prune_listed owner (err e) p = record p { errors = p.errors ++ (services_not_listed e ∷ []) }
    prune_listed owner (ok services) p = prune_services owner services p

    abbrev pub prune_unless_stopped : OwnerReference → Progress → Progress
    prune_unless_stopped owner p = if p.stopped then p else prune_listed owner cluster.services p

  module _ (comparison : Comparison ServiceSpec) (rules : NameRules) (short_key : String → String)
      (is_dns1035_label : String → Bool) (meta : ObjectMeta) (config : YanetConfigSpec) where
    -- After the installations have been listed.
    abbrev pub planned : List Yanet → Draft
    planned ys =
        add_installations comparison.same_spec rules short_key is_dns1035_label config
          (config_owner meta) ys no_draft

    abbrev pub after_planning : Draft → Progress
    after_planning d =
        let migrating =
          blocked_shared_service_placement_scopes short_key cluster.listings config d.scopes in
        prune_unless_stopped comparison d.table (config_owner meta) (
          apply_loop comparison d.table migrating.0 (sort_by key_precedes (keys d.table.desired))
            (record {
              sent = [];
              protected_scopes = migrating.0 ++ d.protected_scopes;
              errors = d.errors ++ migrating.1;
              stopped = false;
            }))

    abbrev pub pass : Result String (List Yanet) → Progress
    pass (err e) = record {
      sent = [];
      protected_scopes = [];
      errors = installations_not_listed e ∷ [];
      stopped = false;
    }
    pass (ok ys) = after_planning (planned ys)

    unfoldable pub reconcile_shared_services : Progress
    unfolding add_installations apply_loop prune_services sort_by
        blocked_shared_service_placement_scopes
    reconcile_shared_services = pass cluster.installations

    -- The error that the function returns: none once the kill switch was found on.
    abbrev pub returned_errors : Progress → List SharedError
    returned_errors p = if p.stopped then [] else p.errors
