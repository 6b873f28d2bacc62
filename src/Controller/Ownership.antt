-- ===== src/Controller/Ownership.antt =====
-- Who owns a Deployment: controlledByYanet (internal/controller/prune.go) and
-- validateDeploymentOwnership (internal/controller/yanet_reconciler.go).
use yanet_operator.Base.{
  ℕ, Bool, false, not, ◌||◌, ◌&&◌, Option, none, some, String, ◌==◌, nat_eq, string_eq, int_eq,
  option_eq, Result, err, ◌>>◌, fail_if,
}
use yanet_operator.Kube.{ObjectMeta, OwnerReference}
use yanet_operator.Api.Types.{YanetSpec}

-- The creation time is a number of seconds.
pub record Yanet : Type 0 where
  pub meta : ObjectMeta
  pub created : ℕ
  pub spec : YanetSpec

abbrev pub group_version : String
group_version = "yanet.yanet-platform.io/v1alpha1"

abbrev pub owned_by : Option OwnerReference → Yanet → Bool
owned_by none yanet = false
owned_by (some owner) yanet =
    owner.api_version == group_version
    && owner.kind == "Yanet"
    && owner.name == yanet.meta.name
    && (yanet.meta.uid == "" || owner.uid == yanet.meta.uid)

unfoldable pub controlled_by_yanet : ObjectMeta → Yanet → Bool
controlled_by_yanet object yanet =
    object.namespace == yanet.meta.namespace && owned_by object.controller yanet

pub data OwnershipError : Type 0 where
  desired_unowned existing_unowned other_instance other_resource : OwnershipError

unfoldable pub same_owner : OwnerReference → OwnerReference → Result OwnershipError (Unit {0})
same_owner existing desired =
    fail_if (not (desired.uid == "") && not (existing.uid == desired.uid)) other_instance
    >> fail_if
        (not (existing.api_version == desired.api_version)
          || not (existing.kind == desired.kind)
          || not (existing.name == desired.name))
        other_resource

unfoldable pub validate_deployment_ownership :
    Option OwnerReference → Option OwnerReference → Result OwnershipError (Unit {0})
unfolding same_owner
validate_deployment_ownership existing none = err desired_unowned
validate_deployment_ownership none (some desired) = err existing_unowned
validate_deployment_ownership (some existing) (some desired) = same_owner existing desired
