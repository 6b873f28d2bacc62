-- ===== src/Manifests/Identity/Labels.antt =====
-- The labels after RestoreWorkloadIdentity (internal/manifests/labels.go).
use yanet_operator.Base.{
  ◌≡◌, refl, ◌&&◌, none, List, [], ◌∷◌, arith, String, starts_with, contains, if◌then◌else◌, nat_eq,
  string_eq, int_eq, option_eq,
}
use yanet_operator.Base.Dict.{
  Dict, keys, lookup, has, erase, IsMap, lookup-erase, lookup-put_all, lookup-of_not_has,
}
use yanet_operator.Manifests.Workload.{Workload, operator_membership_prefix}
use yanet_operator.Manifests.Identity.{
  is_reserved, reserved_labels, erase_all, erase_memberships, workload_identity_labels,
  merge_identity_labels, capture_workload_identity, restore_workload_identity,
}

lookup-reserved_labels :
    (key : String) (labels : Dict String String)
    → lookup key (reserved_labels labels) ≡ (if is_reserved key then lookup key labels else none)
unfolding reserved_labels
lookup-reserved_labels key [] = ground arith
lookup-reserved_labels key ((k, v) ∷ labels) = ground (arith, lookup-reserved_labels key labels)

has-reserved_labels :
    (key : String) (labels : Dict String String)
    → has key (reserved_labels labels) ≡ (is_reserved key && has key labels)
unfolding reserved_labels
has-reserved_labels key [] = ground arith
has-reserved_labels key ((k, v) ∷ labels) = ground (arith, has-reserved_labels key labels)

reserved_labels-IsMap :
    (labels : Dict String String) → IsMap labels → IsMap (reserved_labels labels)
unfolding reserved_labels
reserved_labels-IsMap [] h = tt
reserved_labels-IsMap ((k, v) ∷ labels) h =
    ground (arith, reserved_labels-IsMap labels h.1, has-reserved_labels k labels)

lookup-erase_all :
    (key : String) (ks : List String) (labels : Dict String String)
    → lookup key (erase_all ks labels) ≡ (if contains ks key then none else lookup key labels)
lookup-erase_all key [] labels = refl
lookup-erase_all key (k ∷ ks) labels =
    ground (arith, lookup-erase_all key ks (erase k labels), lookup-erase key k labels)

lookup-erase_memberships :
    (key : String) (ks : List String) (labels : Dict String String)
    → lookup key (erase_memberships ks labels) ≡ (
        if contains ks key && starts_with operator_membership_prefix key
        then none
        else lookup key labels)
lookup-erase_memberships key [] labels = refl
lookup-erase_memberships key (k ∷ ks) labels = ground (
  arith,
  lookup-erase_memberships key ks labels,
  lookup-erase_memberships key ks (erase k labels),
  lookup-erase key k labels,
)

lookup-erase_own :
    (key : String) (labels : Dict String String)
    → lookup key (erase_memberships (keys labels) labels)
      ≡ (if starts_with operator_membership_prefix key then none else lookup key labels)
lookup-erase_own key labels =
    ground (arith, lookup-erase_memberships key (keys labels) labels, lookup-of_not_has key labels)

lookup-merge_identity_labels :
    (key : String) (labels identity : Dict String String)
    → IsMap identity
    → lookup key (merge_identity_labels labels identity) ≡ (
        if has key identity
        then lookup key identity
        else if is_reserved key
        then none
        else lookup key labels)
unfolding merge_identity_labels is_reserved
lookup-merge_identity_labels key labels identity h =
    let kept = erase_all workload_identity_labels labels in
    ground (
      arith,
      lookup-put_all key identity (erase_memberships (keys kept) kept) h,
      lookup-erase_own key kept,
      lookup-erase_all key workload_identity_labels labels,
    )

-- For labels captured from a rendered map and put back over a patched one.
restored-labels :
    (key : String) (labels patched : Dict String String)
    → IsMap labels
    → lookup key (merge_identity_labels patched (reserved_labels labels))
      ≡ (if is_reserved key then lookup key labels else lookup key patched)
restored-labels key labels patched h = ground (
  arith,
  lookup-merge_identity_labels key patched (reserved_labels labels)
      (reserved_labels-IsMap labels h),
  has-reserved_labels key labels,
  lookup-reserved_labels key labels,
  lookup-of_not_has key labels,
)

-- Whatever a patch makes of a Deployment whose label maps have one entry for a key, after the
-- identity is restored each reserved label of it and of its pods holds what was rendered, or is
-- absent if it was not rendered, and every other label holds what the patch left.
pub restore_workload_identity-labels :
    (rendered patched : Workload)
    → IsMap rendered.labels
    → IsMap rendered.pod_labels
    → (key : String)
    → (let restored = restore_workload_identity patched (capture_workload_identity rendered) in
        (lookup key restored.labels
          ≡ (if is_reserved key then lookup key rendered.labels else lookup key patched.labels))
        × (lookup key restored.pod_labels ≡ (
            if is_reserved key
            then lookup key rendered.pod_labels
            else lookup key patched.pod_labels)))
unfolding restore_workload_identity capture_workload_identity
restore_workload_identity-labels rendered patched h h' key = (
  restored-labels key rendered.labels patched.labels h,
  restored-labels key rendered.pod_labels patched.pod_labels h',
)
