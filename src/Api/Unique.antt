-- ===== src/Api/Unique.antt =====
-- The uniqueness checks of a YanetConfig (api/v1alpha1/yanetconfig_webhook.go).
pub mod Accepted
use yanet_operator.Base.{
  ℕ, suc, not, ◌||◌, List, [], ◌∷◌, String, ◌==◌, contains, nat_eq, string_eq, int_eq, option_eq,
  ltb, ok, ◌>>=◌, ◌>>◌, fail_if, length, is_empty,
}
use yanet_operator.Api.Errors.{Check, Error}
use yanet_operator.Api.Names.{NameRules}
use yanet_operator.Api.Listeners.{
  max_dataplane_sidecars, validate_listeners, validate_operator_listeners,
}
use yanet_operator.Api.Types.{
  NamedPatch, OperatorSpec, OperatorContainer, BoxType, SidecarSpec, ComponentsSpec,
}

-- The names reserved for the built-in components.
abbrev pub reserved_names : List String
reserved_names = "controlplane" ∷ "dataplane" ∷ "bird-adapter" ∷ []

-- The loop, at an index and with the names seen.
unfoldable pub patches_loop : ℕ → List String → List NamedPatch → Check
patches_loop i seen [] = ok tt
patches_loop i seen (p ∷ ps) =
    fail_if (p.name == "") (Error.name_empty i)
    >> (fail_if (contains seen p.name) (Error.name_duplicated p.name)
        >> patches_loop (suc i) (p.name ∷ seen) ps)

unfoldable pub validate_patch_uniqueness : List NamedPatch → Check
unfolding patches_loop
validate_patch_uniqueness patches = patches_loop 0 [] patches

-- The set before the loop: the reserved names, and then those of the operators.
abbrev pub role_names : List OperatorSpec → List String → List String
role_names [] seen = seen
role_names (o ∷ os) seen = role_names os (o.name ∷ seen)

module _ (rules : NameRules) where
  unfoldable pub containers_loop : ℕ → List String → List OperatorContainer → Check
  containers_loop j seen [] = ok tt
  containers_loop j seen (c ∷ cs) =
      fail_if (c.name == "") (Error.name_empty j)
      >> (fail_if (not (rules.is_dns1123_label c.name)) (Error.name_invalid c.name)
          >> (fail_if (contains seen c.name) (Error.name_duplicated c.name)
              >> containers_loop (suc j) (c.name ∷ seen) cs))

  unfoldable pub operators_loop : ℕ → List String → List OperatorSpec → Check
  unfolding containers_loop validate_operator_listeners
  operators_loop i seen [] = ok tt
  operators_loop i seen (o ∷ os) =
      fail_if (o.name == "") (Error.name_empty i)
      >> (fail_if (not (rules.is_dns1123_label o.name)) (Error.name_invalid o.name)
          >> (fail_if (contains reserved_names o.name) (Error.name_reserved o.name)
              >> (fail_if (contains seen o.name) (Error.name_duplicated o.name)
                  >> (validate_operator_listeners o
                      >> (fail_if (ltb (length o.containers) 1 || ltb 8 (length o.containers))
                            (Error.container_count o.name (length o.containers))
                          >> (containers_loop 0 [] o.containers
                              >> operators_loop (suc i) (o.name ∷ seen) os))))))

  unfoldable pub validate_operator_uniqueness : List OperatorSpec → Check
  unfolding operators_loop
  validate_operator_uniqueness os = operators_loop 0 [] os

  unfoldable pub boxes_loop : ℕ → List String → List BoxType → Check
  boxes_loop i seen [] = ok tt
  boxes_loop i seen (b ∷ bs) =
      fail_if (b.name == "") (Error.name_empty i)
      >> (fail_if (not (rules.is_dns1123_label b.name)) (Error.name_invalid b.name)
          >> (fail_if (contains seen b.name) (Error.name_duplicated b.name)
              >> boxes_loop (suc i) (b.name ∷ seen) bs))

  unfoldable pub validate_box_type_uniqueness : List BoxType → Check
  unfolding boxes_loop
  validate_box_type_uniqueness boxes =
      fail_if (is_empty boxes) Error.no_box_types >> boxes_loop 0 [] boxes

  unfoldable pub sidecars_loop : List String → List SidecarSpec → Check
  unfolding validate_listeners
  sidecars_loop seen [] = ok tt
  sidecars_loop seen (s ∷ ss) =
      fail_if (not (rules.is_dns1123_label s.name)) (Error.name_invalid s.name)
      >> (fail_if (contains seen s.name) (Error.name_duplicated s.name)
          >> (validate_listeners s.name s.listeners >> sidecars_loop (s.name ∷ seen) ss))

  unfoldable pub validate_sidecar_uniqueness : ComponentsSpec → Check
  unfolding sidecars_loop
  validate_sidecar_uniqueness c =
      fail_if (ltb max_dataplane_sidecars (length c.dataplane.sidecars)) Error.too_many_sidecars
      >> sidecars_loop (role_names c.operators reserved_names) c.dataplane.sidecars
