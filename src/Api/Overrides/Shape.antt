-- ===== src/Api/Overrides/Shape.antt =====
-- The effective overrides keep their shape.
use yanet_operator.Base.{
  ◌≡◌, refl, Option, none, some, List, [], ◌∷◌, arith, String, nat_eq, string_eq, int_eq, option_eq,
  ok, >>=-eq-ok,
}
use yanet_operator.Base.Dict.{Dict, keys}
use yanet_operator.Api.Names.{NameRules}
use yanet_operator.Api.Hugepages.{Quantity, validate_hugepages}
use yanet_operator.Api.Networks.{validate_network_attachments}
use yanet_operator.Api.Types.{
  OperatorContainer, OperatorSpec, ComponentsSpec, BoxComponent, BoxDataplane, BoxOperator, BoxType,
  YanetContainerOverride, YanetComponentOverride, YanetControlplaneOverride, YanetDataplaneOverride,
  YanetComponentsOverride,
}
use yanet_operator.Api.Overrides.{
  attachments, validate_hardcoded_container_keys, operator_containers_shape, operators_shape,
  sidecar_names_shape, validate_dataplane_override_shape, controlplane_shape, validate_shape,
  keep_sidecars, effective_dataplane, if_wired, keep_containers, first_operator, effective_operator,
  effective_operators, effective_overrides,
}

keep_containers-shape :
    (declared : List OperatorContainer) (cs : Dict String YanetContainerOverride)
    → operator_containers_shape cs ≡ ok tt
    → operator_containers_shape (keep_containers declared cs) ≡ ok tt
unfolding operator_containers_shape keep_containers
keep_containers-shape declared [] h = refl
keep_containers-shape declared (c ∷ cs) h = ground (arith, keep_containers-shape declared cs)

effective_operator-shape :
    (op : Option OperatorSpec) (o : YanetComponentOverride)
    → operator_containers_shape o.containers ≡ ok tt
    → operator_containers_shape (effective_operator op o).containers ≡ ok tt
effective_operator-shape none o h = h
effective_operator-shape (some op) o h = keep_containers-shape op.containers o.containers h

effective_operators-shape :
    (declared : List OperatorSpec) (slots : Dict String BoxOperator)
    (os : Dict String YanetComponentOverride)
    → operators_shape os ≡ ok tt
    → operators_shape (effective_operators declared slots os) ≡ ok tt
unfolding operators_shape effective_operators
effective_operators-shape declared slots [] h = refl
effective_operators-shape declared slots ((name, o) ∷ os) h =
    let (_, q, r) = >>=-eq-ok (operator_containers_shape o.containers) _ h in
    ground (
      arith,
      effective_operators-shape declared slots os r,
      effective_operator-shape (first_operator declared name) o q,
    )

keep_sidecars-shape :
    (rules : NameRules) (parse : String → Option Quantity) (slot : BoxDataplane)
    (os : Dict String YanetContainerOverride)
    → sidecar_names_shape rules parse (keys os) ≡ ok tt
    → sidecar_names_shape rules parse (keys (keep_sidecars slot os)) ≡ ok tt
unfolding sidecar_names_shape keep_sidecars
keep_sidecars-shape rules parse slot [] h = refl
keep_sidecars-shape rules parse slot (o ∷ os) h =
    ground (arith, keep_sidecars-shape rules parse slot os)

module _ (rules : NameRules) (parse : String → Option Quantity) where
  effective_dataplane-shape :
      (slot : Option BoxDataplane) (o : Option YanetDataplaneOverride)
      → validate_dataplane_override_shape rules parse o ≡ ok tt
      → validate_dataplane_override_shape rules parse (effective_dataplane slot o) ≡ ok tt
  unfolding validate_dataplane_override_shape
  effective_dataplane-shape none o h = refl
  effective_dataplane-shape (some slot) none h = h
  effective_dataplane-shape (some slot) (some o) h =
      let (_, a, r) =
        >>=-eq-ok (validate_hardcoded_container_keys "dataplane" (some o.component)) _ h in
      let (_, b, r') =
        >>=-eq-ok (validate_network_attachments rules (attachments o.networks)) _ r in
      let (_, c, d) = >>=-eq-ok (validate_hugepages parse o.hugepages) _ r' in
      rw (a, b, c) (keep_sidecars-shape rules parse slot o.sidecars d)

  if_wired-controlplane :
      (slot : Option BoxComponent) (o : Option YanetControlplaneOverride)
      → controlplane_shape rules parse o ≡ ok tt
      → controlplane_shape rules parse (if_wired slot o) ≡ ok tt
  unfolding controlplane_shape
  if_wired-controlplane none o h = refl
  if_wired-controlplane (some slot) o h = h

  if_wired-bird_adapter :
      (slot : Option BoxComponent) (o : Option YanetComponentOverride)
      → validate_hardcoded_container_keys "bird-adapter" o ≡ ok tt
      → validate_hardcoded_container_keys "bird-adapter" (if_wired slot o) ≡ ok tt
  unfolding validate_hardcoded_container_keys
  if_wired-bird_adapter none o h = refl
  if_wired-bird_adapter (some slot) o h = h

  pub effective_overrides-shape :
      (declared : ComponentsSpec) (box : BoxType) (o : YanetComponentsOverride)
      → validate_shape rules parse (some o) ≡ ok tt
      → validate_shape rules parse (some (effective_overrides declared box o)) ≡ ok tt
  unfolding validate_shape effective_overrides
  effective_overrides-shape declared box o h =
      let (_, a, r) = >>=-eq-ok (controlplane_shape rules parse o.controlplane) _ h in
      let (_, b, r') = >>=-eq-ok (validate_dataplane_override_shape rules parse o.dataplane) _ r in
      let (_, c, d) =
        >>=-eq-ok (validate_hardcoded_container_keys "bird-adapter" o.bird_adapter) _ r' in
      rw
        (
          if_wired-controlplane box.components.controlplane o.controlplane a,
          effective_dataplane-shape box.components.dataplane o.dataplane b,
          if_wired-bird_adapter box.components.bird_adapter o.bird_adapter c,
        )
        (effective_operators-shape declared.operators box.operators o.operators d)
