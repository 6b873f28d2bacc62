-- ===== src/Tests/Overriding.antt =====
-- Overrides and hugepages on the test cluster.
use yanet_operator.Base.{
  ◌≡◌, refl, true, Option, none, some, [], ◌∷◌, String, nat_eq, string_eq, int_eq, option_eq, ok,
  err, pos,
}
use yanet_operator.Api.Errors.{Error}
use yanet_operator.Api.Types.{Hugepages, YanetContainerOverride, YanetComponentsOverride}
use yanet_operator.Api.Hugepages.{
  Quantity, total_quantity, max_int64, total_quantity-IsTotal, IsTotal,
}
use yanet_operator.Api.Overrides.{
  validate_shape, validate_yanet_component_overrides, validate_effective_yanet_component_overrides,
}
use yanet_operator.Api.Overrides.Effective.{validate_effective_yanet_component_overrides-stale}
use yanet_operator.Tests.{rules, components, release}

-- Pages of 2Mi, whatever the text.
abbrev parse : String → Option Quantity
parse size = some (record { is_positive = true; value = pos 2097152; is_whole = true })

abbrev pages : Hugepages
pages = record { size = "2Mi"; count = pos 512 }

total_quantity-IsTotal_example :
    (q : Quantity) × (parse "2Mi" ≡ some q) × IsTotal q.value (pos 512) 1073741824
unfolding total_quantity
total_quantity-IsTotal_example = total_quantity-IsTotal parse pages 1073741824 refl

overflow :
    total_quantity parse (record pages { count = pos max_int64 }) ≡ err Error.hugepages_refused
unfolding total_quantity
overflow = refl

abbrev override : YanetContainerOverride
override = record { enabled = none; name = "debug"; tag = "" }

-- The operator gone, a container that is not declared, and a sidecar that is not wired.
abbrev stale : YanetComponentsOverride
stale = record {
  controlplane = none;
  dataplane = some (record {
    component = record { enabled = none; containers = [] };
    hugepages = none;
    networks = none;
    sidecars = ("acl", override) ∷ [];
  });
  bird_adapter = none;
  operators =
      ("gone", record { enabled = none; containers = [] })
      ∷ ("route", record { enabled = none; containers = ("old", override) ∷ [] })
      ∷ [];
}

strict_refuses :
    validate_yanet_component_overrides rules parse (some stale) components release
    ≡ err (Error.sidecar_not_wired "acl")
unfolding validate_yanet_component_overrides string_eq
strict_refuses = refl

validate_effective_yanet_component_overrides-stale_example :
    validate_effective_yanet_component_overrides rules parse (some stale) components release ≡ ok tt
unfolding validate_shape string_eq
validate_effective_yanet_component_overrides-stale_example =
    validate_effective_yanet_component_overrides-stale rules parse components release stale
      (refl, tt) ((refl, tt), (refl, tt), λ h. h) refl
