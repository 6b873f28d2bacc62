-- ===== src/Manifests/Names.antt =====
-- The names that the renderer makes: toLowerKebab (internal/manifests/builder.go), SharedServiceName
-- (service.go), scopedOperatorName, colocatedTargetPort and OperatorMembershipLabel
-- (operator_placement.go). Lengths are in bytes. The short hash of a text, which is the short
-- identity of the resolver, is the parameter `short_key`.
pub mod Bounds
use Prim.Native.Char.{code}
use Prim.Native.String
use Prim.Native.Nat.{◌%◌}
use yanet_operator.Base.{◌/◌, leb}
use yanet_operator.Manifests.Workload.{operator_container_prefix, operator_membership_prefix}
use yanet_operator.Base.{
  ℕ, zero, suc, ◌+◌, ◌-◌, Bool, true, false, ◌&&◌, Option, none, some, [], ◌∷◌, String, ◌<>◌, ◌==◌,
  if◌then◌else◌, nat_eq, string_eq, int_eq, option_eq, ltb, leb,
}

-- An ASCII capital, by its code, in lower case.
abbrev lower : ℕ → String
lower n = String.slice "abcdefghijklmnopqrstuvwxyz" (n - 65) (n - 64)

abbrev kebab_loop : Bool → String → String
kebab_loop first String.[] = ""
kebab_loop first (String.◌∷◌ c s) =
    let rest = kebab_loop false s in
    if leb 65 (code c) && leb (code c) 90
    then (if first then "" else "-") <> (lower (code c) <> rest)
    else String.◌∷◌ c rest

unfoldable pub to_lower_kebab : String → String
to_lower_kebab s = kebab_loop true s

-- strings.TrimRight(s, "-")
unfoldable pub trim_right : String → String
trim_right String.[] = ""
trim_right (String.◌∷◌ c s) =
    let rest = trim_right s in if rest == "" && code c == 45 then "" else String.◌∷◌ c rest

-- `%d` of a number that is not negative. A number has at most as many further digits as its value.
abbrev digits : ℕ → ℕ → String
digits zero n = ""
digits (suc fuel) n =
    let last = String.slice "0123456789" (n % 10) (n % 10 + 1) in
    let front = digits fuel (n / 10) in if ltb n 10 then last else front <> last

unfoldable pub decimal : ℕ → String
decimal n = digits (suc n) n

abbrev numa_suffix : Option ℕ → String
numa_suffix none = ""
numa_suffix (some n) = "-numa" <> decimal n

-- The name before the limit requires a hash.
abbrev pub readable_name : String → String → Option ℕ → String
readable_name box_type component numa =
    "yanet-" <> (to_lower_kebab box_type <> ("-" <> (to_lower_kebab component <> numa_suffix numa)))

module _ (short_key : String → String) where
  abbrev pub scoped_text : String → String → String
  scoped_text operator name = operator_container_prefix <> (short_key operator <> ("-" <> name))

  -- A name cut to 54 bytes, with a hash of the text given.
  abbrev pub shortened : String → String → String
  shortened name text = trim_right (String.slice name 0 54) <> ("-" <> short_key text)

  unfoldable pub shared_service_name : String → String → Option ℕ → String
  unfolding to_lower_kebab trim_right decimal
  shared_service_name box_type component numa =
      let name = readable_name box_type component numa in
      if leb (String.len name) 63 then name else shortened name name

  unfoldable pub scoped_operator_name : String → String → String
  unfolding trim_right
  scoped_operator_name operator name =
      let result = scoped_text operator name in
      if ltb 63 (String.len result) then shortened result result else result

  unfoldable pub colocated_target_port : String → String → String
  colocated_target_port operator listener =
      operator_container_prefix <> (short_key operator <> ("-" <> String.slice listener 0 1))

  unfoldable pub operator_membership_label : String → String
  operator_membership_label operator = operator_membership_prefix <> short_key operator
