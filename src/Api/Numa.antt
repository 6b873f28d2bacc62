-- ===== src/Api/Numa.antt =====
-- ValidateControlplaneNuma (api/v1alpha1/yanetconfig_types.go), validateDisabledNuma
-- (api/v1alpha1/yanetconfig_webhook.go) and validateOverrideDisabledNuma
-- (api/v1alpha1/yanet_webhook.go).
pub mod Remaining
use yanet_operator.Base.{
  ◌≡◌, refl, ℕ, suc, ◌+◌, Bool, false, not, ◌||◌, Option, none, some, List, [], ◌∷◌, arith, Result,
  ok, ◌>>=◌, ◌>>◌, fail_if, contains, if◌then◌else◌, ℤ, pos, negsuc, ltb_ℤ, int_eq, All, Distinct,
}
use yanet_operator.Api.Errors.{Check, Error}
use yanet_operator.Api.Types.{ControlplaneSpec}

abbrev pub max_controlplane_numa : ℤ
max_controlplane_numa = pos 4

unfoldable pub validate_controlplane_numa : ℤ → Check
validate_controlplane_numa count =
    fail_if (ltb_ℤ count (pos 1) || ltb_ℤ max_controlplane_numa count)
      (Error.numa_out_of_range count)

abbrev pub is_negative : ℤ → Bool
is_negative n = ltb_ℤ n (pos 0)

-- The set of the indices listed, as a list without repetition. A negative one is refused.
unfoldable pub collect_indices : List ℤ → List ℤ → Result Error (List ℤ)
collect_indices seen [] = ok seen
collect_indices seen (n ∷ ns) =
    fail_if (is_negative n) (Error.numa_index_negative n)
    >> collect_indices (if contains seen n then seen else n ∷ seen) ns

-- How many members of the set lie below the count.
unfoldable pub count_below : ℤ → List ℤ → ℕ
count_below count [] = 0
count_below count (n ∷ ns) =
    let rest = count_below count ns in if ltb_ℤ n count then suc rest else rest

abbrev pub numa_or_one : Option ℤ → ℤ
numa_or_one none = pos 1
numa_or_one (some count) = count

abbrev pub check_numa : Option ℤ → Check
check_numa none = ok tt
check_numa (some count) = validate_controlplane_numa count

abbrev check_remaining : List ℤ → ℤ → Check
check_remaining [] count = ok tt
check_remaining (n ∷ ns) count = do
  seen ← collect_indices [] (n ∷ ns)
  fail_if (not (ltb_ℤ (pos (count_below count seen)) count)) Error.every_numa_disabled

unfoldable pub validate_disabled_numa : ControlplaneSpec → Check
unfolding validate_controlplane_numa collect_indices count_below
validate_disabled_numa cp =
    check_numa cp.numa >> check_remaining cp.disabled_numa (numa_or_one cp.numa)

unfoldable pub validate_override_disabled_numa : List ℤ → Check
validate_override_disabled_numa [] = ok tt
validate_override_disabled_numa (n ∷ ns) =
    fail_if (is_negative n) (Error.numa_index_negative n) >> validate_override_disabled_numa ns

abbrev pub IsIndex : ℤ → Type 0
IsIndex n = is_negative n ≡ false

-- One more index is in range: the count grows by it if the set has it.
pub count_below-suc :
    (k : ℕ) (seen : List ℤ)
    → All IsIndex seen
    → Distinct seen
    → count_below (pos (suc k)) seen
      ≡ count_below (pos k) seen + (if contains seen (pos k) then 1 else 0)
unfolding count_below
count_below-suc k [] h d = omega arith
count_below-suc k (pos n ∷ ns) h d = ground (arith, count_below-suc k ns h.1 d.1)
count_below-suc k (negsuc n ∷ ns) h d = ground arith

pub count_below-zero : (seen : List ℤ) → All IsIndex seen → count_below (pos 0) seen ≡ 0
unfolding count_below
count_below-zero [] h = refl
count_below-zero (pos n ∷ ns) h = ground (arith, count_below-zero ns h.1)
count_below-zero (negsuc n ∷ ns) h = ground arith
