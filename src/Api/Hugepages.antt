-- ===== src/Api/Hugepages.antt =====
-- Hugepages: TotalQuantity (api/v1alpha1/yanetconfig_types.go) and validateHugepages
-- (yanetconfig_webhook.go). The parsing of a quantity is apimachinery's, and a parameter.
use yanet_operator.Base.{
  ◌≡◌, refl, sym, ℕ, zero, suc, ◌*◌, ◌≤◌, ◌<◌, Bool, not, ◌||◌, Option, none, some, arith, String,
  ◌==◌, if◌then◌else◌, nat_eq, string_eq, int_eq, option_eq, ltb, Result, ok, err, ◌>>◌, fail_if,
  >>=-eq-ok, ℤ, pos, negsuc,
}
use Prim.Native.Nat.◌≤◌.{zero-le, suc-le-suc}
use native.Mathlib.Nat.{le-div_iff_mul-le}
use yanet_operator.Base.{◌/◌, ok_inj, subst}
use yanet_operator.Api.Errors.{Check, Error}
use yanet_operator.Api.Types.{Hugepages}

-- A parsed quantity: whether Sign is positive, its Value, and whether that is the exact amount.
pub record Quantity : Type 0 where
  pub is_positive : Bool
  pub value : ℤ
  pub is_whole : Bool

abbrev pub max_int64 : ℕ
max_int64 = 9223372036854775807

abbrev pub page_total : Bool → ℤ → ℤ → Result Error ℕ
page_total is_whole (pos (suc bytes)) (pos (suc count)) =
    fail_if (not is_whole || ltb (max_int64 / suc count) (suc bytes)) Error.hugepages_refused
    >> ok (suc bytes * suc count)
page_total is_whole bytes count = err Error.hugepages_refused

module _ (parse_quantity : String → Option Quantity) where
  abbrev pub total_of : Option Quantity → ℤ → Result Error ℕ
  total_of none count = err Error.hugepages_refused
  total_of (some q) count =
      fail_if (not q.is_positive) Error.hugepages_refused >> page_total q.is_whole q.value count

  unfoldable pub total_quantity : Hugepages → Result Error ℕ
  total_quantity h = total_of (parse_quantity h.size) h.count

  abbrev pub ignore_total : Result Error ℕ → Check
  ignore_total (ok total) = ok tt
  ignore_total (err e) = err e

  -- A count of 0 asks for the node's pages, and is checked with one page.
  unfoldable pub validate_hugepages : Option Hugepages → Check
  unfolding total_quantity
  validate_hugepages none = ok tt
  validate_hugepages (some h) =
      ignore_total (total_quantity (if h.count == pos 0 then record h { count = pos 1 } else h))

-- The total of a page size and a count.
abbrev pub IsTotal : ℤ → ℤ → ℕ → Type 0
IsTotal value count total =
    (bytes : ℕ) × (n : ℕ) × (value ≡ pos bytes)
    × (count ≡ pos n)
    × (0 < bytes)
    × (0 < n)
    × (total ≡ bytes * n)
    × (total ≤ max_int64)

page_total-IsTotal :
    (is_whole : Bool) (value count : ℤ) (total : ℕ)
    → page_total is_whole value count ≡ ok total
    → IsTotal value count total
page_total-IsTotal w (pos (suc bytes)) (pos (suc n)) total e =
    let (_, q, r) =
      >>=-eq-ok (fail_if (not w || ltb (max_int64 / suc n) (suc bytes)) Error.hugepages_refused) _
        e in
    let fits : suc bytes ≤ max_int64 / suc n = ground (arith, q) in
    let product : suc bytes * suc n ≤ max_int64 =
      (le-div_iff_mul-le {k = suc n} {x = suc bytes} {y = max_int64} (omega arith)).0 fits in
    (
      suc bytes,
      suc n,
      refl,
      refl,
      suc-le-suc zero-le,
      suc-le-suc zero-le,
      sym (ok_inj r),
      subst (λ t. t ≤ max_int64) (ok_inj r) product,
    )
page_total-IsTotal w (pos (suc bytes)) (pos zero) total e = cc
page_total-IsTotal w (pos (suc bytes)) (negsuc n) total e = cc
page_total-IsTotal w (pos zero) count total e = cc
page_total-IsTotal w (negsuc n) count total e = cc

total_of-IsTotal :
    (parse_quantity : String → Option Quantity) (found : Option Quantity) (count : ℤ) (total : ℕ)
    → total_of parse_quantity found count ≡ ok total
    → (q : Quantity) × (found ≡ some q) × IsTotal q.value count total
total_of-IsTotal parse_quantity none count total e = cc
total_of-IsTotal parse_quantity (some q) count total e =
    let (_, _, r) = >>=-eq-ok (fail_if (not q.is_positive) Error.hugepages_refused) _ e in
    (q, refl, page_total-IsTotal q.is_whole q.value count total r)

-- A total that is accepted is the page size times the count, both positive, and fits in an int64.
pub total_quantity-IsTotal :
    (parse_quantity : String → Option Quantity) (h : Hugepages) (total : ℕ)
    → total_quantity parse_quantity h ≡ ok total
    → (q : Quantity) × (parse_quantity h.size ≡ some q) × IsTotal q.value h.count total
unfolding total_quantity
total_quantity-IsTotal parse_quantity h total e =
    total_of-IsTotal parse_quantity (parse_quantity h.size) h.count total e
