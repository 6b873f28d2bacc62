-- ===== src/Manifests/Names/Bounds.antt =====
-- The names made fit Kubernetes' limit of 63 bytes (internal/manifests/service.go and
-- operator_placement.go).
use Prim.Native.Char.{Char, len_utf8}
use Prim.Native.String.len as len_laws
use Prim.Native.String.slice as slice_laws
use Prim.Native.String.{fits, len, slice}
use text.Mathlib.TextPositions.{len-append}
use yanet_operator.Manifests.Names.{
  trim_right, shortened, readable_name, scoped_text, shared_service_name, scoped_operator_name,
}
use yanet_operator.Base.{compare, Ordering}
use yanet_operator.Base.{
  ◌≡◌, refl, inl, inr, ℕ, ◌-◌, ◌≤◌, Option, arith, String, ◌<>◌, if◌then◌else◌, nat_eq, string_eq,
  int_eq, option_eq, ltb, leb, Bool-cases,
}

len-trim_right : (s : String) → len (trim_right s) ≤ len s
unfolding trim_right
len-trim_right String.[] = omega arith
len-trim_right (String.◌∷◌ c s) =
    ground (arith, len-trim_right s, len_laws.cons c s, len_laws.cons c (trim_right s))

len-fits :
    (c : Char) (s : String) (n : ℕ)
    → len s ≤ n - len_utf8 c
    → (o : Ordering) → compare (len_utf8 c) n ≡ o
    → len (fits o c s) ≤ n
len-fits c s n h Ordering.lt e = ground (arith, len_laws.cons c s)
len-fits c s n h Ordering.eq e = ground (arith, len_laws.cons c s)
len-fits c s n h Ordering.gt e = rw len_laws.nil (omega arith)

len-slice : (s : String) (n : ℕ) → len (slice s 0 n) ≤ n
len-slice String.[] n = rw (slice_laws.nil 0 n, len_laws.nil) (omega arith)
len-slice (String.◌∷◌ c s) n = rw (slice_laws.cons-zero c s n) (
    len-fits c (slice s 0 (n - len_utf8 c)) n (len-slice s (n - len_utf8 c))
      (compare (len_utf8 c) n) refl)

module _ (short_key : String → String) (h : (s : String) → len (short_key s) ≤ 8) where
  len-shortened : (name text : String) → len (shortened short_key name text) ≤ 63
  len-shortened name text =
      let front = slice name 0 54 in
      ground (
        arith,
        len-append (trim_right front) ("-" <> short_key text),
        len-append "-" (short_key text),
        len-trim_right front,
        len-slice name 54,
        h text,
      )

  len-cut :
      (name : String) → len (if leb (len name) 63 then name else shortened short_key name name) ≤ 63
  len-cut name = elim (Bool-cases (leb (len name) 63)) [
    | inl e ↦ rw e (ground arith)
    | inr e ↦ rw e (len-shortened name name)
  ]

  len-cut_long :
      (name : String) → len (if ltb 63 (len name) then shortened short_key name name else name) ≤ 63
  len-cut_long name = elim (Bool-cases (ltb 63 (len name))) [
    | inl e ↦ rw e (len-shortened name name)
    | inr e ↦ rw e (ground arith)
  ]

  -- If the short hash of a text has at most 8 bytes, the name of a shared Service has at most 63,
  -- whatever the box type, the role and the NUMA domain are, and so has the name that a container
  -- or a volume of a sidecar gets.
  pub names-bounded :
      (box_type component : String) (numa : Option ℕ) (operator name : String)
      → (len (shared_service_name short_key box_type component numa) ≤ 63)
        × (len (scoped_operator_name short_key operator name) ≤ 63)
  unfolding shared_service_name scoped_operator_name
  names-bounded box_type component numa operator name = (
    len-cut (readable_name box_type component numa),
    len-cut_long (scoped_text short_key operator name),
  )
