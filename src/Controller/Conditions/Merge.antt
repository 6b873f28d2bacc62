-- ===== src/Controller/Conditions/Merge.antt =====
-- What mergeConditions leaves for each type of condition.
use yanet_operator.Base.{
  ◌≢◌, true, not, ◌&&◌, ◌||◌, ◌≡◌, refl, false, Option, none, some, List, [], ◌∷◌, ◌++◌, arith,
  String, ◌==◌, contains, if◌then◌else◌, nat_eq, string_eq, int_eq, option_eq, Distinct,
}
use yanet_operator.Base.Dict.{Dict, lookup, insert, lookup-insert}
use yanet_operator.Controller.Conditions.{
  Condition, by_type, keep_time, refresh, types, unseen, merge_conditions, status_eq,
}

-- The first condition of a type.
abbrev pub find : String → List Condition → Option Condition
find t [] = none
find t (c ∷ cs) = if t == c.type then some c else find t cs

abbrev or_else : Option Condition → Option Condition → Option Condition
or_else none d = d
or_else (some c) d = some c

find-of_not_contains :
    (t : String) (cs : List Condition) → contains (types cs) t ≡ false → find t cs ≡ none
find-of_not_contains t [] h = refl
find-of_not_contains t (c ∷ cs) h = ground (arith, find-of_not_contains t cs)

find-of_contains :
    (t : String) (cs : List Condition) → contains (types cs) t ≡ true → find t cs ≢ none
find-of_contains t [] h = cc
find-of_contains t (c ∷ cs) h = ground (arith, find-of_contains t cs)

lookup-by_type :
    (t : String) (cs : List Condition) (out : Dict String Condition)
    → Distinct (types cs)
    → lookup t (by_type cs out) ≡ or_else (find t cs) (lookup t out)
unfolding by_type
lookup-by_type t [] out d = refl
lookup-by_type t (c ∷ cs) out d = ground (
  arith,
  lookup-by_type t cs (insert c.type c out) d.1,
  lookup-insert t c.type c out,
  find-of_not_contains t cs,
)

-- A fresh condition with the transition time that it keeps.
abbrev pub kept : Option Condition → Option Condition → Option Condition
kept old none = none
kept old (some nc) = some (keep_time old nc)

find-refresh :
    (t : String) (index : Dict String Condition) (fresh : List Condition)
    → find t (refresh index fresh) ≡ kept (lookup t index) (find t fresh)
unfolding refresh
find-refresh t index [] = refl
find-refresh t index (nc ∷ fresh) = ground (arith, find-refresh t index fresh)

find-append :
    (t : String) (xs ys : List Condition) → find t (xs ++ ys) ≡ or_else (find t xs) (find t ys)
find-append t [] ys = refl
find-append t (x ∷ xs) ys = ground (arith, find-append t xs ys)

find-unseen :
    (t : String) (seen : List String) (cs : List Condition)
    → contains seen t ≡ false
    → find t (unseen seen cs) ≡ find t cs
unfolding unseen
find-unseen t seen [] h = refl
find-unseen t seen (c ∷ cs) h = ground (arith, find-unseen t seen cs)

-- A type that the fresh conditions have holds its fresh condition afterwards, with the time of the
-- existing one where status and reason are the same; any other type holds what it held.
pub find-merge_conditions :
    (t : String) (existing fresh : List Condition)
    → Distinct (types existing)
    → find t (merge_conditions existing fresh) ≡ (
        if contains (types fresh) t then kept (find t existing) (find t fresh) else find t existing)
unfolding merge_conditions
find-merge_conditions t existing fresh d = ground (
  arith,
  find-append t (refresh (by_type existing []) fresh) (unseen (types fresh) existing),
  find-refresh t (by_type existing []) fresh,
  lookup-by_type t existing [] d,
  find-unseen t (types fresh) existing,
  find-of_not_contains t fresh,
  find-of_contains t fresh,
)

types-refresh :
    (index : Dict String Condition) (fresh : List Condition)
    → types (refresh index fresh) ≡ types fresh
unfolding refresh
types-refresh index [] = refl
types-refresh index (nc ∷ fresh) = ground (arith, types-refresh index fresh)

contains-types-append :
    (t : String) (xs ys : List Condition)
    → contains (types (xs ++ ys)) t ≡ (contains (types xs) t || contains (types ys) t)
contains-types-append t [] ys = refl
contains-types-append t (x ∷ xs) ys = ground (arith, contains-types-append t xs ys)

contains-types-unseen :
    (t : String) (seen : List String) (cs : List Condition)
    → contains (types (unseen seen cs)) t ≡ (not (contains seen t) && contains (types cs) t)
unfolding unseen
contains-types-unseen t seen [] = ground arith
contains-types-unseen t seen (c ∷ cs) = ground (arith, contains-types-unseen t seen cs)

unseen-Distinct :
    (seen : List String) (cs : List Condition)
    → Distinct (types cs)
    → Distinct (types (unseen seen cs))
unfolding unseen
unseen-Distinct seen [] d = tt
unseen-Distinct seen (c ∷ cs) d =
    ground (arith, unseen-Distinct seen cs d.1, contains-types-unseen c.type seen cs)

append-Distinct :
    (xs ys : List Condition)
    → Distinct (types xs)
    → Distinct (types ys)
    → ((t : String) → contains (types xs) t ≡ true → contains (types ys) t ≡ false)
    → Distinct (types (xs ++ ys))
append-Distinct [] ys dx dy apart = dy
append-Distinct (x ∷ xs) ys dx dy apart =
    let rest = append-Distinct xs ys dx.1 dy (λ t m. apart t (ground arith)) in
    ground (arith, contains-types-append x.type xs ys, apart x.type)

-- No type stands twice after a merge if none does in either list.
pub merge_conditions-Distinct :
    (existing fresh : List Condition)
    → Distinct (types existing)
    → Distinct (types fresh)
    → Distinct (types (merge_conditions existing fresh))
unfolding merge_conditions
merge_conditions-Distinct existing fresh de df =
    let index = by_type existing [] in
    append-Distinct (refresh index fresh) (unseen (types fresh) existing)
      (rw (types-refresh index fresh) df) (unseen-Distinct (types fresh) existing de)
      (λ t m.
        ground (arith, contains-types-unseen t (types fresh) existing, types-refresh index fresh))
