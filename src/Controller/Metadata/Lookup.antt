-- ===== src/Controller/Metadata/Lookup.antt =====
-- What a key holds after a merge.
use yanet_operator.Base.{
  ◌≡◌, refl, not, ◌&&◌, none, List, [], ◌∷◌, arith, String, contains, if◌then◌else◌, nat_eq,
  string_eq, int_eq,
}
use yanet_operator.Base.Dict.{
  Dict, has, lookup, erase, put_all, IsMap, lookup-put_all, lookup-erase, lookup-of_not_has,
}
use yanet_operator.Controller.Metadata.{drop_retracted, merge_managed_kv}

lookup-drop_retracted :
    (j : String) (ks : List String) (desired out : Dict String String)
    → lookup j (drop_retracted ks desired out)
      ≡ (if contains ks j && not (has j desired) then none else lookup j out)
unfolding drop_retracted
lookup-drop_retracted j [] desired out = refl
lookup-drop_retracted j (k ∷ ks) desired out = ground (
  arith,
  lookup-drop_retracted j ks desired (if has k desired then out else erase k out),
  lookup-erase j k out,
)

-- After a merge a key holds its desired value if there is one; without one it is gone if it was
-- managed before, and otherwise it holds what the live object had.
pub lookup-merge_managed_kv :
    (j : String) (existing desired : Dict String String) (prev_managed : List String)
    → IsMap existing
    → IsMap desired
    → lookup j (merge_managed_kv existing desired prev_managed) ≡ (
        if has j desired
        then lookup j desired
        else if contains prev_managed j
        then none
        else lookup j existing)
unfolding merge_managed_kv
lookup-merge_managed_kv j [] [] prev_managed h d = ground arith
lookup-merge_managed_kv j existing desired prev_managed h d = ground (
  arith,
  lookup-put_all j desired (drop_retracted prev_managed desired (put_all existing [])) d,
  lookup-drop_retracted j prev_managed desired (put_all existing []),
  lookup-put_all j existing [] h,
  lookup-of_not_has j existing,
)
