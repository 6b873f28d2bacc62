-- ===== src/Controller/Metadata.antt =====
-- The merge of operator-owned labels and annotations into those of a live object: mergeManagedKV,
-- mergeManagedMeta and the tracking annotations (internal/controller/yanet_reconciler.go). A nil
-- map and an empty one are both the empty Dict.
pub mod Lookup
pub mod Stable
use yanet_operator.Base.{
  is_empty, ◌&&◌, Option, none, some, List, [], ◌∷◌, String, ◌==◌, if◌then◌else◌, nat_eq, string_eq,
  int_eq,
}
use yanet_operator.Base.Dict.{Dict, keys, has, lookup, insert, erase, put_all}
use yanet_operator.Base.Text.{split, join, sort_strings}
use yanet_operator.Kube.{ObjectMeta}

abbrev pub annotation_managed_labels : String
annotation_managed_labels = "yanet.yanet-platform.io/managed-labels"

abbrev pub annotation_managed_annotations : String
annotation_managed_annotations = "yanet.yanet-platform.io/managed-annotations"

-- The loop over prevManaged.
unfoldable pub drop_retracted :
    List String → Dict String String → Dict String String → Dict String String
drop_retracted [] desired out = out
drop_retracted (k ∷ ks) desired out =
    drop_retracted ks desired (if has k desired then out else erase k out)

unfoldable pub merge_managed_kv :
    Dict String String → Dict String String → List String → Dict String String
unfolding drop_retracted put_all
merge_managed_kv existing desired prev_managed =
    if is_empty existing && is_empty desired
    then []
    else put_all desired (drop_retracted prev_managed desired (put_all existing []))

abbrev nonempty : List String → List String
nonempty [] = []
nonempty (p ∷ ps) = let rest = nonempty ps in if p == "" then rest else p ∷ rest

unfoldable pub parse_managed_keys : String → List String
unfolding split
parse_managed_keys s = if s == "" then [] else nonempty (split s)

unfoldable pub serialize_managed_keys : Dict String String → String
unfolding sort_strings join
serialize_managed_keys m = join (sort_strings (keys m))

-- `m[k]`, which is "" for a missing key.
abbrev pub value_or_empty : Option String → String
value_or_empty none = ""
value_or_empty (some v) = v

-- Records what is owned, or drops the record if nothing is.
abbrev pub track : String → Dict String String → Dict String String → Dict String String
track key owned annotations =
    if is_empty owned
    then erase key annotations
    else insert key (serialize_managed_keys owned) annotations

unfoldable pub merge_managed_meta : ObjectMeta → ObjectMeta → ObjectMeta
unfolding merge_managed_kv parse_managed_keys serialize_managed_keys
merge_managed_meta fresh desired =
    let prev_labels =
      parse_managed_keys (value_or_empty (lookup annotation_managed_labels fresh.annotations)) in
    let prev_annos =
      parse_managed_keys
        (value_or_empty (lookup annotation_managed_annotations fresh.annotations)) in
    let annotations = merge_managed_kv fresh.annotations desired.annotations prev_annos in
    record fresh {
      labels = merge_managed_kv fresh.labels desired.labels prev_labels;
      annotations =
          track annotation_managed_annotations desired.annotations
            (track annotation_managed_labels desired.labels annotations);
    }

-- ensureLabel
unfoldable pub ensure_label : ObjectMeta → String → String → ObjectMeta
ensure_label meta key value =
    if value == "" then meta else record meta { labels = insert key value meta.labels }
