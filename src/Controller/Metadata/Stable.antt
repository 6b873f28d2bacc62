-- ===== src/Controller/Metadata/Stable.antt =====
-- A second merge of the same desired metadata changes nothing, so that it causes no write.
use yanet_operator.Base.{
  is_empty, ◌≡◌, refl, ap, ◌∙◌, Option, none, some, List, [], ◌∷◌, arith, String, ◌==◌, contains,
  if◌then◌else◌, nat_eq, string_eq, int_eq, All,
}
use yanet_operator.Base.Dict.{
  Dict, keys, has, lookup, erase, put_all, IsMap, lookup-insert, lookup-erase, insert-IsMap,
  erase-IsMap, put_all-IsMap,
}
use yanet_operator.Base.Text.{
  split, join, sort_strings, IsPlain, split-join, contains-sort_strings, All-sort_strings,
}
use yanet_operator.Kube.{ObjectMeta}
use yanet_operator.Controller.Metadata.{
  drop_retracted, merge_managed_kv, nonempty, parse_managed_keys, serialize_managed_keys,
  value_or_empty, track, merge_managed_meta, annotation_managed_labels,
  annotation_managed_annotations,
}
use yanet_operator.Controller.Metadata.Lookup.{lookup-merge_managed_kv}

nonempty-of_plain : (ws : List String) → All IsPlain ws → nonempty ws ≡ ws
nonempty-of_plain [] h = refl
nonempty-of_plain (w ∷ ws) h = ground (arith, nonempty-of_plain ws h.1)

split_empty : (s : String) → s ≡ "" → split s ≡ "" ∷ []
unfolding split
split_empty s e = rw e

parse-join : (ws : List String) → All IsPlain ws → parse_managed_keys (join ws) ≡ ws
unfolding parse_managed_keys
parse-join [] h = unfold join in ground arith
parse-join (w ∷ ws) h =
    ground (arith, split-join w ws h, nonempty-of_plain (w ∷ ws) h, split_empty (join (w ∷ ws)))

-- The keys read back from a tracking annotation are the owned keys, if none is empty or holds a
-- comma.
pub contains-parse-serialize :
    (k : String) (m : Dict String String)
    → All IsPlain (keys m)
    → contains (parse_managed_keys (serialize_managed_keys m)) k ≡ has k m
unfolding serialize_managed_keys
contains-parse-serialize k m h =
    ap (λ l. contains l k) (parse-join (sort_strings (keys m)) (All-sort_strings (keys m) h))
    ∙ contains-sort_strings k (keys m)

drop_retracted-IsMap :
    (ks : List String) (desired out : Dict String String)
    → IsMap out
    → IsMap (drop_retracted ks desired out)
unfolding drop_retracted
drop_retracted-IsMap [] desired out h = h
drop_retracted-IsMap (k ∷ ks) desired out h =
    drop_retracted-IsMap ks desired (if has k desired then out else erase k out)
      (ground (arith, erase-IsMap k out h))

merge_managed_kv-IsMap :
    (existing desired : Dict String String) (prev : List String)
    → IsMap (merge_managed_kv existing desired prev)
unfolding merge_managed_kv
merge_managed_kv-IsMap existing desired prev = ground (
  arith,
  put_all-IsMap desired (drop_retracted prev desired (put_all existing []))
      (drop_retracted-IsMap prev desired (put_all existing []) (put_all-IsMap existing [] tt)),
)

track-IsMap : (key : String) (owned a : Dict String String) → IsMap a → IsMap (track key owned a)
track-IsMap key [] a h = erase-IsMap key a h
track-IsMap key (x ∷ xs) a h = insert-IsMap key _ a h

lookup-track :
    (j key : String) (owned a : Dict String String)
    → lookup j (track key owned a) ≡ (
        if j == key
        then (if is_empty owned then none else some (serialize_managed_keys owned))
        else lookup j a)
lookup-track j key [] a = lookup-erase j key a
lookup-track j key (x ∷ xs) a = lookup-insert j key _ a

tracked :
    (k : String) (owned : Dict String String)
    → All IsPlain (keys owned)
    → contains
        (parse_managed_keys
          (value_or_empty (if is_empty owned then none else some (serialize_managed_keys owned))))
        k
      ≡ has k owned
unfolding parse_managed_keys
tracked k [] h = ground arith
tracked k (x ∷ xs) h = contains-parse-serialize k (x ∷ xs) h

merge_again :
    (j : String) (existing desired : Dict String String) (prev prev' : List String)
    → IsMap existing
    → IsMap desired
    → contains prev' j ≡ has j desired
    → lookup j (merge_managed_kv (merge_managed_kv existing desired prev) desired prev')
      ≡ lookup j (merge_managed_kv existing desired prev)
merge_again j existing desired prev prev' h d same = ground (
  arith,
  lookup-merge_managed_kv j (merge_managed_kv existing desired prev) desired prev'
      (merge_managed_kv-IsMap existing desired prev) d,
  lookup-merge_managed_kv j existing desired prev h d,
)

abbrev tracked_value : Dict String String → Option String
tracked_value owned = if is_empty owned then none else some (serialize_managed_keys owned)

abbrev tracks : Dict String String → Dict String String → Dict String String → Dict String String
tracks labels annos a =
    track annotation_managed_annotations annos (track annotation_managed_labels labels a)

lookup-tracks :
    (j : String) (labels annos a : Dict String String)
    → lookup j (tracks labels annos a) ≡ (
        if j == annotation_managed_annotations
        then tracked_value annos
        else if j == annotation_managed_labels
        then tracked_value labels
        else lookup j a)
lookup-tracks j labels annos a = ground (
  arith,
  lookup-track j annotation_managed_annotations annos (track annotation_managed_labels labels a),
  lookup-track j annotation_managed_labels labels a,
)

tracks-IsMap : (labels annos a : Dict String String) → IsMap a → IsMap (tracks labels annos a)
tracks-IsMap labels annos a h =
    track-IsMap annotation_managed_annotations annos _
      (track-IsMap annotation_managed_labels labels a h)

tracks_labels :
    (labels annos a : Dict String String)
    → lookup annotation_managed_labels (tracks labels annos a) ≡ tracked_value labels
unfolding string_eq
tracks_labels labels annos a = lookup-tracks annotation_managed_labels labels annos a

tracks_annos :
    (labels annos a : Dict String String)
    → lookup annotation_managed_annotations (tracks labels annos a) ≡ tracked_value annos
unfolding string_eq
tracks_annos labels annos a = lookup-tracks annotation_managed_annotations labels annos a

tracks_again :
    (j : String) (labels annos a : Dict String String) (prev prev' : List String)
    → IsMap a
    → IsMap annos
    → contains prev' j ≡ has j annos
    → let once = tracks labels annos (merge_managed_kv a annos prev) in
      lookup j (tracks labels annos (merge_managed_kv once annos prev')) ≡ lookup j once
tracks_again j labels annos a prev prev' h d same =
    let first = merge_managed_kv a annos prev in
    let once = tracks labels annos first in
    ground (
      arith,
      lookup-tracks j labels annos (merge_managed_kv once annos prev'),
      lookup-tracks j labels annos first,
      lookup-merge_managed_kv j once annos prev'
          (tracks-IsMap labels annos first (merge_managed_kv-IsMap a annos prev)) d,
      lookup-merge_managed_kv j a annos prev h d,
    )

-- Merging the same desired metadata once more leaves every label and every annotation as the first
-- merge left it, if the keys of the maps are distinct and no desired key is empty or holds a comma.
pub merge_managed_meta_idem :
    (fresh desired : ObjectMeta) (j : String)
    → IsMap fresh.labels
    → IsMap fresh.annotations
    → IsMap desired.labels
    → IsMap desired.annotations
    → All IsPlain (keys desired.labels)
    → All IsPlain (keys desired.annotations)
    → let once = merge_managed_meta fresh desired in
      let twice = merge_managed_meta once desired in
      (lookup j twice.labels ≡ lookup j once.labels)
      × (lookup j twice.annotations ≡ lookup j once.annotations)
unfolding merge_managed_meta
merge_managed_meta_idem fresh desired j fl fa dl da pl pa =
    let prev =
      λ (key : String). parse_managed_keys (value_or_empty (lookup key fresh.annotations)) in
    let first =
      merge_managed_kv fresh.annotations desired.annotations
        (prev annotation_managed_annotations) in
    let again = λ (v : Option String). contains (parse_managed_keys (value_or_empty v)) j in
    (
      merge_again j fresh.labels desired.labels (prev annotation_managed_labels) _ fl dl (
          ap again (tracks_labels desired.labels desired.annotations first)
          ∙ tracked j desired.labels pl),
      tracks_again j desired.labels desired.annotations fresh.annotations
          (prev annotation_managed_annotations) _ fa da
          (ap again (tracks_annos desired.labels desired.annotations first)
            ∙ tracked j desired.annotations pa),
    )
