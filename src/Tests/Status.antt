-- ===== src/Tests/Status.antt =====
-- Metadata and conditions on the test cluster.
use yanet_operator.Base.{
  ◌≡◌, refl, ℕ, true, false, none, some, List, [], ◌∷◌, String, contains, nat_eq, string_eq, int_eq,
  option_eq,
}
use yanet_operator.Base.Dict.{Dict, lookup}
use yanet_operator.Kube.{ObjectMeta}
use yanet_operator.Controller.Metadata.{
  merge_managed_meta, parse_managed_keys, serialize_managed_keys,
}
use yanet_operator.Controller.Metadata.Stable.{merge_managed_meta_idem, contains-parse-serialize}
use yanet_operator.Controller.Conditions.{
  Condition, ConditionStatus, status_true, status_false, StatusView, compute_conditions,
}
use yanet_operator.Controller.Conditions.Sync.{aggregate_sync_status, aggregate_sync_status_lem}
use yanet_operator.Controller.Conditions.Merge.{find}
use yanet_operator.Controller.Conditions.Ready.{
  status_of, compute_conditions-ready, compute_conditions_again,
}
use yanet_operator.Tests.{object}

abbrev live : Dict String String
live = ("foreign", "1") ∷ ("old", "2") ∷ []

abbrev wanted : Dict String String
wanted = ("app", "yanet") ∷ []

contains-parse-serialize_example :
    contains (parse_managed_keys (serialize_managed_keys wanted)) "app" ≡ true
unfolding string_eq nat_eq
contains-parse-serialize_example = contains-parse-serialize "app" wanted ((refl, refl), tt)

abbrev target : ObjectMeta
target = record (object "d" none) { labels = wanted }

merge_managed_meta_idem_example :
    let once = merge_managed_meta (object "d" none) target in
    let twice = merge_managed_meta once target in
    (lookup "app" twice.labels ≡ lookup "app" once.labels)
    × (lookup "app" twice.annotations ≡ lookup "app" once.annotations)
unfolding string_eq nat_eq
merge_managed_meta_idem_example =
    merge_managed_meta_idem (object "d" none) target "app" (refl, tt) tt (refl, tt) tt
      ((refl, refl), tt) tt

abbrev condition : String → ConditionStatus → ℕ → Condition
condition type status time = record {
  type = type;
  status = status;
  observed_generation = 1;
  last_transition_time = time;
  reason = "AllSynced";
  message = "";
}

abbrev stored : List Condition
stored = condition "Available" status_true 1 ∷ condition "Other" status_false 2 ∷ []

abbrev synced : StatusView
synced = record {
  generation = 1;
  sync = record { synced = "d" ∷ []; out_of_sync = []; sync_waiting = []; error = [] };
  conditions = stored;
}

compute_conditions-ready_example :
    status_of (find "Ready" (compute_conditions 5 synced [])) ≡ some status_true
unfolding string_eq
compute_conditions-ready_example =
    (compute_conditions-ready 5 synced [] (refl, (refl, tt))).1 (refl, refl, refl, refl)

compute_conditions_again_example :
    let once = compute_conditions 5 synced [] in
    find "Available" (compute_conditions 7 (record synced { conditions = once }) [])
    ≡ find "Available" once
unfolding string_eq
compute_conditions_again_example =
    compute_conditions_again "Available" 5 7 synced [] (refl, (refl, tt))

abbrev by_node : Dict String (Dict String String)
by_node = ("n1", ("d1", "synced") ∷ ("d2", "out-of-sync (missing)") ∷ []) ∷ []

aggregate_sync_status_lem_example :
    let out = aggregate_sync_status by_node in
    (contains out.synced "d2" ≡ false)
    × (contains out.sync_waiting "d2" ≡ false)
    × (contains out.error "d2" ≡ false)
    × (contains out.out_of_sync "d2" ≡ true)
unfolding string_eq
aggregate_sync_status_lem_example = aggregate_sync_status_lem "d2" by_node
