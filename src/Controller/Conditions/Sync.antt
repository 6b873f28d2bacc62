-- ===== src/Controller/Conditions/Sync.antt =====
-- The sync buckets (aggregateSyncStatus in internal/controller/yanet_reconciler.go), and which of them
-- a Deployment's state puts it in.
use yanet_operator.Base.{
  ◌≡◌, refl, Bool, false, not, ◌||◌, ◌&&◌, List, [], ◌∷◌, arith, String, ◌==◌, contains,
  if◌then◌else◌, nat_eq, string_eq, int_eq, option_eq,
}
use yanet_operator.Base.Dict.{Dict, values}
use yanet_operator.Base.Text.{sort_strings, contains-sort_strings}
use yanet_operator.Controller.Conditions.{SyncStatus}

-- The status strings that applyDeployment gives, put into their buckets.
abbrev pub bucket : String → String → SyncStatus → SyncStatus
bucket state name out =
    if state == "synced"
    then record out { synced = name ∷ out.synced }
    else if state == "sync-waiting"
    then record out { sync_waiting = name ∷ out.sync_waiting }
    else if state == "error"
    then record out { error = name ∷ out.error }
    else record out { out_of_sync = name ∷ out.out_of_sync }

unfoldable pub collect_states : Dict String String → SyncStatus → SyncStatus
collect_states [] out = out
collect_states ((name, state) ∷ states) out = collect_states states (bucket state name out)

-- The nodes are given by their Deployments' states.
unfoldable pub collect_nodes : List (Dict String String) → SyncStatus → SyncStatus
unfolding collect_states
collect_nodes [] out = out
collect_nodes (states ∷ nodes) out = collect_nodes nodes (collect_states states out)

abbrev pub empty_sync : SyncStatus
empty_sync = record { synced = []; out_of_sync = []; sync_waiting = []; error = [] }

unfoldable pub aggregate_sync_status : Dict String (Dict String String) → SyncStatus
unfolding collect_nodes sort_strings
aggregate_sync_status by_node =
    let out = collect_nodes (values by_node) empty_sync in
    record {
      synced = sort_strings out.synced;
      out_of_sync = sort_strings out.out_of_sync;
      sync_waiting = sort_strings out.sync_waiting;
      error = sort_strings out.error;
    }

-- The name has an entry whose state satisfies the test.
abbrev reported_in : (String → Bool) → String → Dict String String → Bool
reported_in test name [] = false
reported_in test name ((n, state) ∷ states) =
    n == name && test state || reported_in test name states

-- Some node reports the name with such a state.
abbrev pub reported : (String → Bool) → String → List (Dict String String) → Bool
reported test name [] = false
reported test name (states ∷ nodes) = reported_in test name states || reported test name nodes

abbrev pub is_other : String → Bool
is_other state = not (state == "synced") && not (state == "sync-waiting") && not (state == "error")

abbrev Adds : ((String → Bool) → Bool) → String → SyncStatus → SyncStatus → Type 0
Adds found name before after =
    (contains after.synced name ≡ (found (λ s. s == "synced") || contains before.synced name))
    × (contains after.sync_waiting name
        ≡ (found (λ s. s == "sync-waiting") || contains before.sync_waiting name))
    × (contains after.error name ≡ (found (λ s. s == "error") || contains before.error name))
    × (contains after.out_of_sync name ≡ (found is_other || contains before.out_of_sync name))

abbrev Differs : String → String → Type 0
Differs s t = (s == t) ≡ false

states_differ :
    Differs "synced" "sync-waiting" × Differs "synced" "error" × Differs "sync-waiting" "error"
unfolding string_eq
states_differ = (refl, refl, refl)

collect_states_lem :
    (name : String) (states : Dict String String) (out : SyncStatus)
    → Adds (λ test. reported_in test name states) name out (collect_states states out)
unfolding collect_states
collect_states_lem name [] out = (refl, refl, refl, refl)
collect_states_lem name ((n, state) ∷ states) out =
    ground (arith, states_differ, collect_states_lem name states (bucket state n out))

collect_nodes_lem :
    (name : String) (nodes : List (Dict String String)) (out : SyncStatus)
    → Adds (λ test. reported test name nodes) name out (collect_nodes nodes out)
unfolding collect_nodes
collect_nodes_lem name [] out = (refl, refl, refl, refl)
collect_nodes_lem name (states ∷ nodes) out = ground (
  arith,
  collect_nodes_lem name nodes (collect_states states out),
  collect_states_lem name states out,
)

-- A Deployment is listed in a bucket of the status exactly when some node reports it with the
-- bucket's state; out-of-sync takes every state that is none of the other three.
pub aggregate_sync_status_lem :
    (name : String) (by_node : Dict String (Dict String String))
    → let out = aggregate_sync_status by_node in
      (contains out.synced name ≡ reported (λ s. s == "synced") name (values by_node))
      × (contains out.sync_waiting name ≡ reported (λ s. s == "sync-waiting") name (values by_node))
      × (contains out.error name ≡ reported (λ s. s == "error") name (values by_node))
      × (contains out.out_of_sync name ≡ reported is_other name (values by_node))
unfolding aggregate_sync_status
aggregate_sync_status_lem name by_node =
    let out = collect_nodes (values by_node) empty_sync in
    ground (
      arith,
      collect_nodes_lem name (values by_node) empty_sync,
      contains-sort_strings name out.synced,
      contains-sort_strings name out.sync_waiting,
      contains-sort_strings name out.error,
      contains-sort_strings name out.out_of_sync,
    )
