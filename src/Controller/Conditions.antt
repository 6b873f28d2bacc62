-- ===== src/Controller/Conditions.antt =====
-- The conditions of a Yanet's status (internal/controller/yanet_conditions.go).
pub mod Merge
pub mod Ready
pub mod Sync
use yanet_operator.Base.{
  ℕ, not, ◌||◌, ◌&&◌, Option, none, some, List, [], ◌∷◌, ◌++◌, String, ◌<>◌, ◌==◌, contains,
  if◌then◌else◌, nat_eq, string_eq, int_eq, option_eq, Eq, is_empty,
}
use yanet_operator.Base.Dict.{Dict, lookup, insert}
use yanet_operator.Base.Text.{sort_strings}

pub data ConditionStatus : Type 0 where
  status_true status_false status_unknown : ConditionStatus

status_dec : Discrete ConditionStatus
status_dec = hlevel

instance unfoldable pub status_eq : Eq ConditionStatus
unfolding status_dec
status_eq = record { dec = status_dec }

-- metav1.Condition
pub record Condition : Type 0 where
  pub type : String
  pub status : ConditionStatus
  pub observed_generation : ℕ
  pub last_transition_time : ℕ
  pub reason : String
  pub message : String

pub record SyncStatus : Type 0 where
  pub synced : List String
  pub out_of_sync : List String
  pub sync_waiting : List String
  pub error : List String

-- The part of a Yanet that the conditions are computed from and stored in.
pub record StatusView : Type 0 where
  pub generation : ℕ
  pub sync : SyncStatus
  pub conditions : List Condition

-- A list of texts as fmt prints it.
spaced : List String → String
spaced [] = ""
spaced (w ∷ []) = w
spaced (w ∷ v ∷ ws) = w <> (" " <> spaced (v ∷ ws))

show_list : List String → String
unfolding spaced
show_list ws = "[" <> (spaced ws <> "]")

-- The index of the existing conditions by their type: the last of a type stays.
unfoldable pub by_type : List Condition → Dict String Condition → Dict String Condition
unfolding insert
by_type [] out = out
by_type (c ∷ cs) out = by_type cs (insert c.type c out)

abbrev pub keep_time : Option Condition → Condition → Condition
keep_time none nc = nc
keep_time (some old) nc =
    if old.status == nc.status && old.reason == nc.reason
    then record nc { last_transition_time = old.last_transition_time }
    else nc

-- The loop over the fresh conditions.
unfoldable pub refresh : Dict String Condition → List Condition → List Condition
refresh index [] = []
refresh index (nc ∷ fresh) = keep_time (lookup nc.type index) nc ∷ refresh index fresh

abbrev pub types : List Condition → List String
types [] = []
types (c ∷ cs) = c.type ∷ types cs

-- The loop that keeps the existing conditions of other types.
unfoldable pub unseen : List String → List Condition → List Condition
unseen seen [] = []
unseen seen (oc ∷ existing) =
    let rest = unseen seen existing in if contains seen oc.type then rest else oc ∷ rest

unfoldable pub merge_conditions : List Condition → List Condition → List Condition
unfolding by_type refresh unseen
merge_conditions existing fresh =
    refresh (by_type existing []) fresh ++ unseen (types fresh) existing

available : ℕ → ℕ → SyncStatus → Condition
available gen now sync =
    let avail : Condition = record {
      type = "Available";
      status = status_true;
      observed_generation = gen;
      last_transition_time = now;
      reason = "AllSynced";
      message = "All deployments are in sync";
    } in
    if not (is_empty sync.error)
    then record avail {
      status = status_false;
      reason = "SyncError";
      message = "Errors syncing deployments: " <> show_list sync.error;
    }
    else if not (is_empty sync.out_of_sync)
    then record avail {
      status = status_false;
      reason = "OutOfSync";
      message = "Deployments out of sync (autoSync=false): " <> show_list sync.out_of_sync;
    }
    else avail

progressing : ℕ → ℕ → SyncStatus → Condition
progressing gen now sync =
    let prog : Condition = record {
      type = "Progressing";
      status = status_false;
      observed_generation = gen;
      last_transition_time = now;
      reason = "Idle";
      message = "No updates in progress";
    } in
    if not (is_empty sync.sync_waiting)
    then record prog {
      status = status_true;
      reason = "WaitingForUpdateWindow";
      message = "Waiting for UpdateWindow: " <> show_list sync.sync_waiting;
    }
    else prog

degraded : ℕ → ℕ → SyncStatus → List String → Condition
degraded gen now sync missing_operators =
    let deg : Condition = record {
      type = "Degraded";
      status = status_false;
      observed_generation = gen;
      last_transition_time = now;
      reason = "Healthy";
      message = "No errors detected";
    } in
    if not (is_empty missing_operators)
    then record deg {
      status = status_true;
      reason = "OperatorMissing";
      message =
          "BoxType references operators missing from palette: "
          <> show_list (sort_strings missing_operators);
    }
    else if not (is_empty sync.error)
    then record deg {
      status = status_true;
      reason = "SyncError";
      message = "Errors syncing deployments: " <> show_list sync.error;
    }
    else deg

ready : ℕ → ℕ → Condition → Condition → Condition → Condition
ready gen now avail prog deg =
    let all_good : Condition = record {
      type = "Ready";
      status = status_true;
      observed_generation = gen;
      last_transition_time = now;
      reason = "AllChecksPassed";
      message = "Yanet is ready";
    } in
    if not (avail.status == status_true) || prog.status == status_true || deg.status == status_true
    then record all_good {
      status = status_false;
      reason = "NotReady";
      message = "See Available/Progressing/Degraded conditions";
    }
    else all_good

-- The four conditions before they are merged into the existing ones.
unfoldable pub fresh_conditions : ℕ → StatusView → List String → List Condition
unfolding available progressing degraded ready status_eq show_list
fresh_conditions now yanet missing_operators =
    let avail = available yanet.generation now yanet.sync in
    let prog = progressing yanet.generation now yanet.sync in
    let deg = degraded yanet.generation now yanet.sync missing_operators in
    avail ∷ prog ∷ deg ∷ ready yanet.generation now avail prog deg ∷ []

unfoldable pub compute_conditions : ℕ → StatusView → List String → List Condition
unfolding fresh_conditions merge_conditions
compute_conditions now yanet missing_operators =
    merge_conditions yanet.conditions (fresh_conditions now yanet missing_operators)

unfoldable pub set_conditions_degraded : ℕ → StatusView → String → String → StatusView
unfolding merge_conditions
set_conditions_degraded now yanet reason message =
    let deg : Condition = record {
      type = "Degraded";
      status = status_true;
      observed_generation = yanet.generation;
      last_transition_time = now;
      reason = reason;
      message = message;
    } in
    let not_ready : Condition = record {
      type = "Ready";
      status = status_false;
      observed_generation = yanet.generation;
      last_transition_time = now;
      reason = "NotReady";
      message = "See Degraded condition";
    } in
    record yanet { conditions = merge_conditions yanet.conditions (deg ∷ not_ready ∷ []) }
