-- ===== src/Controller/Reconcile.antt =====
-- The loop of reconcileYanet over the nodes and the components, and what follows it
-- (internal/controller/yanet_reconciler.go). The runtime network of a node (of any type), the
-- application of the inline ConfigMaps, the rendering of a component and the application of a
-- Deployment are arguments: functions of what they are called with. Of the status, the services and the
-- pods are left out; times are in seconds.
pub mod Finish
pub mod Extends
pub mod Wanted
pub mod Desired
pub mod Spared
use yanet_operator.Base.{
  ℕ, zero, suc, Bool, false, not, ◌||◌, ◌&&◌, Option, none, some, List, [], ◌∷◌, ◌++◌, String, ◌==◌,
  if◌then◌else◌, nat_eq, string_eq, int_eq, option_eq, ltb, Result, ok, err, ◌>>=◌, pos,
}
use yanet_operator.Base.Dict.{Dict, insert}
use yanet_operator.Kube.{Node, Deployment}
use yanet_operator.Api.Errors.{Error}
use yanet_operator.Resolve.{ComponentKind, controlplane, ResolvedComponent, ResolvedSidecar}
use yanet_operator.Resolve.Enabled.{ComponentRef}
use yanet_operator.Manifests.Ports.{is_colocated}
use yanet_operator.Controller.Prune.Orphans.{DesiredSet}

pub record NodeStatus : Type 0 where
  pub deployments : Dict String String
  pub numa_count : ℕ

-- The state, the wait and the error of applyDeployment.
pub record ApplyReport : Type 0 where
  pub state : String
  pub requeue : ℕ
  pub error : Option String

pub data LoopError : Type 0 where
  not_resolved : Error → LoopError
  config_maps_failed build_failed apply_failed pods_not_listed : String → LoopError

-- The variables that the loop changes.
pub record Rounds : Type 0 where
  pub nodes_status : Dict String NodeStatus
  pub desired : DesiredSet
  pub missing_operators : List String
  pub sync_waiting : Bool
  pub earliest_requeue : ℕ
  pub errors : List LoopError

abbrev pub no_rounds : Rounds
no_rounds = record {
  nodes_status = [];
  desired = record { deployments = []; config_maps = [] };
  missing_operators = [];
  sync_waiting = false;
  earliest_requeue = 0;
  errors = [];
}

-- The loop's calls, over the type of a node's runtime network.
pub record Calls (C : Type 0) : Type 0 where
  pub resolve : ComponentRef → Result Error (Option ResolvedComponent)
  pub with_runtime_network : Node → Result String C
  pub apply_inline_config_maps : C → ResolvedComponent → Result String (List String × Bool)
  pub render_deployments : C → ResolvedComponent → Result String (List Deployment)
  pub apply_deployment : Node → Deployment → ApplyReport

abbrev pub normalize_deployment_replicas : Bool → Bool → Deployment → Deployment
normalize_deployment_replicas component_enabled installation_enabled d =
    if component_enabled && installation_enabled then d else record d { replicas = some (pos 0) }

abbrev pub drifted : Bool → String → String
drifted drift state = if drift && state == "synced" then "out-of-sync (inline config)" else state

abbrev pub counts_numa : ComponentKind → ℕ → ℕ
counts_numa controlplane n = suc n
counts_numa k n = n

abbrev pub note_error : Option String → List LoopError → List LoopError
note_error none errors = errors
note_error (some e) errors = errors ++ (apply_failed e ∷ [])

-- The least wait so far, where 0 stands for none.
abbrev pub earliest : ℕ → ℕ → ℕ
earliest zero so_far = so_far
earliest (suc w) zero = suc w
earliest (suc w) (suc s) = if ltb w s then suc w else suc s

module _ (C : Type 0) (calls : Calls C) (installation_enabled : Bool) where
  -- The body of the loop over a component's Deployments. The node's status is carried beside the rest.
  abbrev pub report_one :
      Node → ComponentRef → Bool → Bool → Deployment → NodeStatus × Rounds → NodeStatus × Rounds
  report_one node ref enabled drift d (ns, r) =
      let d' = normalize_deployment_replicas enabled installation_enabled d in
      let report = calls.apply_deployment node d' in
      let state = drifted drift report.state in
      (
        record {
          deployments = insert d'.meta.name state ns.deployments;
          numa_count = counts_numa ref.kind ns.numa_count;
        },
        record r {
          desired = record r.desired { deployments = d'.meta.name ∷ r.desired.deployments };
          errors = note_error report.error r.errors;
          sync_waiting = state == "sync-waiting" || r.sync_waiting;
          earliest_requeue = earliest report.requeue r.earliest_requeue;
        },
      )

  unfoldable pub reports_loop :
      Node
      → ComponentRef
      → Bool
      → Bool
      → List Deployment
      → NodeStatus × Rounds
      → NodeStatus × Rounds
  unfolding insert
  reports_loop node ref enabled drift [] acc = acc
  reports_loop node ref enabled drift (d ∷ ds) acc =
      reports_loop node ref enabled drift ds (report_one node ref enabled drift d acc)

  abbrev pub add_error : LoopError → NodeStatus × Rounds → NodeStatus × Rounds
  add_error e (ns, r) = (ns, record r { errors = r.errors ++ (e ∷ []) })

  abbrev pub add_rendered :
      Node
      → ComponentRef
      → Bool
      → Bool
      → Result String (List Deployment)
      → NodeStatus × Rounds
      → NodeStatus × Rounds
  add_rendered node ref enabled drift (err e) acc = add_error (build_failed e) acc
  add_rendered node ref enabled drift (ok ds) acc = reports_loop node ref enabled drift ds acc

  abbrev pub want_config_maps : List String → NodeStatus × Rounds → NodeStatus × Rounds
  want_config_maps names (ns, r) =
      (ns, record r { desired = record r.desired { config_maps = names ++ r.desired.config_maps } })

  abbrev pub add_configured :
      Node
      → C
      → ComponentRef
      → ResolvedComponent
      → Result String (List String × Bool)
      → NodeStatus × Rounds
      → NodeStatus × Rounds
  add_configured node context ref component (err e) acc = add_error (config_maps_failed e) acc
  add_configured node context ref component (ok found) acc =
      add_rendered node ref component.enabled found.1 (calls.render_deployments context component)
        (want_config_maps found.0 acc)

  abbrev pub note_missing : ComponentRef → NodeStatus × Rounds → NodeStatus × Rounds
  note_missing ref (ns, r) =
      if not (ref.operator_name == "")
      then (ns, record r { missing_operators = ref.operator_name ∷ r.missing_operators })
      else (ns, r)

  -- A component, with its own enablement and the installation's.
  abbrev pub effective : ResolvedComponent → ResolvedComponent
  effective rc = record rc { enabled = rc.enabled && installation_enabled }

  abbrev pub add_component :
      Node
      → C
      → ComponentRef
      → Result Error (Option ResolvedComponent)
      → NodeStatus × Rounds
      → NodeStatus × Rounds
  add_component node context ref (err e) acc = add_error (not_resolved e) acc
  add_component node context ref (ok none) acc = note_missing ref acc
  add_component node context ref (ok (some rc)) acc =
      if is_colocated ResolvedSidecar rc
      then acc
      else add_configured node context ref (effective rc)
          (calls.apply_inline_config_maps context (effective rc)) acc

  unfoldable pub components_loop :
      Node → C → List ComponentRef → NodeStatus × Rounds → NodeStatus × Rounds
  unfolding reports_loop
  components_loop node context [] acc = acc
  components_loop node context (ref ∷ refs) acc =
      components_loop node context refs (add_component node context ref (calls.resolve ref) acc)

  abbrev pub fresh_node : NodeStatus
  fresh_node = record { deployments = []; numa_count = 0 }

  abbrev pub store_node : Node → NodeStatus × Rounds → Rounds
  store_node node (ns, r) = record r { nodes_status = insert node.name ns r.nodes_status }

  -- A runtime network that cannot be determined ends the reconciliation.
  unfoldable pub nodes_loop : List ComponentRef → List Node → Rounds → Result String Rounds
  unfolding components_loop insert
  nodes_loop enabled [] r = ok r
  nodes_loop enabled (n ∷ ns) r = calls.with_runtime_network n >>= λ context.
      nodes_loop enabled ns (store_node n (components_loop n context enabled (fresh_node, r)))
