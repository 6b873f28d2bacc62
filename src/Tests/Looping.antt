-- ===== src/Tests/Looping.antt =====
-- The reconcile loop and the deletion of an installation on the test cluster.
use yanet_operator.Base.{
  ◌≡◌, refl, true, false, none, some, List, [], ◌∷◌, String, nat_eq, string_eq, int_eq, option_eq,
  Result, ok, err, All, length,
}
use yanet_operator.Resolve.{dataplane, operator}
use yanet_operator.Resolve.Component.{resolve_box_component}
use yanet_operator.Resolve.Enabled.{ComponentRef, ref_to}
use yanet_operator.Controller.Ownership.{Yanet, controlled_by_yanet}
use yanet_operator.Controller.Prune.{Oracle, done}
use yanet_operator.Controller.Prune.Orphans.{Reads, prune_orphans}
use yanet_operator.Controller.Conditions.{StatusView}
use yanet_operator.Controller.Reconcile.{Rounds, no_rounds, Calls, nodes_loop}
use yanet_operator.Controller.Reconcile.Desired.{IsSparedOn}
use yanet_operator.Controller.Reconcile.Finish.{Failure, Finished, finish}
use yanet_operator.Controller.Reconcile.Spared.{finish-IsSparedOn}
use yanet_operator.Controller.Lifecycle.{
  config_found, refresh_yanet_config_snapshot, begin, frozen, update_done, yanet_finalizer,
  handle_yanet_deletion, check_global_stop,
}
use yanet_operator.Controller.Lifecycle.Finalized.{handle_yanet_deletion_iff}
use yanet_operator.Controller.Lifecycle.Agreed.{begin-refresh_yanet_config_snapshot}
use yanet_operator.Base.Dict.{Dict}
use yanet_operator.Base.{List, Bool, String, err, ◌==◌}
use yanet_operator.Manifests.Services.{ServicePlan}
use yanet_operator.Controller.Placement.{Listings}
use yanet_operator.Controller.Preflight.{Declared, PreflightFailure, preflight_resources}
use yanet_operator.Controller.Preflight.Sound.{IsReadyNode, preflight_resources-IsReady}
use yanet_operator.Controller.Preflight.Ready.{IsOfRequest, nodes_loop-of_preflight}
use yanet_operator.Controller.Flow.{World, Outcome, reconciled, reconcile_yanet}
use yanet_operator.Controller.Flow.Guarded.{IsChecked, reconcile_yanet-IsGuarded}
use yanet_operator.Tests.{parse}
use yanet_operator.Tests.{
  rules, short_key, config, spec, object, owner, yanet, node, deployment, no_pod,
}

-- One Deployment for each component, with the component's name.
abbrev calls : Calls Unit
calls = record {
  resolve = λ ref. resolve_box_component rules short_key config spec ref.kind ref.operator_name;
  with_runtime_network = λ n. ok tt;
  apply_inline_config_maps = λ u rc. ok ("settings" ∷ [], false);
  render_deployments = λ u rc. ok (deployment rc.name "a" ∷ []);
  apply_deployment = λ n d. record { state = "synced"; requeue = 0; error = none };
}

abbrev enabled : List ComponentRef
enabled = ref_to dataplane "" ∷ ref_to operator "route" ∷ []

abbrev loop_result : Result String Rounds → Rounds
loop_result (err e) = no_rounds
loop_result (ok r) = r

abbrev looped : Rounds
looped = loop_result (nodes_loop Unit calls true enabled (node ∷ []) no_rounds)

abbrev reads : Reads
reads = record {
  deployments = ok (deployment "route" "a" ∷ deployment "old" "a" ∷ []);
  deployments_again = ok (deployment "route" "a" ∷ []);
  config_maps = ok (object "unused" (some (owner "a")) ∷ object "settings" (some (owner "a")) ∷ []);
  pods = ok (no_pod ∷ []);
}

abbrev answering : Oracle
answering = record { stopped = λ t. false; answer = λ t. done }

abbrev before : StatusView
before = record {
  generation = 1;
  sync = record { synced = []; out_of_sync = []; sync_waiting = []; error = [] };
  conditions = [];
}

abbrev describe : Failure → String
describe f = ""

abbrev show_names : List String → String
show_names ns = ""

abbrev run : Finished
run = finish describe show_names 5 before 60 (ok tt) answering (yanet "a" 1) true reads none looped

finish-IsSparedOn_example :
    All (λ w. All (IsSparedOn Unit calls true enabled w) (node ∷ [])) run.writes
unfolding nodes_loop resolve_box_component string_eq nat_eq int_eq
finish-IsSparedOn_example =
    finish-IsSparedOn describe show_names 5 before 60 (ok tt) answering (yanet "a" 1) true reads
      Unit calls true enabled (node ∷ []) looped refl none

two_writes : length run.writes ≡ 2
unfolding nodes_loop resolve_box_component finish string_eq nat_eq int_eq
    native.Mathlib.Decide.ℕ_discrete option_eq
two_writes = refl

abbrev leaving : Yanet
leaving = record (yanet "a" 1) {
  meta = record (object "a" none) { finalizers = yanet_finalizer ∷ "other" ∷ []; deleting = true };
}

abbrev emptied : Reads
emptied = record {
  deployments = ok [];
  deployments_again = ok [];
  config_maps = ok [];
  pods = ok [];
}

handle_yanet_deletion_iff_example :
    (let l =
        handle_yanet_deletion
          (some config)
          leaving
          answering
          emptied
          (ok (deployment "d" "b" ∷ []))
          update_done in
      (l.updated ≡ some ("other" ∷ [])) × (l.error ≡ none))
unfolding prune_orphans controlled_by_yanet check_global_stop string_eq nat_eq int_eq
handle_yanet_deletion_iff_example =
    (handle_yanet_deletion_iff (some config) leaving answering emptied
        (ok (deployment "d" "b" ∷ [])) update_done).1.1
      ((refl, (refl, ((refl, tt), refl))), tt)

begin-refresh_yanet_config_snapshot_example :
    begin
      (refresh_yanet_config_snapshot (config_found (record config { stop = true })) (some config)).0
      (config_found (record config { stop = true }))
    ≡ frozen
begin-refresh_yanet_config_snapshot_example =
    begin-refresh_yanet_config_snapshot (config_found (record config { stop = true })) config

abbrev declared : Declared
declared = record {
  rules = rules;
  short_key = short_key;
  is_dns1035_label = λ s. true;
  same_plan = λ p q. p.name == q.name;
  config = config;
  context = record { namespace = "default"; box_type = "release" };
}

abbrev select : Dict String String → Dict String String → Bool
select selector labels = true

abbrev listings : Listings
listings = record { deployments = ok []; replica_sets = ok []; pods = ok [] }

abbrev plans_of : Result PreflightFailure (Dict String ServicePlan) → Dict String ServicePlan
plans_of (ok plans) = plans
plans_of (err e) = []

abbrev plans : Dict String ServicePlan
plans =
    plans_of (preflight_resources declared Unit calls true select "a" listings enabled (node ∷ []))

preflight_passes :
    preflight_resources declared Unit calls true select "a" listings enabled (node ∷ []) ≡ ok plans
unfolding preflight_resources string_eq nat_eq int_eq native.Mathlib.Decide.ℕ_discrete option_eq
preflight_passes = refl

one_plan : length plans ≡ 1
unfolding preflight_resources string_eq nat_eq int_eq native.Mathlib.Decide.ℕ_discrete option_eq
one_plan = refl

preflight_resources-IsReady_example : All (IsReadyNode declared Unit calls true enabled) (node ∷ [])
preflight_resources-IsReady_example =
    preflight_resources-IsReady declared Unit calls true select "a" listings enabled (node ∷ [])
      plans preflight_passes

nodes_loop-of_preflight_example :
    (r : Rounds) × (nodes_loop Unit calls true enabled (node ∷ []) no_rounds ≡ ok r)
    × All IsOfRequest r.errors
nodes_loop-of_preflight_example =
    nodes_loop-of_preflight declared Unit calls true select "a" listings enabled (node ∷ []) plans
      preflight_passes

abbrev installed : Yanet
installed = record (yanet "a" 1) {
  meta = record (object "a" none) { finalizers = yanet_finalizer ∷ [] };
}

abbrev world : World Unit
world = record {
  rules = rules;
  parse_quantity = parse;
  short_key = short_key;
  is_dns1035_label = λ s. true;
  same_plan = λ p q. p.name == q.name;
  matches = select;
  calls = λ c. calls;
  snapshot = none;
  later = none;
  persisted = config_found config;
  oracle = answering;
  update_answer = update_done;
  remaining = ok [];
  nodes = ok (node ∷ []);
  installations = ok (installed ∷ []);
  claims = ok [];
  conflicting = ok [];
  producers = listings;
  reads = reads;
  pods = none;
  updated = ok tt;
  now = 5;
  previous = before;
  describe = describe;
  show_names = show_names;
}

abbrev finished_of : Outcome → Finished
finished_of (reconciled f) = f
finished_of o = run

abbrev whole : Finished
whole = finished_of (reconcile_yanet Unit world installed)

reconcile_yanet-IsGuarded_example : IsChecked Unit world installed whole
unfolding reconcile_yanet string_eq nat_eq int_eq native.Mathlib.Decide.ℕ_discrete option_eq
reconcile_yanet-IsGuarded_example = reconcile_yanet-IsGuarded Unit world installed

whole_writes : length whole.writes ≡ 2
unfolding reconcile_yanet string_eq nat_eq int_eq native.Mathlib.Decide.ℕ_discrete option_eq
whole_writes = refl
