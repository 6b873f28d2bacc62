-- ===== src/Controller/Exclusive.antt =====
-- validateExclusiveNodes and yanetPrecedes (internal/controller/yanet_reconciler.go). The matching
-- of a label selector is a parameter, `matches`.
pub mod Mutual
pub mod Winner
use yanet_operator.Base.{
  Bool, true, false, not, ◌||◌, ◌&&◌, none, some, List, [], ◌∷◌, ◌++◌, map, String, ◌<>◌, ◌==◌,
  contains, if◌then◌else◌, nat_eq, string_eq, int_eq, option_eq, ltb, Result, ok, err, is_empty,
}
use yanet_operator.Base.Dict.{Dict, lookup}
use yanet_operator.Base.Text.{sort_strings, text_lt}
use yanet_operator.Kube.{ObjectMeta, Node}
use yanet_operator.Manifests.Workload.{label_node}
use yanet_operator.Controller.Ownership.{Yanet, controlled_by_yanet}

-- `deployment.Labels[LabelNode]`, which is empty without the label.
abbrev pub node_label : ObjectMeta → String
node_label deployment = elim (lookup label_node deployment.labels) [ none ↦ "" | some n ↦ n ]

abbrev pub yanet_key : Yanet → String
yanet_key yanet = yanet.meta.namespace <> ("/" <> yanet.meta.name)

unfoldable pub yanet_precedes : Yanet → Yanet → Bool
yanet_precedes left right =
    if left.created == right.created
    then text_lt (yanet_key left) (yanet_key right)
    else ltb left.created right.created

-- The closure hasWorkload, over the Deployments listed.
unfoldable pub has_workload : List ObjectMeta → Yanet → String → Bool
unfolding controlled_by_yanet
has_workload [] installation node_name = false
has_workload (d ∷ ds) installation node_name =
    let rest = has_workload ds installation node_name in
    if not (d.namespace == installation.meta.namespace) || not (node_label d == node_name)
    then rest
    else if controlled_by_yanet d installation
    then true
    else rest

abbrev pub same_yanet : Yanet → Yanet → Bool
same_yanet other yanet =
    other.meta.namespace == yanet.meta.namespace && other.meta.name == yanet.meta.name

-- The conflicts' messages, and the set of the nodes to clean as a list.
pub record Found : Type 0 where
  pub conflicts : List String
  pub cleanup : List String

abbrev pub nothing_found : Found
nothing_found = record { conflicts = []; cleanup = [] }

abbrev pub message : Yanet → Node → String
message other node =
    "node "
    <> (node.name
        <> (" is also selected by Yanet " <> (other.meta.namespace <> ("/" <> other.meta.name))))

abbrev pub same_bool : Bool → Bool → Bool
same_bool true b = b
same_bool false b = not b

pub data NodesError : Type 0 where
  list_failed : String → NodesError
  node_selection_conflict : Found → NodesError

module _ (matches : Dict String String → Dict String String → Bool) (deployments : List ObjectMeta)
    (yanet : Yanet) where
  -- Whether the other installation has a claim on the node.
  abbrev pub claims : Yanet → Node → Bool
  claims other node =
      has_workload deployments other node.name || matches other.spec.node_selector node.labels

  unfoldable pub current_wins : Yanet → Node → Bool
  unfolding has_workload yanet_precedes
  current_wins other node =
      let current = has_workload deployments yanet node.name in
      let others = has_workload deployments other node.name in
      if same_bool current others then yanet_precedes yanet other else current && not others

  -- The body of the inner loop.
  unfoldable pub check_node : Yanet → Node → Found → Found
  unfolding has_workload current_wins
  check_node other node found =
      if not (claims other node)
      then found
      else if current_wins other node && not other.meta.deleting
      then found
      else record {
        conflicts = found.conflicts ++ (message other node ∷ []);
        cleanup =
            if has_workload deployments yanet node.name && not (current_wins other node)
            then node.name ∷ found.cleanup
            else found.cleanup;
      }

  unfoldable pub check_nodes : Yanet → List Node → Found → Found
  unfolding check_node
  check_nodes other [] found = found
  check_nodes other (n ∷ ns) found = check_nodes other ns (check_node other n found)

  unfoldable pub check_installations : List Node → List Yanet → Found → Found
  unfolding check_nodes
  check_installations nodes [] found = found
  check_installations nodes (other ∷ others) found =
      check_installations nodes others
        (if same_yanet other yanet then found else check_nodes other nodes found)

module _ (deployments : List ObjectMeta) (yanet : Yanet) where
  -- The nodes of the installation's own Deployments that it no longer selects.
  unfoldable pub release_former : List String → List ObjectMeta → List String → List String
  unfolding controlled_by_yanet
  release_former selected [] cleanup = cleanup
  release_former selected (d ∷ ds) cleanup = release_former selected ds (
      if not (contains selected (node_label d)) && controlled_by_yanet d yanet
      then node_label d ∷ cleanup
      else cleanup)

  unfoldable pub decide_nodes : List Node → Found → Result NodesError (Unit {0})
  unfolding release_former sort_strings
  decide_nodes nodes found =
      if is_empty found.conflicts
      then ok tt
      else err (
          node_selection_conflict (record {
            conflicts = sort_strings found.conflicts;
            cleanup = release_former (map (λ n. n.name) nodes) deployments found.cleanup;
          }))

-- The results of the two List calls are arguments.
unfoldable pub validate_exclusive_nodes :
    (Dict String String → Dict String String → Bool)
    → Result String (List Yanet)
    → Result String (List ObjectMeta)
    → Yanet
    → List Node
    → Result NodesError (Unit {0})
unfolding check_installations decide_nodes
validate_exclusive_nodes matches installations deployments yanet [] = ok tt
validate_exclusive_nodes matches (err e) deployments yanet (n ∷ ns) = err (list_failed e)
validate_exclusive_nodes matches (ok ys) (err e) yanet (n ∷ ns) = err (list_failed e)
validate_exclusive_nodes matches (ok ys) (ok ds) yanet (n ∷ ns) =
    decide_nodes ds yanet (n ∷ ns) (check_installations matches ds yanet (n ∷ ns) ys nothing_found)
