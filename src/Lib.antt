-- ===== src/Lib.antt =====
-- The YANET operator: a Kubernetes operator that renders YANET installations (the custom resource
-- Yanet) from a cluster-wide palette and its box types (YanetConfig) into Deployments.
--
-- How the program's parts meet: the admission webhooks (api/v1alpha1) check both resources; the
-- resolver (internal/helpers) merges the palette, the wiring of a box type and the overrides of an
-- installation into a rendering input for each role; the manifests (internal/manifests) turn it into
-- objects; the controllers (internal/controller) write them, at a limited pace, on nodes that no
-- other installation holds, prune what is no longer wanted, and report conditions.
--
-- The files. Base has what the others share: Result for a Go pair of a value and an error, Dict for
-- a map, integers and lists over the native numbers, and texts. Kube has the Kubernetes objects.
--   * Api/Types: the resources' specs (api/v1alpha1/yanetconfig_types.go, yanet_types.go,
--     config_source.go). Api/Errors: the error messages as data. Api/Names: the name rules of
--     Kubernetes, which are a parameter.
--   * Api/Listeners, Api/Numa, Api/Networks, Api/Unique: checks of the webhook of YanetConfig
--     (operator_validation.go, network_attachments.go, yanetconfig_webhook.go).
--   * Api/Hugepages: the total of a hugepages request (yanetconfig_types.go). Api/Overrides: the
--     checks of an installation's overrides (yanet_webhook.go). Api/Boxes: the references of the box
--     types. Api/Admission: validateYanetConfig as a whole (yanetconfig_webhook.go).
--   * Resolve: internal/helpers/resolve.go and ptr.go, with the sidecars in Resolve/Sidecars, the
--     switch over the role in Resolve/Component, the operators in Resolve/Operators and the enumeration of a box's roles in
--     Resolve/Enabled.
--   * Manifests/Ports, Manifests/Concurrent, Manifests/Fanout: the ports of a role, the ports of
--     containers that run together, and the NUMA domains that get a Deployment
--     (internal/manifests/listeners.go, pod_ports.go, builder.go).
--   * Manifests/Workload: the fields of a Deployment that the renderer reads or writes.
--     Manifests/Identity: what patches may not change of it (labels.go). Manifests/Names: the names
--     that the renderer makes, measured in bytes (builder.go, service.go, operator_placement.go).
--     Manifests/Services: the plans of shared Services (service.go).
--   * Controller/Throttle: checkUpdateRequeue (internal/controller/yanet_controller.go), with the two
--     fields that its lock guards as its state.
--   * Controller/Exclusive: validateExclusiveNodes and yanetPrecedes (yanet_reconciler.go).
--   * Controller/Ownership, Controller/Prune: the owner checks and the two pruning passes (prune.go).
--   * Controller/Apply: applyDeployment and desiredDeploymentUpdate (yanet_reconciler.go), with the
--     API server's answers as input, one record for each call of the retried function.
--   * Controller/Metadata: the merge of owned labels and annotations (yanet_reconciler.go).
--   * Controller/Conditions: the status conditions (yanet_conditions.go), and
--     aggregateSyncStatus in Controller/Conditions/Sync.
--   * Controller/Placement: the guard of moves between a standalone operator and a sidecar
--     (internal/controller/operator_placement.go).
--   * Controller/SharedServices: reconcileSharedServices (shared_services.go), its planning in the
--     module itself, the placement scopes in Scopes, one application in Apply (what it brings about in
--     Apply/InPlace) and the whole pass in Pass; Verdict and Agreed say what the planning keeps, Told
--     what it tells as errors.
--   * Controller/Reconcile: the loop of reconcileYanet over nodes and components, and what follows it
--     in Reconcile/Finish (yanet_reconciler.go). Extends, Wanted, Desired and Spared say what a
--     reconciliation may delete.
--   * Controller/Preflight: preflightResources (yanet_reconciler.go), what it establishes in Sound, and
--     what that means for the loop in Ready.
--   * Controller/Lifecycle: the kill switch with its snapshot of the singleton, and the finalizer
--     (yanet_reconciler.go, yanetconfig_controller.go).
--   * Controller/Flow: reconcileYanet as a whole, of these parts; what it reads and is answered is the
--     record World.
--   * Tests: a small cluster, and runs on it.
--
-- Parameters, since their code is not part of the repository: the name rules of apimachinery, the
-- matching of label selectors, the parsing of a quantity, the semantic comparison of objects, the
-- SHA-256 prefix that identifies a sidecar, the number of repetitions after a conflict, and the
-- answers of the API server. Loops are recursion on their lists, so that no fuel is needed. An int32
-- is an integer: the code that adds or multiplies them tests the bounds first, and a theorem shows
-- that the results fit. The time is a number, and a theorem that needs a
-- clock that does not run backwards says so. A range over a map visits an arbitrary list of its
-- entries.
--
-- The texts of patches stay shut: ValidateSidecarPatch, validateBoxPrivateNetwork and what dryRunPatches
-- does with a patch's JSON are parameters of Api/Admission as well.
--
-- Not modelled: the rendering of whole manifests, the runtime network and the inline ConfigMaps, which
-- the reconcile loop takes as functions; the patches, the retried update of the status, the list of
-- pods; watches, metrics, events and logs, and generated code.
pub mod Base
pub mod Kube
pub mod Api
pub mod Resolve
pub mod Manifests
pub mod Controller
mod Tests
