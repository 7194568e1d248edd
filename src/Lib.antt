-- ===== src/Lib.antt =====
-- yurt-app-manager: a model of the controllers of pkg/yurtappmanager, which keep the nodes, pools and
-- workloads of an edge cluster as the custom resources ask for.
--
-- The parts, and how they work together:
-- - Util.SlowStart: SlowStartBatch of pkg/yurtappmanager/util/tools.go, with which the controllers create and update pools
--   in growing batches. The order in which the calls of a batch take effect is a parameter.
--   Util.Names: the lists of names and pods of tools.go, pods.go and string.go beside it.
-- - RefManager: pkg/yurtappmanager/util/refmanager/ref_manager.go, by which a controller claims what it owns.
-- - NodePool: pkg/yurtappmanager/controller/nodepool. NodePool.Taints and NodePool.Attributes model what concilateNode and
--   removePoolRelatedAttrs do to a node, NodePool.Status the counts, NodePool.Reconcile the
--   reconciliation as a list of writes, NodePool.Queue the event handlers, NodePool.Defaults the pools that
--   are made at the start.
-- - AppSet: pkg/yurtappmanager/controller/yurtappset. AppSet.Conditions, AppSet.Pools and AppSet.Update model the conditions
--   and managePools, AppSet.Status the status, AppSet.Revision and AppSet.Construct the revisions and
--   Reconcile, AppSet.Adapter, AppSet.Template and AppSet.PoolControl the sets of the pools, AppSet.Deployments
--   the deployments.
-- - Ingress: pkg/yurtappmanager/controller/yurtingress. Ingress.Steps and Ingress.Reconcile model Reconcile, updateStatus
--   and the clean-up.
-- - Daemon: pkg/yurtappmanager/controller/yurtappdaemon. Daemon models classifyWorkloads, Daemon.Manage manageWorkloads and
--   the status, Daemon.Revision the revisions, Daemon.Reconcile the reconciliation and Daemon.Deployments the
--   controller of deployments in workloadcontroller.
-- - Webhook: pkg/yurtappmanager/webhook, which decides what the controllers may find. Webhook.NodePools models
--   the webhook of node pools and the conversion of pkg/yurtappmanager/apis/apps/v1beta1, Webhook.Ingresses,
--   Webhook.AppSets and Webhook.Daemons the others, Webhook.Templates what the last two share.
-- - Prelude and Writes: Go's maps, slices and errors, and runs of writes that an API server answers.
--
-- Maps and slices keep their nil; a write to a nil map and a nil that is dereferenced are the result
-- `panic`. Numbers of type int32 are natural numbers, with their wrap-around written out where the
-- code adds them, but for revision history limits and the replicas that the webhooks check, which are signed; revision numbers, of type int64, do not wrap. The API server, the JSON and hash functions and the functions of k8s.io that the code
-- calls are parameters. An API call of which more than the answer matters changes a world `W` or a log.
-- SlowStartBatch has fuel for one more round than there are calls, which is enough since each
-- batch makes at least one. Creating a revision has its fuel as a parameter. The retries of updates
-- are bounded in the code, and as numbers here.
--
-- Not modelled: logging and events; the set-up of controllers; the manifests of util/kubernetes; the
-- defaults of YurtAppSets and YurtAppDaemons, which are those of Kubernetes; the UnitedDeployment
-- controller, which the YurtAppSet controller replaces; generated code.
pub mod AppSet
pub mod Daemon
pub mod Ingress
pub mod NodePool
pub mod Prelude
pub mod RefManager
pub mod Util
pub mod Webhook
pub mod Writes
