-- ===== src/NodePool.antt =====
-- The NodePool controller (pkg/yurtappmanager/controller/nodepool) in its parts: the taints of a
-- node, the labels, annotations and taints that a pool gives a node, the reconciliation, the work
-- queue.
pub mod Types
pub mod Taints
pub mod Attributes
pub mod Status
pub mod Reconcile
pub mod Queue
pub mod Defaults
mod Examples
