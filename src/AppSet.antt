-- ===== src/AppSet.antt =====
-- The YurtAppSet controller (pkg/yurtappmanager/controller/yurtappset) in its parts: the conditions
-- of the status, the revisions, the pools, the adapters, the reconciliation.
pub mod Types
pub mod Conditions
pub mod Pools
pub mod Update
pub mod Status
pub mod Revision
pub mod Adapter
pub mod Template
pub mod Deployments
pub mod PoolControl
pub mod Construct
mod Examples
