-- ===== src/Webhook.antt =====
-- The webhooks of pkg/yurtappmanager/webhook, which say what the API server may store: those of node
-- pools, ingresses, YurtAppSets and YurtAppDaemons, and the two versions of a node pool.
pub mod Fields
pub mod NodePools
pub mod Ingresses
pub mod Templates
pub mod AppSets
pub mod Daemons
mod Examples
