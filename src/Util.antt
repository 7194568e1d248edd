-- ===== src/Util.antt =====
-- pkg/yurtappmanager/util: the batches of tools.go, and the lists of names and pods.
pub mod SlowStart
pub mod Names
