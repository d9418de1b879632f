-- ===== src/Kube.antt =====
-- internal/kube: the helpers that every controller shares.
pub mod Rollout
pub mod Meta
pub mod Client
pub mod Errors
pub mod Labels
pub mod VolumeSnapshot
pub mod Pod
pub mod Indexer
