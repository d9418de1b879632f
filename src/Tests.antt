-- ===== src/Tests.antt =====
-- Concrete inputs: the tests of the definitions, and the theorems applied.
mod Rollout
mod Cosmos
mod Nodes
mod Reconciles
mod Stamps
mod Owners
mod Roles
mod Layouts
mod Checks
mod Configs
mod Health
mod Commands
mod Diffs
mod Recovery
mod Pods
mod Snapshots
mod Jobs
