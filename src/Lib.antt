-- ===== src/Lib.antt =====
-- A model of cosmos-operator, the Kubernetes operator that runs Cosmos SDK nodes, and proofs about
-- its decision logic: which resources a reconcile creates, deletes and updates, how many pods it
-- may take down, and how it recovers a node whose height is stuck.
--
-- The parts, by file (paths from the repository's root):
--   Common: texts, keys, association lists, decimal numerals, integers and panics for all parts.
--   Kube: internal/kube. Kube/Rollout is `ComputeRollout` of rollout.go, Kube/Errors and
--   Kube/Client are error.go with the API server's answers, Kube/Labels is labels.go,
--   Kube/VolumeSnapshot is volume_snapshot.go, Kube/Pod is pod.go and image.go, Kube/Indexer is
--   indexer.go and job.go, and Kube/Meta is the object metadata.
--   Diff: internal/diff. `adapt` is `Adapt`, `new` is `New`, and the helpers keep their names in
--   antt's spelling (`to_set` is `toSet`, `compute_updates` is `computeUpdates`); the loop of
--   `computeCreates` and `computeDeletes` is `missing`, that of `computeUpdates` is `changed`.
--   PodControl: internal/fullnode/pod_control.go. `reconcile` is `PodControl.Reconcile`, with one
--   function for each of its loops; it calls Diff and, by `compute_rollout`, Kube/Rollout.
--   StuckHeight: api/v1/stuckheightrecovery_types.go, and internal/stuckheight by a file each:
--   StuckHeight/RateLimiter, HeightMonitor, Snapshots and RecoveryPod. StuckHeight/Controller is
--   controllers/stuckheightrecovery_controller.go: each `handleX` is `handle_x`, the switch of
--   `Reconcile` is `dispatch`, and its child Writes has the API server and what is written to it.
--   VolSnapshot: api/v1alpha1/scheduledvolumesnapshot_types.go, and internal/volsnapshot by a file
--   each: VolSnapshot/Control is vol_snapshot_control.go, VolSnapshot/Scheduler is scheduler.go and
--   status.go, VolSnapshot/FullNode is fullnode_control.go. VolSnapshot/Controller is
--   controllers/scheduledvolumesnapshot_controller.go, with one function for each case of its switch.
--   StatefulJob: internal/statefuljob and api/v1alpha1/statefuljob_types.go; StatefulJob/Controller is
--   controllers/statefuljob_controller.go. It takes the most recent snapshot from Kube/VolumeSnapshot.
--   Cosmos: internal/cosmos. The root is status_collection.go with the fields of comet_client.go,
--   Cosmos/Collectors is status_collector.go, Cosmos/Cache is cache_controller.go, and
--   Cosmos/Cache/Processes the life of its goroutines, with its children Owners and Restarts.
--   Common/Slices is the Go slice that shares its array, in which the cache and its callers work.
--   FullNode: api/v1/cosmosfullnode_types.go and self_healing_types.go, as far as they are read, and
--   internal/fullnode by a file each: the root and FullNode/Ordinals have labels.go,
--   FullNode/Claims is pvc_builder.go,
--   FullNode/Claims/Sources and Control are pvc_control.go, FullNode/AutoScaler is pvc_auto_scaler.go,
--   FullNode/DiskUsages is pvc_disk_usage.go, FullNode/Drift is drift_detection.go and
--   FullNode/StatusClient is status_client.go. FullNode/SelfHealing is
--   controllers/selfhealing_controller.go, which takes Drift and AutoScaler. FullNode/Objects is
--   service_control.go, role_control.go, role_binding_control.go, service_account_control.go,
--   configmap_control.go and node_key_control.go; FullNode/Peers is peer_collector.go,
--   FullNode/Services is service_builder.go, FullNode/NodeKeys is node_key_builder.go, and FullNode/Pods
--   is build_pods.go with the choice of versions of pod_builder.go; FullNode/Pods/Layout, Commands, Probes
--   and Pruner are the rest of pod_builder.go, FullNode/Pods/Template its `podPatch` with BuildPods over
--   the layout, and FullNode/Pods/Stamps the checksums that config maps and pods share.
--   FullNode/Pods/Scripts is genesis.go, addrbook.go and snapshot.go, FullNode/Pods/Ports is ports.go,
--   FullNode/Roles is rbac_builder.go, and FullNode/ConfigMaps is configmap_builder.go, over the
--   tables of FullNode/Toml; ConfigMaps/Keys and Pods/Keys have the keys of what is built. FullNode/Controller is status.go and
--   controllers/cosmosfullnode_controller.go, over the results of those controls.
--   VersionCheck: cmd/versioncheck.go, which shares the versions and the heights of the status with
--   FullNode/Pods and FullNode/ConfigMaps; VersionCheck/Upgrade is the way of a pod through a check that
--   fails and a pod that is built again.
--   HealthCheck: internal/healthcheck; the client of CometBFT that it uses is Cosmos/CometClient.
--   Tests: runs of the definitions at concrete inputs.
--
-- State. A Go pointer that a handler mutates is a value that is passed along and returned. What a
-- reconcile sends to the API server is a list; what the API server answers is a record of functions,
-- so that a theorem about every reconcile is one about every sequence of answers. The clock is a
-- function from the number of a reading to its time. A Go
-- panic is a result of its own. A map is an association list with one entry for a key; where Go
-- leaves the order of an iteration open, the model takes the list's order. Goroutines are the steps
-- of a relation on a state: the collectors of the cache, and the callers of `SyncUpdate`.
--
-- Numbers. Heights, times and counts are naturals, the arithmetic of a rollout is on integers. No
-- wrap-around is modelled: the only counter that grows without a bound of its own, the attempts of
-- the rate limiter, is shown to stay within `maxRetries`, an int32. Loops are structural recursion;
-- the only fuel is that of the decimal digits in Common/Decimal, the number plus one, and a number
-- has no more digits than that.
--
-- Parameters, for code outside the repository: the FNV hash of an object's JSON (`hash`),
-- `intstr.GetScaledValueFromIntOrPercent` (`scaled_value`, and `percent_of` of a text),
-- `time.ParseDuration` (`parse_duration`), `resource.ParseQuantity` (`parse_quantity`), the shares
-- and percentages of floating point numbers (`share_of`, `percent_of`), the cron library
-- (`next_time`), the format of a time (`format_time`), `metav1.GetControllerOf`
-- (`get_controller_of`), HTTP and JSON with their parsers
-- (`fetch`, `http_do`, `status_url`, `get_disk`, `decode`), the ID of a node key
-- (`node_id`), a new one (`random_key`), `net.JoinHostPort` (`join_host_port`), `path.Join`
-- (`join_path`), the version that the build sets (`version`), `strategicpatch` (`merge_patch`), the
-- TOML library with the defaults of CometBFT and the SDK (`TomlTools`), `url.Parse` (`host_of`), the call of the
-- file system (`statfs`), the database of the node (`open_db`), and the API server (`Api`, `PodApi`, `ClaimApi`, `CheckApi`).
--
-- Not modelled: logging and events; the resources and security contexts of containers; the texts of the
-- scripts that are embedded; the command line with the server around the health check, and the wiring
-- of the controllers.
pub mod Common
pub mod Kube
pub mod Diff
pub mod PodControl
pub mod StuckHeight
pub mod VolSnapshot
pub mod StatefulJob
pub mod Cosmos
pub mod FullNode
pub mod VersionCheck
pub mod HealthCheck
pub mod Tests
