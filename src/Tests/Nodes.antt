-- ===== src/Tests/Nodes.antt =====
-- A full node with two instances: runs of its functions, and the properties at a concrete input.
use mathlib.Core.List.{Memᴰ}
use cosmos_operator.Common.{
  ℕ, ◌≤◌, ◌<◌, Text, txt, text_eq, text_Eq, nat_Eq, List, [], ◌∷◌, true, false, ◌≡◌, ◌⊎◌, refl,
  Option, none, some, lookup, insert, arith, ok, ℤ, pos, ◌-ℤ◌, ◌≤ℤ◌, length, format_nat, format_int,
  parse_uint,
}
use cosmos_operator.Kube.Client.{found, failed, ApiError, ignore_not_found, ignore_already_exists}
use cosmos_operator.Kube.Labels.{to_name, normalize_metadata}
use cosmos_operator.Kube.Meta.{ObjectMeta}
use cosmos_operator.Kube.Pod.{Pod, available_pods}
use cosmos_operator.Kube.Rollout.{IntOrString, string, or_default, at_least_one, compute_rollout}
use cosmos_operator.Kube.VolumeSnapshot.{VolumeSnapshot, recent_volume_snapshot}
use cosmos_operator.Diff.{Resource, object, revision}
use cosmos_operator.Cosmos.{StatusItem, synced, pods_of}
use cosmos_operator.FullNode.{
  ServiceOverrides, ServiceSpec, FullNode, FullNodeBody, FullNodeSpec, FullNodeStatus,
  ClaimTemplate, AutoDataSource, TypedReference, PvcAutoScaleSpec, PvcAutoScaleStatus,
  FullNodePhase, complete, instance_name, app_name,
}
use cosmos_operator.FullNode.Claims.{
  Claim, ClaimBody, DataSource, quantity_of, or_zero, scaled_size, pvc_resources, pvc_name,
  wanted_claim, build_pvc, raise_storage,
}
use cosmos_operator.FullNode.Claims.Sources.{ClaimApi}
use cosmos_operator.FullNode.Claims.Control.{
  Request, Session, Outcome, patch_claim, delete_claim, reconcile, returns,
}
use cosmos_operator.FullNode.Claims.Sizes.{build_pvc-source}
use cosmos_operator.FullNode.Claims.Deletion.{All, IsSafe, reconcile-AllSafe}
use cosmos_operator.FullNode.StatusClient.{
  here, later, initial, IsSynced, Reach-IsSynced, call, take, get, update, acquire, set_stage,
  release, write, waiting, loaded, System,
}
use cosmos_operator.FullNode.AutoScaler.{DiskUsage, signal_pvc_resize}
use cosmos_operator.FullNode.AutoScaler.Limits.{IsDue, signal_pvc_resize-IsDue, capped-exceeds}
use cosmos_operator.FullNode.Drift.{lagging_pods}
use cosmos_operator.FullNode.Drift.Lag.{IsBehind, lagging_pods-IsBehind}

abbrev no_overrides : ServiceOverrides
no_overrides = record {
  metadata = record { labels = []; annotations = [] };
  kind = none;
  external_traffic_policy = none;
}

abbrev services : ServiceSpec
services = record {
  max_p2p_external_addresses = none;
  p2p_template = no_overrides;
  rpc_template = no_overrides;
}

abbrev template : ClaimTemplate
template = record {
  metadata = record { labels = []; annotations = [] };
  storage_class_name = txt "ssd";
  requests = some ((txt "storage", 100) ∷ []);
  access_modes = [];
  volume_mode = none;
  data_source = none;
  auto_data_source =
      some
        (record { volume_snapshot_selector = (txt "app", txt "hub") ∷ []; match_instance = false });
}

abbrev spec : FullNodeSpec
spec = record {
  replicas = 1;
  kind = [];
  chain = record {
    chain_id = txt "hub-1";
    comet = record {
      persistent_peers = [];
      seeds = [];
      private_peer_ids = [];
      unconditional_peer_ids = [];
      max_inbound_peers = none;
      max_outbound_peers = none;
      cors_allowed_origins = none;
      toml_overrides = none;
    };
    app = record {
      min_gas_price = [];
      api_enable_unsafe_cors = false;
      grpc_web_enable_unsafe_cors = false;
      pruning = none;
      halt_height = none;
      toml_overrides = none;
    };
    binary = txt "gaiad";
    log_level = none;
    log_format = some (txt "json");
    skip_invariants = true;
    privval_sleep_seconds = none;
    database_backend = none;
    additional_init_args = [];
    additional_start_args = [];
    network = txt "main";
    home_dir = [];
    addrbook_url = none;
    addrbook_script = none;
    genesis_url = none;
    genesis_script = none;
    snapshot_url = none;
    snapshot_script = none;
    versions = [];
  };
  pod_metadata = record { labels = []; annotations = [] };
  probe_strategy = [];
  pod_containers = [];
  pod_init_containers = [];
  pod_volumes = [];
  image = txt "gaia:v9";
  max_unavailable = some (IntOrString.int (pos 1));
  volume_claim_template = template;
  retention_policy = none;
  service = services;
  instance_overrides = [];
  self_heal = none;
}

abbrev scaled : PvcAutoScaleStatus
scaled = record { requested_size = 300; requested_at = 5 }

abbrev status : FullNodeStatus
status = record {
  observed_generation = 1;
  phase = complete;
  status_message = none;
  scheduled_snapshot_status = [];
  pvc_auto_scale = some ((txt "pvc-hub-0", scaled) ∷ []);
  peers = [];
  sync_info = [];
  height = none;
}

abbrev meta_of : Text → ObjectMeta
meta_of name = record {
  namespace = txt "chains";
  name = name;
  resource_version = [];
  uid = [];
  generation = 1;
  owner_references = [];
  labels = [];
  annotations = [];
  deletion_timestamp = none;
}

abbrev node : FullNode
node = record { meta = meta_of (txt "hub"); body = record { spec = spec; status = status } }

abbrev snapshot_source : Text → TypedReference
snapshot_source name = record {
  api_group = some (txt "snapshot.storage.k8s.io");
  kind = txt "VolumeSnapshot";
  name = name;
}

-- A bound claim of 200, that was made of an older snapshot.
abbrev claim : Claim
claim = record {
  meta = meta_of (txt "pvc-hub-0");
  body = record {
    access_modes = [];
    requests = some ((txt "storage", 200) ∷ []);
    storage_class_name = txt "ssd";
    volume_mode = txt "Filesystem";
    data_source = some (snapshot_source (txt "monday"));
    phase = txt "Bound";
    capacity = (txt "storage", 200) ∷ [];
  };
}

abbrev tuesday : VolumeSnapshot
tuesday = record {
  name = txt "tuesday";
  namespace = txt "chains";
  labels = [];
  claim_name = txt "pvc-hub-0";
  class_name = txt "class";
  status =
      some (record { creation_time = some 9; ready_to_use = some true; restore_size = some 150 });
}

abbrev api : ClaimApi
api = record {
  list_claims = found (claim ∷ []);
  list_pods = found [];
  get_snapshot = λ name. failed ApiError.not_found;
  get_claim = λ name. failed ApiError.not_found;
  list_snapshots = λ selector. found (tuesday ∷ []);
  set_owner = λ c. none;
  create = λ c. none;
  delete = λ c. none;
}

abbrev hash : Claim → Text
hash c = format_nat (quantity_of c.body.requests)

-- The newer snapshot is smaller than the claim, which is asked to shrink although the auto scaler
-- wants 300.
abbrev sizes : List Request → List (Text × ℕ)
sizes [] = []
sizes (patch_claim m reqs ∷ qs) = (m.name, quantity_of reqs) ∷ sizes qs
sizes (_ ∷ qs) = sizes qs

reconcile-shrinks : sizes (reconcile api hash node).1.requests ≡ (txt "pvc-hub-0", 150) ∷ []
unfolding app_name build_pvc cosmos_operator.Common.key_eq cosmos_operator.Common.parse_int
    cosmos_operator.Diff.adopt cosmos_operator.Diff.adopt_object cosmos_operator.Diff.changed
    cosmos_operator.Diff.compute_creates cosmos_operator.Diff.compute_deletes
    cosmos_operator.Diff.compute_updates cosmos_operator.Diff.current_to_set
    cosmos_operator.Diff.insert_by_ordinal cosmos_operator.Diff.missing cosmos_operator.Diff.new
    cosmos_operator.Diff.ordinal cosmos_operator.Diff.sort_by_ordinal cosmos_operator.Diff.to_object
    cosmos_operator.Diff.to_objects cosmos_operator.Diff.to_set cosmos_operator.Diff.to_set_from
    cosmos_operator.FullNode.Claims.Control.apply_diff
    cosmos_operator.FullNode.Claims.Control.create_claims
    cosmos_operator.FullNode.Claims.Control.delete_claims
    cosmos_operator.FullNode.Claims.Control.delete_unless_retained
    cosmos_operator.FullNode.Claims.Control.patch_claims
    cosmos_operator.FullNode.Claims.Control.pvc_in_use
    cosmos_operator.FullNode.Claims.Control.should_retain
    cosmos_operator.FullNode.Claims.Control.update_claims
    cosmos_operator.FullNode.Claims.Sources.data_source_equal
    cosmos_operator.FullNode.Claims.Sources.find_auto
    cosmos_operator.FullNode.Claims.Sources.find_data_source
    cosmos_operator.FullNode.Claims.Sources.find_data_source_with_pvc_spec
    cosmos_operator.FullNode.Claims.Sources.find_referenced
    cosmos_operator.FullNode.Claims.Sources.find_sources cosmos_operator.FullNode.Claims.build_each
    cosmos_operator.FullNode.Claims.build_pvcs cosmos_operator.FullNode.Claims.claim_meta
    cosmos_operator.FullNode.Claims.kept_of cosmos_operator.FullNode.Claims.pvc_disabled
    cosmos_operator.FullNode.default_labels cosmos_operator.FullNode.preserve_merge_into
    cosmos_operator.Kube.Labels.normalize_pairs cosmos_operator.Kube.Labels.normalize_value
    cosmos_operator.Kube.Labels.to_label_key cosmos_operator.Kube.Labels.trim_left
    cosmos_operator.Kube.Labels.trim_middle cosmos_operator.Kube.Labels.trim_right
    cosmos_operator.Kube.Pod.parse_image_version cosmos_operator.Kube.VolumeSnapshot.insert_newest
    cosmos_operator.Kube.VolumeSnapshot.sort_newest format_int format_nat ignore_already_exists
    ignore_not_found insert instance_name lookup normalize_metadata object parse_uint pvc_name
    pvc_resources raise_storage recent_volume_snapshot reconcile revision text_eq to_name
    wanted_claim
reconcile-shrinks = refl

reconcile-AllSafe_example : All (IsSafe api node) (reconcile api hash node).1.requests
reconcile-AllSafe_example = reconcile-AllSafe api hash node

abbrev source : DataSource
source = record { reference = some (snapshot_source (txt "tuesday")); size = 150 }

sourced_claim :
    (r : Resource ClaimBody) × (build_pvc hash node (some source) (some claim) 0 ≡ ok r)
    × ((object r).body.data_source ≡ source.reference)
    × (quantity_of (object r).body.requests ≡ 150)
    × (revision r
        ≡ hash
            (wanted_claim node 0 (some (insert (txt "storage") 150 ((txt "storage", 100) ∷ [])))))
sourced_claim = build_pvc-source hash node source (some claim) 0 refl

grown : pvc_resources node (txt "pvc-hub-0") none 200 ≡ ok (some ((txt "storage", 306) ∷ []))
unfolding pvc_resources raise_storage lookup insert text_eq
grown = refl

scaled_entry : lookup (txt "pvc-hub-0") ((txt "pvc-hub-0", scaled) ∷ []) ≡ some scaled
unfolding lookup text_eq
scaled_entry = refl

capped-exceeds_example : 300 < quantity_of (some ((txt "storage", 306) ∷ []))
capped-exceeds_example =
    capped-exceeds node (txt "pvc-hub-0") 200 refl scaled_entry (omega arith) grown

abbrev restart : FullNodeStatus → FullNodeStatus
restart st = record st { phase = FullNodePhase.progressing }

abbrev called : System
called = set_stage 0 (waiting restart) (initial status)

abbrev taken : System
taken = acquire 0 restart called

abbrev read : System
read = set_stage 0 (loaded restart status 1) taken

Reach-IsSynced_example : IsSynced status (release 0 (write restart status read))
Reach-IsSynced_example = Reach-IsSynced status (
    later
      (later
        (later (later here (call (initial status) 0 restart refl))
          (take called 0 restart refl refl))
        (get taken 0 restart status 1 refl (omega arith) (λ e. refl)))
      (update read 0 restart status refl))

abbrev scale : PvcAutoScaleSpec
scale = record { used_space_percentage = 80; increase_quantity = txt "20%"; max_size = 0 }

abbrev full : DiskUsage
full = record { name = txt "pvc-hub-0"; percent_used = pos 90; capacity = 100000000000 }

abbrev due : PvcAutoScaleStatus
due = record { requested_size = 200000000000; requested_at = 7 }

signalled :
    lookup
      (txt "pvc-hub-0")
      (signal_pvc_resize (λ t. some 20) (λ t. none) (λ n p. 1) 7 scale status (full ∷ [])).0
    ≡ some due
unfolding available_pods compute_rollout cosmos_operator.Cosmos.latest_block_height_of
    cosmos_operator.Kube.Rollout.rollout_target insert lagging_pods lookup parse_uint
    signal_pvc_resize synced text_eq
signalled = refl

signal_pvc_resize-IsDue_example :
    (u : DiskUsage) × Memᴰ u (full ∷ []) × (u.name ≡ txt "pvc-hub-0") × IsDue scale u 200000000000
signal_pvc_resize-IsDue_example =
    signal_pvc_resize-IsDue (λ t. some 20) (λ t. none) (λ n p. 1) 7 scale status (full ∷ [])
      (txt "pvc-hub-0") due signalled

abbrev item : Text → Text → StatusItem
item name height = record {
  pod = record {
    meta = meta_of name;
    body = record {
      containers = [];
      init_containers = [];
      volumes = [];
      conditions =
          record { kind = txt "Ready"; status = txt "True"; last_transition_time = 1 } ∷ [];
      pod_ip = [];
    };
  };
  status = record { latest_block_height = height; catching_up = false };
  timestamp = 1;
  error = none;
}

abbrev ahead : StatusItem
ahead = item (txt "hub-0") (txt "20")

abbrev slow : StatusItem
slow = item (txt "hub-1") (txt "9")

abbrev scaled_value : IntOrString → ℤ → Option ℤ
scaled_value v total = some (pos 1)

abbrev pair : FullNode
pair = record node { body = record { spec = record spec { replicas = 2 }; status = status } }

lagging : lagging_pods scaled_value 9000000000 pair 10 (ahead ∷ slow ∷ []) ≡ ok (slow.pod ∷ [])
unfolding available_pods compute_rollout cosmos_operator.Cosmos.latest_block_height_of
    cosmos_operator.Kube.Rollout.rollout_target lagging_pods parse_uint synced text_eq
lagging = refl

lagging_pods-IsBehind_example :
    let ready =
      length (available_pods (pods_of (synced (ahead ∷ slow ∷ []))) 5000000000 9000000000) in
    ((p : Pod) → Memᴰ p (slow.pod ∷ []) → IsBehind 10 (ahead ∷ slow ∷ []) p)
    × ((length (slow.pod ∷ []) ≡ 0) ⊎ (pos 2 -ℤ at_least_one (pos 1) ≤ℤ pos ready -ℤ pos 1))
lagging_pods-IsBehind_example =
    lagging_pods-IsBehind scaled_value 9000000000 pair 10 (ahead ∷ slow ∷ []) lagging (omega arith)
      refl
