-- ===== src/Tests/Reconciles.antt =====
-- The parts of a reconcile of a full node on small inputs: runs, and the properties at a concrete input.
use mathlib.Core.List.{Memᴰ}
use cosmos_operator.Common.{
  ℕ, Text, txt, text_eq, text_Eq, key_Eq, List, [], ◌∷◌, Bool, true, false, ◌≡◌, ◌↔◌, refl, none,
  some, lookup, insert, any, inl, if◌then◌else◌, ObjectKey,
}
use cosmos_operator.Kube.Client.{ApiError, Answer, found, failed}
use cosmos_operator.Kube.Meta.{ObjectMeta}
use cosmos_operator.Kube.Pod.{Pod}
use cosmos_operator.Diff.{object, Resource}
use cosmos_operator.PodControl.{SyncInfo}
use cosmos_operator.FullNode.{
  ServiceOverrides, ServiceSpec, FullNode, FullNodeStatus, ClaimTemplate, ChainVersion, complete,
}
use cosmos_operator.FullNode.NodeKeys.{Secret, SecretBody, build_node_key_secrets}
use cosmos_operator.FullNode.NodeKeys.Reuse.{AllKeep, build_node_key_secrets-AllKeep}
use cosmos_operator.FullNode.Objects.{ObjectApi, reconcile_config_maps}
use cosmos_operator.FullNode.Peers.{Peer, Peers, all_external, sort_texts, external_peer}
use cosmos_operator.FullNode.Pods.{find_version, set_first_image, build_pods}
use cosmos_operator.FullNode.Pods.Versions.{IsBest, find_version-IsBest}
use cosmos_operator.FullNode.Pods.Checksums.{AllUnstamped, failed_config-AllUnstamped}
use cosmos_operator.FullNode.Controller.{Parts, run_parts, conclude, update_status, put_heights}
use cosmos_operator.FullNode.Controller.Phases.{IsDone, run_parts-complete_iff, entry_of}

abbrev version : ℕ → Text → ChainVersion
version h image = record {
  upgrade_height = h;
  set_halt_height = false;
  image = image;
  init_containers = [];
  containers = [];
}

abbrev versions : List ChainVersion
versions = version 0 (txt "v1") ∷ version 90 (txt "v3") ∷ version 40 (txt "v2") ∷ []

find_version-middle : find_version versions 50 ≡ some (version 40 (txt "v2"))
unfolding find_version
find_version-middle = refl

find_version-IsBest_example : IsBest (λ w. Memᴰ w versions) 50 (find_version versions 50)
find_version-IsBest_example = find_version-IsBest versions 50

main_image :
    set_first_image (txt "node") (txt "v2") (record { name = txt "node"; image = txt "v1" } ∷ [])
    ≡ record { name = txt "node"; image = txt "v2" } ∷ []
unfolding set_first_image text_eq
main_image = refl

abbrev peer : Text → Text → Bool → Peer
peer id address external = record {
  node_id = id;
  private_address = txt "svc";
  external_address = address;
  has_external_address = external;
}

abbrev key : Text → ObjectKey
key name = record { namespace = txt "chains"; name = name }

abbrev peers : Peers
peers =
    (key (txt "hub-0"), peer (txt "b") [] false)
    ∷ (key (txt "hub-1"), peer (txt "a") (txt "1.2.3.4:26656") true)
    ∷ []

all_external-sorted : all_external peers ≡ txt "a@1.2.3.4:26656" ∷ txt "b@0.0.0.0:26656" ∷ []
unfolding all_external sort_texts external_peer text_eq
all_external-sorted = refl

abbrev no_overrides : ServiceOverrides
no_overrides = record {
  metadata = record { labels = []; annotations = [] };
  kind = none;
  external_traffic_policy = none;
}

abbrev services : ServiceSpec
services = record {
  max_p2p_external_addresses = none;
  p2p_template = no_overrides;
  rpc_template = no_overrides;
}

abbrev template : ClaimTemplate
template = record {
  metadata = record { labels = []; annotations = [] };
  storage_class_name = [];
  requests = none;
  access_modes = [];
  volume_mode = none;
  data_source = none;
  auto_data_source = none;
}

abbrev status : FullNodeStatus
status = record {
  observed_generation = 1;
  phase = complete;
  status_message = none;
  scheduled_snapshot_status = [];
  pvc_auto_scale = some ((txt "pvc-hub-0", record { requested_size = 3; requested_at = 5 }) ∷ []);
  peers = [];
  sync_info = [];
  height = some ((txt "hub-0", 7) ∷ []);
}

abbrev meta_of : Text → ObjectMeta
meta_of name = record {
  namespace = txt "chains";
  name = name;
  resource_version = [];
  uid = [];
  generation = 1;
  owner_references = [];
  labels = [];
  annotations = [];
  deletion_timestamp = none;
}

abbrev pub node : FullNode
node = record {
  meta = meta_of (txt "hub");
  body = record {
    spec = record {
      replicas = 1;
      kind = [];
      chain = record {
        chain_id = txt "hub-1";
        comet = record {
          persistent_peers = [];
          seeds = [];
          private_peer_ids = [];
          unconditional_peer_ids = [];
          max_inbound_peers = none;
          max_outbound_peers = none;
          cors_allowed_origins = none;
          toml_overrides = none;
        };
        app = record {
          min_gas_price = [];
          api_enable_unsafe_cors = false;
          grpc_web_enable_unsafe_cors = false;
          pruning = none;
          halt_height = none;
          toml_overrides = none;
        };
        binary = txt "gaiad";
        log_level = none;
        log_format = some (txt "json");
        skip_invariants = true;
        privval_sleep_seconds = none;
        database_backend = none;
        additional_init_args = [];
        additional_start_args = [];
        network = [];
        home_dir = [];
        addrbook_url = none;
        addrbook_script = none;
        genesis_url = none;
        genesis_script = none;
        snapshot_url = none;
        snapshot_script = none;
        versions = versions;
      };
      pod_metadata = record { labels = []; annotations = [] };
      probe_strategy = [];
      pod_containers = [];
      pod_init_containers = [];
      pod_volumes = [];
      image = txt "v1";
      max_unavailable = none;
      volume_claim_template = template;
      retention_policy = none;
      service = services;
      instance_overrides = [];
      self_heal = none;
    };
    status = status;
  };
}

abbrev pub pod : Pod
pod = record {
  meta = meta_of (txt "hub-0");
  body = record {
    containers = record { name = txt "node"; image = txt "v1" } ∷ [];
    init_containers = [];
    volumes = [];
    conditions = [];
    pod_ip = [];
  };
}

abbrev unreachable : ObjectApi ℕ
unreachable = record {
  list = failed (ApiError.other (txt "timeout"));
  set_owner = λ o. none;
  create = λ o. none;
  update = λ o. none;
  delete = λ o. none;
}

abbrev made : {B : Type 0} → Answer (List (Resource B)) → List (Resource B)
made (found rs) = rs
made (failed e) = []

built :
    build_pods (λ p. []) (λ i. found pod) node []
    ≡ found (made (build_pods (λ p. []) (λ i. found pod) node []))
unfolding build_pods lookup
built = refl

failed_config-AllUnstamped_example :
    AllUnstamped (made (build_pods (λ p. []) (λ i. found pod) node []))
unfolding reconcile_config_maps
failed_config-AllUnstamped_example =
    failed_config-AllUnstamped unreachable (found []) (λ p. []) (λ i. found pod) node refl built

abbrev parts : Parts
parts = record {
  services = none;
  node_keys = none;
  peers = inl peers;
  config_maps = λ ps. ([], none);
  service_accounts = none;
  cluster_roles = none;
  cluster_role_bindings = none;
  pods = λ cksums info. record { requeue = false; error = none; sync_info = info };
  claims = record { requeue = true; error = none; deleted = [] };
}

run_parts-complete_iff_example :
    ((conclude [] (run_parts parts [])).phase ≡ complete) ↔ IsDone parts []
run_parts-complete_iff_example = run_parts-complete_iff [] parts []

abbrev info : SyncInfo
info =
    (txt "hub-0", record { timestamp = 1; height = some 9; in_sync = some true; error = none }) ∷ []

height_after : entry_of (txt "hub-0") (update_status status info [] status).height ≡ some 10
unfolding update_status put_heights lookup insert text_eq
height_after = refl

abbrev key_of : ℕ → Answer Text
key_of i = found (txt "new")

abbrev old_secret : Secret
old_secret = record {
  meta = meta_of (txt "hub-node-key-0");
  body = record {
    contents = (txt "node_key.json", txt "old") ∷ [];
    immutable = true;
    kind = txt "Opaque";
  };
}

abbrev secrets : List (Resource SecretBody)
secrets = made (build_node_key_secrets key_of (λ s. []) (old_secret ∷ []) node)

abbrev contents_of : List (Resource SecretBody) → List (List (Text × Text))
contents_of [] = []
contents_of (r ∷ rs) = (object r).body.contents ∷ contents_of rs

secrets_built : build_node_key_secrets key_of (λ s. []) (old_secret ∷ []) node ≡ found secrets
unfolding build_node_key_secrets cosmos_operator.Common.format_nat
    cosmos_operator.FullNode.NodeKeys.node_key_secret_name cosmos_operator.FullNode.app_name
    cosmos_operator.Kube.Labels.to_name lookup object text_eq
secrets_built = refl

key_reused : contents_of secrets ≡ ((txt "node_key.json", txt "old") ∷ []) ∷ []
unfolding build_node_key_secrets cosmos_operator.Common.format_nat
    cosmos_operator.FullNode.NodeKeys.node_key_secret_name cosmos_operator.FullNode.app_name
    cosmos_operator.Kube.Labels.to_name lookup object text_eq
key_reused = refl

build_node_key_secrets-AllKeep_example : AllKeep (old_secret ∷ []) node (0 ∷ []) secrets
build_node_key_secrets-AllKeep_example =
    build_node_key_secrets-AllKeep key_of (λ s. []) (old_secret ∷ []) node secrets_built
