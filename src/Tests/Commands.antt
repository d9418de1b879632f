-- ===== src/Tests/Commands.antt =====
-- How the node of a full node starts, at a concrete input.
use cosmos_operator.Common.{
  false, map, any, text_eq, panic, txt, text_Eq, [], ◌∷◌, ◌≡◌, refl, true, none, some, pos,
}
use cosmos_operator.FullNode.{ChainSpec}
use cosmos_operator.FullNode.Pods.Commands.{init_command, version_check_sidecar, privval_sleep}
use cosmos_operator.FullNode.Pods.Scripts.{download_snapshot_command}
use cosmos_operator.FullNode.Pods.Ports.{build_ports}
use cosmos_operator.FullNode.Services.{rpc_ports}

abbrev gaia : ChainSpec
gaia = record {
  chain_id = txt "hub-1";
  comet = record {
    persistent_peers = [];
    seeds = [];
    private_peer_ids = [];
    unconditional_peer_ids = [];
    max_inbound_peers = none;
    max_outbound_peers = none;
    cors_allowed_origins = none;
    toml_overrides = none;
  };
  app = record {
    min_gas_price = [];
    api_enable_unsafe_cors = false;
    grpc_web_enable_unsafe_cors = false;
    pruning = none;
    halt_height = none;
    toml_overrides = none;
  };
  network = txt "main";
  binary = txt "gaiad";
  home_dir = [];
  log_level = none;
  log_format = some (txt "json");
  skip_invariants = true;
  privval_sleep_seconds = none;
  database_backend = some (txt "rocksdb");
  additional_init_args = txt "--x" ∷ [];
  additional_start_args = [];
  addrbook_url = none;
  addrbook_script = none;
  genesis_url = none;
  genesis_script = none;
  snapshot_url = none;
  snapshot_script = none;
  versions = [];
}

gaia_init : init_command gaia (txt "gaia-0") ≡ txt "gaiad init --chain-id hub-1 gaia-0 --x"
gaia_init = refl

gaia_check :
    version_check_sidecar gaia
    ≡ txt "/manager" ∷ txt "versioncheck" ∷ txt "-d" ∷ txt "-b" ∷ txt "rocksdb" ∷ []
gaia_check = refl

gaia_sleep : privval_sleep gaia ≡ pos 10
gaia_sleep = refl

-- The ports that the RPC service forwards to are named by the container, whatever its kind.
rpc_ports_named :
    map (λ p. any (λ c. text_eq c.name p.target_port) (build_ports (txt "Sentry"))) rpc_ports
    ≡ map (λ p. true) rpc_ports
unfolding build_ports text_eq
rpc_ports_named = refl

default_ports_named :
    map (λ p. any (λ c. text_eq c.name p.target_port) (build_ports [])) rpc_ports
    ≡ map (λ p. true) rpc_ports
unfolding build_ports text_eq
default_ports_named = refl

no_snapshot : download_snapshot_command (txt "fetch") gaia ≡ panic
unfolding download_snapshot_command
no_snapshot = refl
