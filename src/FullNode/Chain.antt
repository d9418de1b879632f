-- ===== src/FullNode/Chain.antt =====
-- The chain of a full node in api/v1/cosmosfullnode_types.go: its versions, and the configuration of
-- CometBFT and of the application.
use cosmos_operator.Common.{ℤ, ℕ, Text, List, Bool, Option}

pub record ChainVersion : Type 0 where
  pub upgrade_height : ℕ
  pub image : Text
  pub init_containers : List (Text × Text)
  pub containers : List (Text × Text)
  pub set_halt_height : Bool

pub record CometConfig : Type 0 where
  pub persistent_peers : Text
  pub seeds : Text
  pub private_peer_ids : Text
  pub unconditional_peer_ids : Text
  pub max_inbound_peers : Option ℤ
  pub max_outbound_peers : Option ℤ
  pub cors_allowed_origins : Option (List Text)  -- `none` for a nil slice
  pub toml_overrides : Option Text

pub record Pruning : Type 0 where
  pub strategy : Text
  pub interval : Option ℕ
  pub keep_every : Option ℕ
  pub keep_recent : Option ℕ
  pub min_retain_blocks : Option ℕ

pub record SdkAppConfig : Type 0 where
  pub min_gas_price : Text
  pub api_enable_unsafe_cors : Bool
  pub grpc_web_enable_unsafe_cors : Bool
  pub pruning : Option Pruning
  pub halt_height : Option ℕ
  pub toml_overrides : Option Text

pub record ChainSpec : Type 0 where
  pub chain_id : Text
  pub network : Text
  pub binary : Text
  pub home_dir : Text
  pub comet : CometConfig
  pub app : SdkAppConfig
  pub log_level : Option Text
  pub log_format : Option Text
  pub skip_invariants : Bool
  pub privval_sleep_seconds : Option ℤ
  pub database_backend : Option Text
  pub additional_init_args : List Text
  pub additional_start_args : List Text
  pub addrbook_url : Option Text
  pub addrbook_script : Option Text
  pub genesis_url : Option Text
  pub genesis_script : Option Text
  pub snapshot_url : Option Text
  pub snapshot_script : Option Text
  pub versions : List ChainVersion
