-- ===== src/FullNode/ConfigMaps.antt =====
-- internal/fullnode/configmap_builder.go: the config maps of a full node's instances. The TOML library,
-- mergemap and the two embedded default files are the record `TomlTools`.
pub mod Keys
pub mod Halts
pub mod Peerings
pub mod Errors
use cosmos_operator.Common.{
  ℕ, ℤ, pos, Text, txt, text_eq, text_Eq, List, [], ◌∷◌, ◌++◌, not, Bool, true, false, Option, none,
  some, lookup, insert, is_some, select, ltb, format_nat, if◌then◌else◌,
}
use cosmos_operator.Kube.Client.{Answer, found, failed}
use cosmos_operator.Kube.Labels.{normalize_metadata}
use cosmos_operator.Kube.Meta.{Object}
use cosmos_operator.Diff.{Resource, adapted}
use cosmos_operator.FullNode.{
  ChainVersion, CometConfig, Pruning, SdkAppConfig, ChainSpec, InstanceOverride, FullNode,
  instance_name, instance_label, default_labels, set_labels, ordinals, new_meta,
}
use cosmos_operator.FullNode.Peers.{Peer, Peers, get_peer, except, node_ids, all_private}
use cosmos_operator.FullNode.Pods.{height_in}
use cosmos_operator.FullNode.Pods.Commands.{join}
use cosmos_operator.FullNode.Services.{is_sentry}
use cosmos_operator.FullNode.Toml.{Toml, string, number, boolean, strings, table, Table, end, put}

-- The decoded defaults, `mergemap.Merge` of a table into another, and the decoder and the encoder.
pub record TomlTools : Type 0 where
  pub default_comet : Table
  pub default_app : Table
  pub merge : Table → Table → Table
  pub decode : Text → Answer Table
  pub encode : Table → Answer Text

pub record ConfigMapBody : Type 0 where
  pub contents : List (Text × Text)

abbrev pub ConfigMap : Type 0
ConfigMap = Object ConfigMapBody

-- A key in its two spellings.
abbrev pub put_both : Text → Text → Toml → Table → Table
put_both under dashed v t = put dashed v (put under v t)

abbrev pub put_some {ℓ} : {A : Type ℓ} → (A → Toml) → Text → Text → Option A → Table → Table
put_some f under dashed none t = t
put_some f under dashed (some v) t = put_both under dashed (f v) t

abbrev pub put_text : Text → Text → Text → Table → Table
put_text under dashed v t = if text_eq v [] then t else put_both under dashed (string v) t

unfoldable pub comma_delimited : List Text → Text
comma_delimited ts = join (txt ",") (select (λ t. not (text_eq t [])) ts)

abbrev pub external_of : Option InstanceOverride → Option Text
external_of none = none
external_of (some o) = o.external_address

-- The external address of an instance: of its override, or of its peer.
abbrev pub put_external : Option Text → Text → Table → Table
put_external (some address) peer t =
    put_both (txt "external_address") (txt "external-address") (string address) t
put_external none peer t = put_text (txt "external_address") (txt "external-address") peer t

-- The table `p2p`, from the private addresses and node IDs of the other peers.
unfoldable pub p2p_table : CometConfig → List Text → List Text → Option Text → Text → Table
unfolding comma_delimited
p2p_table comet others ids override address =
    let persistent = comma_delimited (comma_delimited others ∷ comet.persistent_peers ∷ []) in
    let private_ids = comma_delimited (comma_delimited ids ∷ comet.private_peer_ids ∷ []) in
    let unconditional = comma_delimited (comma_delimited ids ∷ comet.unconditional_peer_ids ∷ []) in
    let t =
      put (txt "seeds") (string comet.seeds)
        (put_both (txt "persistent_peers") (txt "persistent-peers") (string persistent) end) in
    let t = put_text (txt "private_peer_ids") (txt "private-peer-ids") private_ids t in
    let t =
      put_text (txt "unconditional_peer_ids") (txt "unconditional-peer-ids") unconditional t in
    let t =
      put_some number (txt "max_num_inbound_peers") (txt "max-num-inbound-peers")
        comet.max_inbound_peers t in
    let t =
      put_some number (txt "max_num_outbound_peers") (txt "max-num-outbound-peers")
        comet.max_outbound_peers t in
    put_external override address t

-- What is set for a sentry.
abbrev pub sentry_table : FullNode → Table
sentry_table crd =
    if is_sentry crd
    then put_both (txt "tx_index") (txt "tx-index")
        (table (put (txt "indexer") (string (txt "null")) end))
        (put_both (txt "priv_validator_laddr") (txt "priv-validator-laddr")
          (string (txt "tcp://0.0.0.0:1234")) end)
    else end

abbrev pub put_cors : Option (List Text) → Table → Table
put_cors none t = t
put_cors (some v) t =
    put (txt "rpc")
      (table (put_both (txt "cors_allowed_origins") (txt "cors-allowed-origins") (strings v) end)) t

-- The table that `addConfigToml` merges into the default.
unfoldable pub comet_table : FullNode → Text → Peers → Table
unfolding p2p_table
comet_table crd instance_ peers =
    let spec = crd.body.spec.chain in
    let others = except instance_ crd.meta.namespace peers in
    let override = external_of (lookup instance_ crd.body.spec.instance_overrides) in
    let address = (get_peer instance_ crd.meta.namespace peers).external_address in
    let base =
      put_some string (txt "log_format") (txt "log-format") spec.log_format
        (put_some string (txt "log_level") (txt "log-level") spec.log_level (sentry_table crd)) in
    put_cors spec.comet.cors_allowed_origins (
      put (txt "p2p")
        (table (p2p_table spec.comet (all_private others) (node_ids others) override address)) base)

abbrev pub number_or_zero : Option ℕ → ℕ
number_or_zero none = 0
number_or_zero (some n) = n

abbrev pub put_pruning : Option Pruning → Table → Table
put_pruning none t = t
put_pruning (some p) t =
    put (txt "min-retain-blocks") (number (pos (number_or_zero p.min_retain_blocks))) (
      put (txt "pruning-keep-recent") (string (format_nat (number_or_zero p.keep_recent))) (
        put (txt "pruning-keep-every") (string (format_nat (number_or_zero p.keep_every))) (
          put (txt "pruning-interval") (string (format_nat (number_or_zero p.interval)))
            (put (txt "pruning") (string p.strategy) t))))

abbrev pub put_halt : Option ℕ → Table → Table
put_halt none t = t
put_halt (some h) t = put (txt "halt-height") (number (pos h)) t

-- The table that `addAppToml` merges into the default.
unfoldable pub app_table : SdkAppConfig → Table
app_table app = put_pruning app.pruning (
    put_halt app.halt_height (
      put (txt "grpc-web")
        (table (put (txt "enable-unsafe-cors") (boolean app.grpc_web_enable_unsafe_cors) end))
        (put (txt "api")
          (table (put (txt "enabled-unsafe-cors") (boolean app.api_enable_unsafe_cors) end))
          (put (txt "minimum-gas-prices") (string app.min_gas_price) end))))

-- The loop over the versions: it ends at the first one whose upgrade is to come, and after the last one
-- nothing halts.
unfoldable pub halt_height : List ChainVersion → ℕ → ℕ
halt_height [] h = 0
halt_height (v ∷ vs) h =
    let halt = if v.set_halt_height then v.upgrade_height else 0 in
    let rest = halt_height vs h in if ltb h v.upgrade_height then halt else rest

-- The configuration with the halt height, where there are versions.
unfoldable pub with_halt : List ChainVersion → ℕ → SdkAppConfig → SdkAppConfig
unfolding halt_height
with_halt [] h app = app
with_halt (v ∷ vs) h app = record app { halt_height = some (halt_height (v ∷ vs) h) }

abbrev pub app_config : FullNode → Text → SdkAppConfig
app_config crd instance_ =
    with_halt crd.body.spec.chain.versions
      (number_or_zero (height_in crd.body.status.height instance_)) crd.body.spec.chain.app

module _ (tools : TomlTools) where
  abbrev pub merge_decoded : Table → Answer Table → Answer Table
  merge_decoded t (failed e) = failed e
  merge_decoded t (found decoded) = found (tools.merge t decoded)

  -- The overrides of the user merged into a table.
  abbrev pub merge_overrides : Option Text → Table → Answer Table
  merge_overrides none t = found t
  merge_overrides (some overrides) t = merge_decoded t (tools.decode overrides)

  abbrev pub encode_merged : Answer Table → Answer Text
  encode_merged (failed e) = failed e
  encode_merged (found t) = tools.encode t

  -- A file of a config map: a table over its default, with the overrides, encoded.
  unfoldable pub encode_file : Table → Table → Option Text → Answer Text
  encode_file defaults base overrides =
      encode_merged (merge_overrides overrides (tools.merge defaults base))

  abbrev pub put_file : Text → List (Text × Text) → Answer Text → Answer (List (Text × Text))
  put_file name contents (failed e) = failed e
  put_file name contents (found text) = found (insert name text contents)

  unfoldable pub add_config_toml :
      List (Text × Text) → FullNode → Text → Peers → Answer (List (Text × Text))
  unfolding comet_table encode_file
  add_config_toml contents crd instance_ peers = put_file (txt "config-overlay.toml") contents (
      encode_file tools.default_comet (comet_table crd instance_ peers)
        crd.body.spec.chain.comet.toml_overrides)

  unfoldable pub add_app_toml : List (Text × Text) → SdkAppConfig → Answer (List (Text × Text))
  unfolding app_table encode_file
  add_app_toml contents app =
      put_file (txt "app-overlay.toml") contents
        (encode_file tools.default_app (app_table app) app.toml_overrides)

  abbrev pub add_app_to : Answer (List (Text × Text)) → SdkAppConfig → Answer (List (Text × Text))
  add_app_to (failed e) app = failed e
  add_app_to (found contents) app = add_app_toml contents app

  -- The files of an instance.
  unfoldable pub config_files : FullNode → Text → Peers → Answer (List (Text × Text))
  unfolding add_config_toml add_app_toml with_halt
  config_files crd instance_ peers =
      add_app_to (add_config_toml [] crd instance_ peers) (app_config crd instance_)

  abbrev pub config_map : FullNode → ℕ → List (Text × Text) → ConfigMap
  config_map crd i contents = record {
    meta = normalize_metadata (
        new_meta crd.meta.namespace (instance_name crd i)
          (set_labels ((instance_label, instance_name crd i) ∷ []) (default_labels crd)) []);
    body = record { contents = contents };
  }

  module _ (hash : ConfigMap → Text) (crd : FullNode) (peers : Peers) where
    abbrev pub add_config_map :
        ℕ
        → Answer (List (Text × Text))
        → Answer (List (Resource ConfigMapBody))
        → Answer (List (Resource ConfigMapBody))
    add_config_map i (failed e) rest = failed e
    add_config_map i (found contents) (failed e) = failed e
    add_config_map i (found contents) (found rs) =
        let cm = config_map crd i contents in found (adapted cm (pos i) (hash cm) ∷ rs)

    unfoldable pub build_each : List ℕ → Answer (List (Resource ConfigMapBody))
    unfolding config_files
    build_each [] = found []
    build_each (i ∷ is) =
        add_config_map i (config_files crd (instance_name crd i) peers) (build_each is)

    unfoldable pub build_config_maps : Answer (List (Resource ConfigMapBody))
    unfolding build_each
    build_config_maps = build_each (ordinals crd)
