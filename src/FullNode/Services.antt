-- ===== src/FullNode/Services.antt =====
-- internal/fullnode/service_builder.go: the services that a full node wants, with the ports of ports.go.
pub mod Counts
use cosmos_operator.Common.{
  ℕ, ◌+◌, ◌*◌, Text, txt, text_eq, List, [], ◌∷◌, ◌++◌, map, Bool, true, false, Option, none, some,
  format_nat, ltb, leb, pos, length, if◌then◌else◌, min,
}
use cosmos_operator.Kube.Labels.{component_label, normalize_metadata}
use cosmos_operator.Kube.Meta.{ObjectMeta, Object}
use cosmos_operator.Diff.{Resource, adapted}
use cosmos_operator.FullNode.{
  Metadata, ServiceOverrides, ServiceSpec, FullNode, FullNodeBody, FullNodeSpec, app_name,
  instance_name, instance_label, default_labels, set_labels, preserve_merge_into, ordinals,
  new_meta,
}

pub record ServicePort : Type 0 where
  pub name : Text
  pub port : ℕ
  pub target_port : Text

pub record ServiceBody : Type 0 where
  pub ports : List ServicePort
  pub selector : List (Text × Text)
  pub kind : Text
  pub external_traffic_policy : Text
  pub publish_not_ready_addresses : Bool

abbrev pub Service : Type 0
Service = Object ServiceBody

abbrev pub cluster_ip : Text
cluster_ip = txt "ClusterIP"

abbrev pub load_balancer : Text
load_balancer = txt "LoadBalancer"

abbrev pub value_or : Option Text → Text → Text
value_or none d = d
value_or (some v) d = v

abbrev pub max_or_default : Option ℕ → ℕ
max_or_default none = 1
max_or_default (some n) = n

-- `lo.Clamp(max, 0, replicas)`.
unfoldable pub max_external : FullNode → ℕ
max_external crd =
    min (max_or_default crd.body.spec.service.max_p2p_external_addresses) crd.body.spec.replicas

unfoldable pub p2p_service_name : FullNode → ℕ → Text
p2p_service_name crd i = app_name crd ++ (txt "-p2p-" ++ format_nat i)

unfoldable pub sentry_service_name : FullNode → ℕ → Text
sentry_service_name crd i = app_name crd ++ (txt "-sentry-" ++ format_nat i)

unfoldable pub rpc_service_name : FullNode → Text
rpc_service_name crd = app_name crd ++ txt "-rpc"

abbrev pub is_sentry : FullNode → Bool
is_sentry crd = text_eq crd.body.spec.kind (txt "Sentry")

abbrev pub same_port : Text → ℕ → ServicePort
same_port name port = record { name = name; port = port; target_port = name }

-- The labels of the service of an instance.
abbrev pub instance_labels : FullNode → ℕ → Text → List (Text × Text)
instance_labels crd i component =
    set_labels ((instance_label, instance_name crd i) ∷ (component_label, component) ∷ [])
      (default_labels crd)

abbrev pub instance_selector : FullNode → ℕ → List (Text × Text)
instance_selector crd i = (instance_label, instance_name crd i) ∷ []

-- A round of the first loop of `BuildServices`.
unfoldable pub p2p_service : FullNode → ℕ → Service
unfolding max_external
p2p_service crd i =
    let tpl = crd.body.spec.service.p2p_template in
    let labels = instance_labels crd i (txt "p2p") in
    let ports = same_port (txt "p2p") 26656 ∷ [] in
    if ltb i (max_external crd)
    then record {
      meta =
          new_meta crd.meta.namespace (p2p_service_name crd i)
            (preserve_merge_into labels tpl.metadata.labels)
            (preserve_merge_into [] tpl.metadata.annotations);
      body = record {
        ports = ports;
        selector = instance_selector crd i;
        kind = value_or tpl.kind load_balancer;
        external_traffic_policy = value_or tpl.external_traffic_policy (txt "Local");
        publish_not_ready_addresses = false;
      };
    }
    else record {
      meta = new_meta crd.meta.namespace (p2p_service_name crd i) labels [];
      body = record {
        ports = ports;
        selector = instance_selector crd i;
        kind = cluster_ip;
        external_traffic_policy = [];
        publish_not_ready_addresses = false;
      };
    }

-- A round of the loop for a sentry.
unfoldable pub sentry_service : FullNode → ℕ → Service
sentry_service crd i =
    let tpl = crd.body.spec.service.p2p_template in
    record {
      meta =
          new_meta crd.meta.namespace (sentry_service_name crd i)
            (preserve_merge_into (instance_labels crd i (txt "sentry")) tpl.metadata.labels)
            (preserve_merge_into [] tpl.metadata.annotations);
      body = record {
        ports =
            record { name = txt "sentry-privval"; port = 1234; target_port = txt "privval" } ∷ [];
        selector = instance_selector crd i;
        kind = cluster_ip;
        external_traffic_policy = [];
        publish_not_ready_addresses = true;
      };
    }

abbrev pub rpc_ports : List ServicePort
rpc_ports =
    same_port (txt "api") 1317
    ∷ same_port (txt "jsonrpc") 8545
    ∷ same_port (txt "jsonrpc-ws") 8546
    ∷ same_port (txt "rosetta") 8080
    ∷ same_port (txt "grpc") 9090
    ∷ same_port (txt "rpc") 26657
    ∷ same_port (txt "grpc-web") 9091
    ∷ []

unfoldable pub rpc_service : FullNode → Service
rpc_service crd =
    let tpl = crd.body.spec.service.rpc_template in
    record {
      meta = normalize_metadata (
          new_meta crd.meta.namespace (rpc_service_name crd)
            (preserve_merge_into
              (set_labels ((component_label, txt "rpc") ∷ []) (default_labels crd))
              tpl.metadata.labels)
            (preserve_merge_into [] tpl.metadata.annotations));
      body = record {
        ports = rpc_ports;
        selector = (txt "app.kubernetes.io/name", app_name crd) ∷ [];
        kind = value_or tpl.kind cluster_ip;
        external_traffic_policy = value_or tpl.external_traffic_policy [];
        publish_not_ready_addresses = false;
      };
    }

module _ (hash : Service → Text) (crd : FullNode) where
  abbrev pub adapt_service : Service → ℕ → Resource ServiceBody
  adapt_service s i = adapted s (pos i) (hash s)

  abbrev pub sentry_services : List (Resource ServiceBody)
  sentry_services =
      if is_sentry crd
      then map (λ i. adapt_service (sentry_service crd i) (crd.body.spec.replicas + i))
          (ordinals crd)
      else []

  -- `BuildServices`: those of the peers, those of a sentry, and that of RPC.
  unfoldable pub build_services : List (Resource ServiceBody)
  unfolding p2p_service sentry_service rpc_service
  build_services =
      let svcs = map (λ i. adapt_service (p2p_service crd i) i) (ordinals crd) ++ sentry_services in
      svcs ++ (adapt_service (rpc_service crd) (length svcs) ∷ [])
