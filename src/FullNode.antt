-- ===== src/FullNode.antt =====
-- api/v1/cosmosfullnode_types.go and self_healing_types.go: the full node resource, as far as the
-- model reads it; and internal/fullnode/labels.go, its names and labels.
pub mod Ordinals
pub mod Chain
pub mod Claims
pub mod StatusClient
pub mod AutoScaler
pub mod DiskUsages
pub mod Drift
pub mod Objects
pub mod Pods
pub mod Services
pub mod Peers
pub mod Toml
pub mod ConfigMaps
pub mod NodeKeys
pub mod Roles
pub mod Controller
pub mod SelfHealing
use cosmos_operator.Common.{
  ℤ, ℕ, zero, suc, Text, txt, text_eq, text_Eq, List, [], ◌∷◌, ◌++◌, Bool, Option, none, some,
  lookup, insert, is_some, format_nat, if◌then◌else◌,
}
pub use Chain.{ChainVersion, CometConfig, Pruning, SdkAppConfig, ChainSpec}
use cosmos_operator.Kube.Labels.{controller_label, component_label, to_name}
use cosmos_operator.Kube.Meta.{ObjectMeta, Object}
use cosmos_operator.Kube.Pod.{Container, parse_image_version}
use cosmos_operator.StuckHeight.{Volume}
use cosmos_operator.Kube.Rollout.{IntOrString}
use cosmos_operator.PodControl.{SyncInfo}

-- A `resource.Quantity` that is not negative, in units of 10⁻¹¹: Kubernetes keeps no more than nine
-- decimal places, and the growth by 102 % in the volume claims adds two.
abbrev pub Quantity : Type 0
Quantity = ℕ

abbrev pub Quantities : Type 0
Quantities = List (Text × Quantity)

pub record Metadata : Type 0 where
  pub labels : List (Text × Text)
  pub annotations : List (Text × Text)

-- `corev1.TypedLocalObjectReference`.
pub record TypedReference : Type 0 where
  pub api_group : Option Text
  pub kind : Text
  pub name : Text

pub record AutoDataSource : Type 0 where
  pub volume_snapshot_selector : List (Text × Text)
  pub match_instance : Bool

-- `PersistentVolumeClaimSpec`; the requests may be a nil map.
pub record ClaimTemplate : Type 0 where
  pub metadata : Metadata
  pub storage_class_name : Text
  pub requests : Option Quantities
  pub access_modes : List Text
  pub volume_mode : Option Text
  pub data_source : Option TypedReference
  pub auto_data_source : Option AutoDataSource

pub data DisableStrategy : Type 0 where
  disable_all disable_pod : DisableStrategy

pub record InstanceOverride : Type 0 where
  pub disable_strategy : Option DisableStrategy
  pub volume_claim_template : Option ClaimTemplate
  pub image : Text
  pub external_address : Option Text

pub record PvcAutoScaleSpec : Type 0 where
  pub used_space_percentage : ℕ
  pub increase_quantity : Text
  pub max_size : Quantity

pub record PruningPodSpec : Type 0 where
  pub image : Text
  pub pruning_command : Text

pub record SelfHealSpec : Type 0 where
  pub pvc_auto_scale : Option PvcAutoScaleSpec
  pub pruning_spec : Option PruningPodSpec
  pub height_drift_threshold : Option ℕ  -- `HeightDriftMitigation`

pub data RetentionPolicy : Type 0 where
  retain delete : RetentionPolicy

-- `ServiceOverridesSpec`, with the type as `kind`.
pub record ServiceOverrides : Type 0 where
  pub metadata : Metadata
  pub kind : Option Text
  pub external_traffic_policy : Option Text

pub record ServiceSpec : Type 0 where
  pub max_p2p_external_addresses : Option ℕ  -- int32, at least 0 by the schema
  pub p2p_template : ServiceOverrides
  pub rpc_template : ServiceOverrides

pub record FullNodeSpec : Type 0 where
  pub replicas : ℕ
  pub kind : Text
  pub chain : ChainSpec
  pub image : Text  -- of the pod template
  pub pod_metadata : Metadata
  pub probe_strategy : Text
  pub pod_containers : List Container
  pub pod_init_containers : List Container
  pub pod_volumes : List Volume
  pub max_unavailable : Option IntOrString
  pub volume_claim_template : ClaimTemplate
  pub retention_policy : Option RetentionPolicy
  pub service : ServiceSpec
  pub instance_overrides : List (Text × InstanceOverride)
  pub self_heal : Option SelfHealSpec

pub data FullNodePhase : Type 0 where
  unset complete error p2p_services progressing transient_error : FullNodePhase

pub record PvcAutoScaleStatus : Type 0 where
  pub requested_size : Quantity
  pub requested_at : ℕ

pub record FullNodeStatus : Type 0 where
  pub observed_generation : ℕ
  pub phase : FullNodePhase
  pub status_message : Option Text
  pub scheduled_snapshot_status : List (Text × Text)
  pub pvc_auto_scale : Option (List (Text × PvcAutoScaleStatus))
  pub peers : List Text
  pub sync_info : SyncInfo
  pub height : Option (List (Text × ℕ))

pub record FullNodeBody : Type 0 where
  pub spec : FullNodeSpec
  pub status : FullNodeStatus

abbrev pub FullNode : Type 0
FullNode = Object FullNodeBody

unfoldable pub app_name : FullNode → Text
app_name crd = to_name crd.meta.name

unfoldable pub instance_name : FullNode → ℕ → Text
unfolding app_name
instance_name crd i = to_name (app_name crd ++ (txt "-" ++ format_nat i))

abbrev pub instance_label : Text
instance_label = txt "app.kubernetes.io/instance"

abbrev pub node_type : Text → Text
node_type kind = if text_eq kind [] then txt "FullNode" else kind

-- `defaultLabels`, without further pairs.
unfoldable pub default_labels : FullNode → List (Text × Text)
unfolding app_name
default_labels crd =
    (controller_label, txt "cosmos-operator")
    ∷ (component_label, txt "CosmosFullNode")
    ∷ (txt "app.kubernetes.io/name", app_name crd)
    ∷ (txt "app.kubernetes.io/version", parse_image_version crd.body.spec.image)
    ∷ (txt "cosmos.bharvest.io/network", crd.body.spec.chain.network)
    ∷ (txt "cosmos.bharvest.io/type", node_type crd.body.spec.kind)
    ∷ []

-- The loop of `defaultLabels` over further pairs.
abbrev pub set_labels : List (Text × Text) → List (Text × Text) → List (Text × Text)
set_labels [] labels = labels
set_labels ((k, v) ∷ pairs) labels = set_labels pairs (insert k v labels)

unfoldable pub preserve_merge_into : List (Text × Text) → List (Text × Text) → List (Text × Text)
preserve_merge_into into [] = into
preserve_merge_into into ((k, v) ∷ other) =
    preserve_merge_into (if is_some (lookup k into) then into else insert k v into) other

-- The override of an instance.
abbrev pub override_of : FullNode → ℕ → Option InstanceOverride
override_of crd i = lookup (instance_name crd i) crd.body.spec.instance_overrides

-- The ordinals of a loop that starts at `i`.
abbrev pub ordinals_from : ℕ → ℕ → List ℕ
ordinals_from i zero = []
ordinals_from i (suc n) = i ∷ ordinals_from (suc i) n

abbrev pub ordinals : FullNode → List ℕ
ordinals crd = ordinals_from 0 crd.body.spec.replicas

-- The metadata of an object that a builder makes.
abbrev pub new_meta : Text → Text → List (Text × Text) → List (Text × Text) → ObjectMeta
new_meta namespace name labels annotations = record {
  namespace = namespace;
  name = name;
  resource_version = [];
  uid = [];
  generation = 0;
  owner_references = [];
  labels = labels;
  annotations = annotations;
  deletion_timestamp = none;
}
