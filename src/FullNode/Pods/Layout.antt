-- ===== src/FullNode/Pods/Layout.antt =====
-- `NewPodBuilder` and `WithOrdinal` of internal/fullnode/pod_builder.go: the containers, volumes and
-- mounts of a pod. Commands, environment, probes, ports, resources and security contexts are left out.
-- `path.Join` is the parameter `join_path`, and `version` is the version that the build sets.
pub mod Mounts
use cosmos_operator.Common.{
  ℕ, Text, txt, text_eq, text_Eq, List, [], ◌∷◌, ◌++◌, map, Bool, true, ◌||◌, ◌≡◌, refl, none, some,
  is_some, insert, any, if◌then◌else◌,
}
use cosmos_operator.Kube.Meta.{ObjectMeta}
use cosmos_operator.Kube.Pod.{Pod, Container}
use cosmos_operator.StuckHeight.{Volume, VolumeMount}
use cosmos_operator.FullNode.{
  ChainVersion, FullNode, instance_name, instance_label, default_labels, preserve_merge_into,
  new_meta,
}
use cosmos_operator.FullNode.Claims.{pvc_name}
use cosmos_operator.FullNode.DiskUsages.{pvc_name_of}
use cosmos_operator.FullNode.Roles.{service_account_name}
use cosmos_operator.FullNode.NodeKeys.{node_key_secret_name}

pub data VolumeSource : Type 0 where
  claim : Text → VolumeSource
  empty_dir : VolumeSource
  config_map : Text → VolumeSource
  secret : Text → VolumeSource

pub record LaidVolume : Type 0 where
  pub name : Text
  pub source : VolumeSource

pub record LaidContainer : Type 0 where
  pub name : Text
  pub image : Text
  pub mounts : List VolumeMount

pub record Layout : Type 0 where
  pub meta : ObjectMeta
  pub service_account : Text
  pub hostname : Text
  pub subdomain : Text
  pub containers : List LaidContainer
  pub init_containers : List LaidContainer
  pub volumes : List LaidVolume

abbrev pub work_dir : Text
work_dir = txt "/home/operator"

abbrev pub infra_tool_image : Text
infra_tool_image = txt "ghcr.io/bharvest-devops/infratoolkit:v0.1.0"

-- `DockerTag` of internal/version/version.go.
unfoldable pub docker_tag : Text → Text
unfolding text_eq
docker_tag version = if text_eq version [] then txt "latest" else version

-- The folder of CometBFT below the chain's home directory.
abbrev pub cometbft_dir : FullNode → Text
cometbft_dir crd = []

abbrev pub bare : Text → Text → LaidContainer
bare name image = record { name = name; image = image; mounts = [] }

abbrev pub mount : Text → Text → VolumeMount
mount name path = record { name = name; mount_path = path }

abbrev pub set_mounts : List VolumeMount → LaidContainer → LaidContainer
set_mounts ms c = record c { mounts = ms }

abbrev pub will_restore_from_snapshot : FullNode → Bool
will_restore_from_snapshot crd =
    is_some crd.body.spec.chain.snapshot_url || is_some crd.body.spec.chain.snapshot_script

module _ (join_path : Text → Text → Text) where
  unfoldable pub chain_home_dir : FullNode → Text
  chain_home_dir crd =
      if text_eq crd.body.spec.chain.home_dir []
      then work_dir ++ txt "/cosmos"
      else join_path work_dir crd.body.spec.chain.home_dir

module _ (join_path : Text → Text → Text) (version : Text) where
  abbrev pub operator_image : Text
  operator_image = txt "ghcr.io/b-harvest/cosmos-operator:" ++ docker_tag version

  unfoldable pub init_containers : FullNode → List LaidContainer
  init_containers crd =
      let restore =
        if will_restore_from_snapshot crd
        then bare (txt "snapshot-restore") infra_tool_image ∷ []
        else [] in
      bare (txt "clean-init") infra_tool_image
      ∷ bare (txt "chain-init") crd.body.spec.image
      ∷ bare (txt "genesis-init") infra_tool_image
      ∷ bare (txt "addrbook-init") infra_tool_image
      ∷ bare (txt "config-merge") infra_tool_image
      ∷ (restore ++ (bare (txt "version-check") operator_image ∷ []))

  -- The mounts that all containers need.
  abbrev pub common_mounts : FullNode → List VolumeMount
  common_mounts crd =
      mount (txt "vol-chain-home") (chain_home_dir join_path crd)
      ∷ mount (txt "vol-system-tmp") (txt "/tmp")
      ∷ []

  abbrev pub init_mounts : FullNode → List VolumeMount
  init_mounts crd =
      common_mounts crd
      ++ (mount (txt "vol-tmp") (work_dir ++ txt "/.tmp")
          ∷ mount (txt "vol-config") (work_dir ++ txt "/.config")
          ∷ [])

  abbrev pub main_mounts : FullNode → List VolumeMount
  main_mounts crd =
      common_mounts crd
      ++ (mount (txt "vol-node-key") (
            join_path (join_path (chain_home_dir join_path crd) (cometbft_dir crd ++ txt "/config"))
              (txt "node_key.json"))
          ∷ [])

  -- The sidecar that checks versions, where the chain has any.
  abbrev pub version_checks : FullNode → List ChainVersion → List LaidContainer
  version_checks crd [] = []
  version_checks crd (v ∷ vs) =
      record {
        name = txt "version-check-interval";
        image = operator_image;
        mounts = common_mounts crd;
      }
      ∷ []

  abbrev pub containers_of : FullNode → List LaidContainer
  containers_of crd =
      record { name = txt "node"; image = crd.body.spec.image; mounts = main_mounts crd }
      ∷ record {
        name = txt "healthcheck";
        image = operator_image;
        mounts = mount (txt "vol-chain-home") (chain_home_dir join_path crd) ∷ [];
      }
      ∷ version_checks crd crd.body.spec.chain.versions

  unfoldable pub volumes_of : FullNode → ℕ → List LaidVolume
  volumes_of crd i =
      record { name = txt "vol-chain-home"; source = claim (pvc_name crd i) }
      ∷ record { name = txt "vol-tmp"; source = empty_dir }
      ∷ record { name = txt "vol-config"; source = config_map (instance_name crd i) }
      ∷ record { name = txt "vol-system-tmp"; source = empty_dir }
      ∷ record { name = txt "vol-node-key"; source = secret (node_key_secret_name crd i) }
      ∷ []

  unfoldable pub pod_meta : FullNode → ℕ → ObjectMeta
  pod_meta crd i =
      let tpl = crd.body.spec.pod_metadata in
      new_meta crd.meta.namespace (instance_name crd i)
        (insert instance_label (instance_name crd i)
          (preserve_merge_into (default_labels crd) tpl.labels))
        (preserve_merge_into [] tpl.annotations)

  -- `NewPodBuilder(crd).WithOrdinal(i)`.
  unfoldable pub with_ordinal : FullNode → ℕ → Layout
  unfolding init_containers volumes_of pod_meta
  with_ordinal crd i = record {
    meta = pod_meta crd i;
    service_account = service_account_name crd;
    hostname = instance_name crd i;
    subdomain = crd.meta.name;
    containers = containers_of crd;
    init_containers = map (set_mounts (init_mounts crd)) (init_containers crd);
    volumes = volumes_of crd i;
  }

-- The part of a pod that the other models read.
abbrev pub to_volume : LaidVolume → Volume
to_volume v = elim v.source [
  | claim c ↦ record { name = v.name; claim_name = some c }
  | _ ↦ record { name = v.name; claim_name = none }
]

abbrev pub to_container : LaidContainer → Container
to_container c = record { name = c.name; image = c.image }

abbrev pub to_pod : Layout → Pod
to_pod l = record {
  meta = l.meta;
  body = record {
    containers = map to_container l.containers;
    init_containers = map to_container l.init_containers;
    volumes = map to_volume l.volumes;
    conditions = [];
    pod_ip = [];
  };
}
