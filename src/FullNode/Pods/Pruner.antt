-- ===== src/FullNode/Pods/Pruner.antt =====
-- `BuildPruningContainer` of internal/fullnode/pod_builder.go: the pod that prunes the data of a node's
-- pod, on the layout of the latter. No other code calls it.
use cosmos_operator.Common.{
  Text, txt, text_eq, List, [], ◌∷◌, ◌++◌, Option, none, some, if◌then◌else◌, Checked, panic, ok,
}
use cosmos_operator.FullNode.{PruningPodSpec, SelfHealSpec, FullNode}
use cosmos_operator.FullNode.Pods.Layout.{LaidContainer, Layout}
use cosmos_operator.FullNode.Pods.Probes.{Probe, pod_readiness_probes}
use cosmos_operator.StuckHeight.{VolumeMount}

pub record PruningContainer : Type 0 where
  pub laid : LaidContainer
  pub command : List Text
  pub args : List Text
  pub working_dir : Text
  pub readiness_probe : Option Probe

pub record PrunerPod : Type 0 where
  pub layout : Layout  -- its containers are `container`
  pub container : PruningContainer
  pub restart_policy : Text

abbrev pub get_pruner_pod_name : Text → Text
get_pruner_pod_name pod_name = pod_name ++ txt "-pruner"

abbrev pub text_or_default : Text → Text → Text
text_or_default t d = if text_eq t [] then d else t

-- The container, with the mounts of the first one of the old pod.
abbrev pub pruning_container :
    FullNode → PruningPodSpec → Text → List VolumeMount → PruningContainer
pruning_container crd spec name mounts = record {
  laid = record {
    name = get_pruner_pod_name name;
    image = text_or_default spec.image (txt "ghcr.io/bharvest-devops/cosmos-pruner:latest");
    mounts = mounts;
  };
  command = txt "/bin/sh" ∷ [];
  args =
      txt "-c"
      ∷ text_or_default spec.pruning_command
          (txt "cosmos-pruner compact /home/operator/cosmos/data/ 2>&1")
      ∷ [];
  working_dir = txt "/home/operator";
  readiness_probe = (pod_readiness_probes crd).0;
}

abbrev pub prune_pod : FullNode → PruningPodSpec → Layout → List LaidContainer → Checked PrunerPod
prune_pod crd spec l [] = panic
prune_pod crd spec l (c ∷ cs) =
    let m = l.meta in
    let name = get_pruner_pod_name m.name in
    let container = pruning_container crd spec name c.mounts in
    ok (record {
      layout = record l {
        meta = record m { name = name };
        init_containers = [];
        containers = container.laid ∷ [];
      };
      container = container;
      restart_policy = txt "Never";
    })

abbrev pub prune_with : FullNode → Option PruningPodSpec → Layout → Checked (Option PrunerPod)
prune_with crd none l = ok none
prune_with crd (some spec) l = elim (prune_pod crd spec l l.containers) [
  | panic ↦ panic
  | ok p ↦ ok (some p)
]

abbrev pub pruning_spec_of : Option SelfHealSpec → Option PruningPodSpec
pruning_spec_of none = none
pruning_spec_of (some s) = s.pruning_spec

-- The nil receiver is `none`; the result is then nil too.
unfoldable pub build_pruning_container : Option Layout → FullNode → Checked (Option PrunerPod)
unfolding pod_readiness_probes
build_pruning_container none crd = ok none
build_pruning_container (some l) crd = prune_with crd (pruning_spec_of crd.body.spec.self_heal) l
