-- ===== src/FullNode/Pods/Template.antt =====
-- `podPatch` of internal/fullnode/pod_builder.go, and BuildPods of build_pods.go with the layout of the
-- pods and the checksums of the config maps that are built: `strategicpatch`, by way of internal/kube/patch.go, is the parameter `merge_patch`.
use cosmos_operator.Common.{map, panic, ◌≢◌, ◌↔◌, ℕ, ◌<◌, ◌^◌, Text, List, [], ◌≡◌, ap}
use cosmos_operator.Kube.Client.{Answer, found}
use cosmos_operator.Kube.Meta.{Object}
use cosmos_operator.Kube.Pod.{Pod, PodBody, Container}
use cosmos_operator.StuckHeight.{Volume}
use cosmos_operator.Diff.{Resource, current, new}
use cosmos_operator.Diff.Sets.{IsDistinct}
use cosmos_operator.Diff.Steps.{new-ne-panic_iff}
use cosmos_operator.FullNode.{FullNode, instance_name}
use cosmos_operator.FullNode.Objects.{ConfigChecksums, put_checksums}
use cosmos_operator.FullNode.Peers.{Peers}
use cosmos_operator.FullNode.ConfigMaps.{TomlTools, ConfigMap, ConfigMapBody, build_config_maps}
use cosmos_operator.FullNode.ConfigMaps.Keys.{build_config_maps-IsDistinct}
use cosmos_operator.FullNode.Pods.{build_pods}
use cosmos_operator.FullNode.Pods.Keys.{build_pods-IsDistinct}
use cosmos_operator.FullNode.Pods.Layout.{with_ordinal, to_pod}
use cosmos_operator.FullNode.Pods.Stamps.{AllStamped, build_pods-AllStamped}

-- The patch of a pod: of its fields those that the model of a pod has. An empty list stays empty.
pub record PodPatch : Type 0 where
  pub containers : List Container
  pub init_containers : List Container
  pub volumes : List Volume

abbrev pub pod_patch : FullNode → PodPatch
pod_patch crd = record {
  containers = crd.body.spec.pod_containers;
  init_containers = crd.body.spec.pod_init_containers;
  volumes = crd.body.spec.pod_volumes;
}

new_wanted-IsDistinct :
    {B : Type 0} (old : List (Object B)) (want : List (Resource B))
    → IsDistinct want
    → (new old want ≢ panic) ↔ IsDistinct (map current old)
new_wanted-IsDistinct old want d =
    (λ h. ((new-ne-panic_iff old want).0 h).0, λ h. (new-ne-panic_iff old want).1 (h, d))

module _ (join_path : Text → Text → Text) (version : Text)
    (merge_patch : Pod → PodPatch → Answer Pod) where
  -- The pod of an ordinal, merged with the patch of the resource.
  abbrev pub merged_pod : FullNode → ℕ → Answer Pod
  merged_pod crd i = merge_patch (to_pod (with_ordinal join_path version crd i)) (pod_patch crd)

  unfoldable pub build_all :
      (Pod → Text) → FullNode → ConfigChecksums → Answer (List (Resource PodBody))
  unfolding build_pods
  build_all hash crd cksums = build_pods hash (merged_pod crd) crd cksums

  merged_pod-IsNamed :
      (crd : FullNode)
      → ((p q : Pod) → merge_patch p (pod_patch crd) ≡ found q → q.meta ≡ p.meta)
      → (i : ℕ) (p : Pod) → merged_pod crd i ≡ found p
      → (p.meta.namespace ≡ crd.meta.namespace) × (p.meta.name ≡ instance_name crd i)
  unfolding with_ordinal
  merged_pod-IsNamed crd keeps i p e =
      let k = keeps (to_pod (with_ordinal join_path version crd i)) p e in
      (ap (λ m. m.namespace) k, ap (λ m. m.name) k)

  -- Where the patch leaves the metadata of a pod, and the replicas are an int32: each pod that BuildPods
  -- gives with the checksums of the config maps that are built carries the revision of the config map of
  -- its ordinal, which has the pod's name and namespace.
  pub build_all-AllStamped :
      (tools : TomlTools) (config_hash : ConfigMap → Text) (hash : Pod → Text) (crd : FullNode)
      (peers : Peers) {cms : List (Resource ConfigMapBody)} {qs : List (Resource PodBody)}
      → ((p q : Pod) → merge_patch p (pod_patch crd) ≡ found q → q.meta ≡ p.meta)
      → crd.body.spec.replicas < 2 ^ 31
      → build_config_maps tools config_hash crd peers ≡ found cms
      → build_all hash crd (put_checksums [] cms) ≡ found qs
      → AllStamped cms qs
  unfolding build_all with_ordinal
  build_all-AllStamped tools config_hash hash crd peers {cms} {qs} keeps small built b =
      build_pods-AllStamped tools config_hash hash (merged_pod crd) crd peers {cms = cms} {qs = qs}
        (merged_pod-IsNamed crd keeps) built
        (build_config_maps-IsDistinct tools config_hash crd peers {cms = cms} small built) b

  -- Where the patch leaves the metadata of a pod, and the replicas are an int32: with the config maps and
  -- the pods that are built, the diffs with what the API server has panic exactly where it has two
  -- objects of one key.
  pub built-ne_panic_iff :
      (tools : TomlTools) (config_hash : ConfigMap → Text) (hash : Pod → Text) (crd : FullNode)
      (peers : Peers) (cksums : ConfigChecksums) {cms : List (Resource ConfigMapBody)}
      {qs : List (Resource PodBody)} (old_maps : List ConfigMap) (old_pods : List Pod)
      → ((p q : Pod) → merge_patch p (pod_patch crd) ≡ found q → q.meta ≡ p.meta)
      → crd.body.spec.replicas < 2 ^ 31
      → build_config_maps tools config_hash crd peers ≡ found cms
      → build_all hash crd cksums ≡ found qs
      → ((new old_maps cms ≢ panic) ↔ IsDistinct (map current old_maps))
        × ((new old_pods qs ≢ panic) ↔ IsDistinct (map current old_pods))
  unfolding build_all
  built-ne_panic_iff tools config_hash hash crd peers cksums {cms} {qs} old_maps old_pods keeps
        small built b =
      let c = build_config_maps-IsDistinct tools config_hash crd peers {cms = cms} small built in
      let d =
        build_pods-IsDistinct hash (merged_pod crd) crd (merged_pod-IsNamed crd keeps) cksums
          {qs = qs} small b in
      (new_wanted-IsDistinct old_maps cms c, new_wanted-IsDistinct old_pods qs d)
