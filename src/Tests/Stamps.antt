-- ===== src/Tests/Stamps.antt =====
-- The pods of a full node with the checksums of its config maps, at a concrete input.
use cosmos_operator.FullNode.Ordinals.{after_dash-instance_name}
use cosmos_operator.Kube.Labels.{to_name}
use cosmos_operator.Kube.Labels.Ordinals.{after_dash}
use cosmos_operator.Common.{
  format_nat, map, panic, ◌≢◌, ◌↔◌, Text, txt, text_eq, text_Eq, ObjectKey, key_eq, key_Eq, arith,
  false, List, [], ◌∷◌, true, ◌≡◌, ◌≢◌, refl, ap,
}
use cosmos_operator.Kube.Client.{Answer, found, failed}
use cosmos_operator.Kube.Pod.{Pod, PodBody}
use cosmos_operator.Diff.{Resource, object, current, new}
use cosmos_operator.Diff.Sets.{IsDistinct}
use cosmos_operator.FullNode.{FullNode, instance_name}
use cosmos_operator.FullNode.Objects.{put_checksums}
use cosmos_operator.FullNode.Toml.{end}
use cosmos_operator.FullNode.ConfigMaps.{TomlTools, ConfigMap, ConfigMapBody, build_config_maps}
use cosmos_operator.FullNode.Pods.Stamps.{AllStamped}
use cosmos_operator.FullNode.Pods.Template.{
  PodPatch, build_all, build_all-AllStamped, built-ne_panic_iff,
}
use cosmos_operator.Tests.Layouts.{joined}
use cosmos_operator.Tests.Reconciles.{node}

-- Tools that write one text for each table.
abbrev plain : TomlTools
plain = record {
  default_comet = end;
  default_app = end;
  merge = λ t u. u;
  decode = λ t. found end;
  encode = λ t. found (txt "toml");
}

abbrev two : FullNode
two =
    let b = node.body in
    let s = b.spec in record node { body = record b { spec = record s { replicas = 2 } } }

abbrev name_hash : ConfigMap → Text
name_hash cm = cm.meta.name

abbrev pod_hash : Pod → Text
pod_hash p = p.meta.name

abbrev unpatched : Pod → PodPatch → Answer Pod
unpatched p patch = found p

abbrev items_of {ℓ} : {A : Type ℓ} → Answer (List A) → List A
items_of (found l) = l
items_of (failed e) = []

-- The first item once more.
abbrev twice {ℓ} : {A : Type ℓ} → List A → List A
twice [] = []
twice (x ∷ xs) = x ∷ x ∷ xs

abbrev config_maps : List (Resource ConfigMapBody)
config_maps = items_of (build_config_maps plain name_hash two [])

abbrev pods : List (Resource PodBody)
pods =
    items_of (build_all joined (txt "v0.9") unpatched pod_hash two (put_checksums [] config_maps))

config_maps-built : build_config_maps plain name_hash two [] ≡ found config_maps
unfolding build_config_maps
config_maps-built = refl

pods-built :
    build_all joined (txt "v0.9") unpatched pod_hash two (put_checksums [] config_maps) ≡ found pods
unfolding build_all cosmos_operator.Common.lookup
pods-built = refl

build_all-AllStamped_example : AllStamped config_maps pods
build_all-AllStamped_example =
    build_all-AllStamped joined (txt "v0.9") unpatched plain name_hash pod_hash two []
      {cms = config_maps} {qs = pods} (λ p q e. ground arith) (omega arith) config_maps-built
      pods-built

-- What the API server has: the objects of an earlier reconcile, one config map twice.
abbrev old_maps : List ConfigMap
old_maps = twice (map object config_maps)

abbrev old_pods : List Pod
old_pods = map object pods

built-ne_panic_iff_example :
    ((new old_maps config_maps ≢ panic) ↔ IsDistinct (map current old_maps))
    × ((new old_pods pods ≢ panic) ↔ IsDistinct (map current old_pods))
built-ne_panic_iff_example =
    built-ne_panic_iff joined (txt "v0.9") unpatched plain name_hash pod_hash two []
      (put_checksums [] config_maps) {cms = config_maps} {qs = pods} old_maps old_pods
      (λ p q e. ground arith) (omega arith) config_maps-built pods-built

after_dash-instance_name_example :
    (after_dash (instance_name two 17) ≡ format_nat 17)
    × (after_dash (to_name (instance_name two 17)) ≡ format_nat 17)
after_dash-instance_name_example = after_dash-instance_name two 17 (omega arith)
