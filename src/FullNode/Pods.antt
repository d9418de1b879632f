-- ===== src/FullNode/Pods.antt =====
-- internal/fullnode/build_pods.go, and `findVersion` and `Build` of pod_builder.go: which pods a full
-- node wants, and with which images. The pod of an ordinal as `NewPodBuilder` and `WithOrdinal` lay it
-- out, merged with the patch of the resource, is the argument `merged`.
pub mod Keys
pub mod Versions
pub mod Checksums
pub mod Stamps
pub mod Layout
pub mod Ports
pub mod Commands
pub mod Scripts
pub mod Probes
pub mod Pruner
pub mod Template
use cosmos_operator.Common.{
  ℕ, Text, txt, text_eq, text_Eq, key_Eq, List, [], ◌∷◌, map, Bool, true, false, not, ◌&&◌, Option,
  none, some, is_some, lookup, insert, any, leb, ltb, pos, or_empty, if◌then◌else◌,
}
use cosmos_operator.Kube.Client.{ApiError, Answer, found, failed}
use cosmos_operator.Kube.Labels.{normalize_metadata}
use cosmos_operator.Kube.Meta.{ObjectMeta, Object, object_key}
use cosmos_operator.Kube.Pod.{Pod, PodBody, Container}
use cosmos_operator.Diff.{Resource, adapted}
use cosmos_operator.FullNode.{
  ChainVersion, DisableStrategy, InstanceOverride, FullNode, FullNodeBody, FullNodeSpec,
  FullNodeStatus, instance_name, override_of, ordinals,
}
use cosmos_operator.FullNode.Objects.{ConfigChecksums}

-- The comparison of `findVersion`.
abbrev pub is_newer : ChainVersion → Option ChainVersion → Bool
is_newer v none = true
is_newer v (some best) = ltb best.upgrade_height v.upgrade_height

-- The loop of `findVersion`, from the version selected so far.
abbrev pub find_version_from : Option ChainVersion → List ChainVersion → ℕ → Option ChainVersion
find_version_from best [] h = best
find_version_from best (v ∷ vs) h =
    if leb v.upgrade_height h && is_newer v best
    then find_version_from (some v) vs h
    else find_version_from best vs h

unfoldable pub find_version : List ChainVersion → ℕ → Option ChainVersion
find_version vs h = find_version_from none vs h

abbrev pub set_image : Text → Container → Container
set_image image c = record c { image = image }

-- A loop that sets the image of the first container of a name, and ends.
unfoldable pub set_first_image : Text → Text → List Container → List Container
set_first_image name image [] = []
set_first_image name image (c ∷ cs) =
    if text_eq c.name name then set_image image c ∷ cs else c ∷ set_first_image name image cs

unfoldable pub set_images : List (Text × Text) → List Container → List Container
unfolding set_first_image
set_images [] cs = cs
set_images ((name, image) ∷ images) cs = set_images images (set_first_image name image cs)

abbrev pub main_container : Text
main_container = txt "node"

unfoldable pub set_chain_container_images : ChainVersion → PodBody → PodBody
unfolding set_images
set_chain_container_images v b = record b {
  containers = set_images v.containers (set_first_image main_container v.image b.containers);
  init_containers =
      set_images v.init_containers (set_first_image (txt "chain-init") v.image b.init_containers);
}

abbrev pub is_some_strategy : Option InstanceOverride → Bool
is_some_strategy none = false
is_some_strategy (some o) = is_some o.disable_strategy

abbrev pub with_version : Option ChainVersion → PodBody → PodBody
with_version none b = b
with_version (some v) b = set_chain_container_images v b

abbrev pub height_in : Option (List (Text × ℕ)) → Text → Option ℕ
height_in none name = none
height_in (some m) name = lookup name m

abbrev pub at_height : List ChainVersion → Option ℕ → PodBody → PodBody
at_height [] h b = b
at_height (v ∷ vs) none b = b
at_height (v ∷ vs) (some h) b = with_version (find_version (v ∷ vs) h) b

-- The images of the version for the pod's height.
unfoldable pub apply_version : FullNode → Text → PodBody → PodBody
unfolding find_version set_chain_container_images
apply_version crd name b =
    at_height crd.body.spec.chain.versions (height_in crd.body.status.height name) b

abbrev pub with_image : Text → PodBody → PodBody
with_image image b =
    if text_eq image []
    then b
    else record b { containers = set_first_image main_container image b.containers }

unfoldable pub apply_override : Option InstanceOverride → PodBody → PodBody
apply_override none b = b
apply_override (some o) b = with_image o.image b

-- `Build`: `none` for a pod that is disabled.
unfoldable pub build_pod : FullNode → ℕ → Answer Pod → Answer (Option Pod)
unfolding apply_version apply_override
build_pod crd i merged =
    let o = override_of crd i in
    if is_some_strategy o then found none else elim merged [
      | failed e ↦ failed e
      | found p ↦
          let b = apply_override o (apply_version crd p.meta.name p.body) in
          found (some (record { meta = normalize_metadata p.meta; body = b }))
    ]

-- A pod that a scheduled snapshot takes away.
abbrev pub is_candidate : FullNode → Text → Bool
is_candidate crd name = any (λ e. text_eq e.1 name) crd.body.status.scheduled_snapshot_status

abbrev pub annotate : Text → Pod → Pod
annotate checksum p =
    let m = p.meta in
    record p {
      meta = record m {
        annotations = insert (txt "cosmos.bharvest.io/config-checksum") checksum m.annotations;
      };
    }

-- The pod with its checksum, hashed; an empty text where there is none.
abbrev pub to_resource : (Pod → Text) → ConfigChecksums → ℕ → Pod → Resource PodBody
to_resource hash cksums i p =
    let q = annotate (or_empty (lookup (object_key p) cksums)) p in adapted q (pos i) (hash q)

abbrev pub add_pod :
    (Pod → Text)
    → FullNode
    → ConfigChecksums
    → ℕ
    → Option Pod
    → List (Resource PodBody)
    → List (Resource PodBody)
add_pod hash crd cksums i none rs = rs
add_pod hash crd cksums i (some p) rs =
    if is_candidate crd p.meta.name then rs else to_resource hash cksums i p ∷ rs

module _ (hash : Pod → Text) (merged : ℕ → Answer Pod) (crd : FullNode)
    (cksums : ConfigChecksums) where
  unfoldable pub build_each : List ℕ → Answer (List (Resource PodBody))
  unfolding build_pod
  build_each [] = found []
  build_each (i ∷ is) =
      let rest = build_each is in
      elim (build_pod crd i (merged i)) [
        | failed e ↦ failed e
        | found p ↦ elim rest [
          | failed e ↦ failed e
          | found rs ↦ found (add_pod hash crd cksums i p rs)
        ]
      ]

  unfoldable pub build_pods : Answer (List (Resource PodBody))
  unfolding build_each
  build_pods = build_each (ordinals crd)
