-- ===== src/FullNode/Pods/Stamps.antt =====
-- The checksums of the config maps of internal/fullnode/configmap_builder.go in the pods of
-- build_pods.go, by way of configmap_control.go.
use mathlib.Core.Path.{subst}
use mathlib.Core.List.{Memᴰ}
use mathlib.Core.List.Memᴰ.{head, tail, cases_cons}
use cosmos_operator.Common.{
  ℕ, Text, txt, text_Eq, key_Eq, List, [], ◌∷◌, ◌≡◌, refl, ap, sym, ◌∙◌, Option, none, some,
  ObjectKey, lookup, insert, or_empty, lookup-insert, lookup-insert_self, key_eq_iff, arith,
  Bool-cases, inl, inr,
}
use cosmos_operator.Kube.Client.{Answer, found}
use cosmos_operator.Kube.Meta.{object_key}
use cosmos_operator.Kube.Pod.{Pod, PodBody}
use cosmos_operator.Diff.{Resource, object, revision, ordinal, resource_key}
use cosmos_operator.Diff.Sets.{pick, IsDistinct}
use cosmos_operator.FullNode.{FullNode, instance_name, ordinals}
use cosmos_operator.FullNode.Objects.{ConfigChecksums, put_checksums}
use cosmos_operator.FullNode.Peers.{Peers}
use cosmos_operator.FullNode.ConfigMaps.{TomlTools, ConfigMap, ConfigMapBody, build_config_maps}
use cosmos_operator.FullNode.ConfigMaps.Keys.{HasConfig, build_each-HasConfig}
use cosmos_operator.FullNode.Ordinals.{key_of}
use cosmos_operator.FullNode.Pods.Keys.{build_each-Round}
use cosmos_operator.FullNode.Pods.{is_candidate, add_pod, to_resource, build_each, build_pods}
use cosmos_operator.FullNode.Pods.Checksums.{checksum_of}

module _ {ℓ} {B : Type ℓ} where
  lookup-put_other :
      (k : ObjectKey) (m : ConfigChecksums) (rs : List (Resource B))
      → pick k rs ≡ none
      → lookup k (put_checksums m rs) ≡ lookup k m
  unfolding put_checksums
  lookup-put_other k m [] o = refl
  lookup-put_other k m (r ∷ rs) o = ground (
    arith,
    lookup-put_other k (insert (resource_key r) (revision r) m) rs,
    lookup-insert (resource_key r) k (revision r) m,
    key_eq_iff (resource_key r) k,
  )

  -- The checksum that is put for a resource is its revision.
  lookup-put_checksums :
      (m : ConfigChecksums) (rs : List (Resource B)) (r : Resource B)
      → IsDistinct rs
      → Memᴰ r rs
      → lookup (resource_key r) (put_checksums m rs) ≡ some (revision r)
  unfolding put_checksums
  lookup-put_checksums m [] r d i = elim i [ ]
  lookup-put_checksums m (q ∷ rs) r d i = elim (cases_cons i) [
    | inl same ↦
        let e : lookup (resource_key q) (put_checksums (insert (resource_key q) (revision q) m) rs)
            ≡ some (revision q) =
          lookup-put_other (resource_key q) (insert (resource_key q) (revision q) m) rs d.0
          ∙ lookup-insert_self (resource_key q) (revision q) m in
        subst
          (λ x.
            lookup (resource_key x) (put_checksums (insert (resource_key q) (revision q) m) rs)
            ≡ some (revision x))
          (sym same) e
    | inr there ↦ lookup-put_checksums (insert (resource_key q) (revision q) m) rs r d.1 there
  ]

-- A pod has the revision of the config map of its ordinal, which has the pod's name.
abbrev pub IsStamped : List (Resource ConfigMapBody) → Resource PodBody → Type 0
IsStamped cms q =
    (r : Resource ConfigMapBody) × Memᴰ r cms
    × (ordinal r ≡ ordinal q)
    × (resource_key r ≡ resource_key q)
    × (checksum_of q ≡ some (revision r))

abbrev pub AllStamped : List (Resource ConfigMapBody) → List (Resource PodBody) → Type 0
AllStamped cms [] = Unit
AllStamped cms (q ∷ qs) = IsStamped cms q × AllStamped cms qs

module _ (hash : Pod → Text) (merged : ℕ → Answer Pod) (crd : FullNode)
    (named : (i : ℕ) (p : Pod)
      → merged i ≡ found p
      → (p.meta.namespace ≡ crd.meta.namespace) × (p.meta.name ≡ instance_name crd i)) where
  module _ (cms : List (Resource ConfigMapBody)) (distinct : IsDistinct cms) where
    to_resource-IsStamped :
        (i : ℕ) (p : Pod)
        → object_key p ≡ key_of crd i
        → HasConfig crd cms i
        → IsStamped cms (to_resource hash (put_checksums [] cms) i p)
    unfolding object ordinal
    to_resource-IsStamped i p k (r, m, o, rk) =
        let stamp : lookup (object_key p) (put_checksums [] cms) ≡ some (revision r) =
          ap (λ x. lookup x (put_checksums [] cms)) (k ∙ sym rk)
          ∙ lookup-put_checksums [] cms r distinct m in
        (
          r,
          m,
          o,
          rk ∙ sym k,
          lookup-insert_self (txt "cosmos.bharvest.io/config-checksum")
                (or_empty (lookup (object_key p) (put_checksums [] cms))) p.meta.annotations
              ∙ ap (λ x. some (or_empty x)) stamp,
        )

    add_pod-AllStamped :
        (i : ℕ) (p : Option Pod) (qs : List (Resource PodBody))
        → ((q : Pod) → p ≡ some q → object_key q ≡ key_of crd i)
        → HasConfig crd cms i
        → AllStamped cms qs
        → AllStamped cms (add_pod hash crd (put_checksums [] cms) i p qs)
    add_pod-AllStamped i none qs k c h = h
    add_pod-AllStamped i (some p) qs k c h = elim (Bool-cases (is_candidate crd p.meta.name)) [
      | inl e ↦ rw (add_pod, e) h
      | inr e ↦ rw (add_pod, e) (to_resource-IsStamped i p (k p refl) c, h)
    ]

    build_each-AllStamped :
        (is : List ℕ) {qs : List (Resource PodBody)}
        → ((i : ℕ) → Memᴰ i is → HasConfig crd cms i)
        → build_each hash merged crd (put_checksums [] cms) is ≡ found qs
        → AllStamped cms qs
    unfolding build_each
    build_each-AllStamped [] {qs} c b =
        let whole : [] ≡ qs = ground arith in subst (AllStamped cms) whole tt
    build_each-AllStamped (i ∷ is) {qs} c b =
        let (p, rest, whole, more, k) =
          build_each-Round hash merged crd named (put_checksums [] cms) i is {qs = qs} b in
        subst (AllStamped cms) (sym whole) (
          add_pod-AllStamped i p rest k (c i (head refl))
            (build_each-AllStamped is {qs = rest} (λ j m. c j (tail m)) more))

-- Where the patch of the resource keeps the name and the namespace of a pod, and no two config maps
-- have one key: each pod that is built with the checksums of the config maps that are built carries
-- the revision of the config map of its ordinal, which has its name and namespace.
pub build_pods-AllStamped :
    (tools : TomlTools) (config_hash : ConfigMap → Text) (hash : Pod → Text)
    (merged : ℕ → Answer Pod) (crd : FullNode) (peers : Peers) {cms : List (Resource ConfigMapBody)}
    {qs : List (Resource PodBody)}
    → ((i : ℕ) (p : Pod)
        → merged i ≡ found p
        → (p.meta.namespace ≡ crd.meta.namespace) × (p.meta.name ≡ instance_name crd i))
    → build_config_maps tools config_hash crd peers ≡ found cms
    → IsDistinct cms
    → build_pods hash merged crd (put_checksums [] cms) ≡ found qs
    → AllStamped cms qs
unfolding build_pods build_config_maps
build_pods-AllStamped tools config_hash hash merged crd peers {cms} {qs} named built distinct b =
    build_each-AllStamped hash merged crd named cms distinct (ordinals crd) {qs = qs}
      (build_each-HasConfig tools config_hash crd peers (ordinals crd) {cms = cms} built) b
