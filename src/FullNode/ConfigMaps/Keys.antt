-- ===== src/FullNode/ConfigMaps/Keys.antt =====
-- The keys of the config maps of internal/fullnode/configmap_builder.go.
use mathlib.Core.Path.{subst}
use mathlib.Core.List.{Memᴰ}
use mathlib.Core.List.Memᴰ.{head, tail, cases_cons}
use cosmos_operator.Common.{
  ℕ, ◌+◌, ◌<◌, ◌≤◌, ◌^◌, zero, suc, pos, Text, List, [], ◌∷◌, ◌≡◌, refl, sym, key_eq_iff, none,
  arith, inl, inr,
}
use cosmos_operator.Kube.Client.{Answer-cases, found}
use cosmos_operator.Kube.Labels.{to_name}
use cosmos_operator.Diff.Sets.{pick, IsDistinct}
use cosmos_operator.Diff.{Resource, adapted, object, ordinal, resource_key}
use cosmos_operator.FullNode.{FullNode, instance_name, ordinals_from}
use cosmos_operator.FullNode.Ordinals.{key_of, key_of-differs}
use cosmos_operator.FullNode.Peers.{Peers}
use cosmos_operator.FullNode.ConfigMaps.{
  TomlTools, ConfigMap, ConfigMapBody, config_files, config_map, build_each, build_config_maps,
}

-- The config map of an ordinal is there.
abbrev pub HasConfig : FullNode → List (Resource ConfigMapBody) → ℕ → Type 0
HasConfig crd cms i =
    (r : Resource ConfigMapBody) × Memᴰ r cms
    × (ordinal r ≡ pos i)
    × (resource_key r ≡ key_of crd i)

module _ (tools : TomlTools) (hash : ConfigMap → Text) (crd : FullNode) (peers : Peers) where
  -- The config maps of a first ordinal and the others.
  abbrev Parts : ℕ → List ℕ → List (Resource ConfigMapBody) → Type 0
  Parts j is cms =
      (r : Resource ConfigMapBody) × (rest : List (Resource ConfigMapBody)) × (cms ≡ r ∷ rest)
      × (build_each tools hash crd peers is ≡ found rest)
      × (ordinal r ≡ pos j)
      × (resource_key r ≡ key_of crd j)

  build_each-Parts :
      (j : ℕ) (is : List ℕ) {cms : List (Resource ConfigMapBody)}
      → build_each tools hash crd peers (j ∷ is) ≡ found cms
      → Parts j is cms
  unfolding build_each object ordinal cosmos_operator.Kube.Labels.normalize_metadata
  build_each-Parts j is {cms} q =
      elim (Answer-cases (config_files tools crd (instance_name crd j) peers)) [
        | inr (x, c) ↦ ground arith
        | inl (contents, c) ↦ elim (Answer-cases (build_each tools hash crd peers is)) [
          | inr (x, t) ↦ ground arith
          | inl (rest, t) ↦
              let cm = config_map tools crd j contents in
              (adapted cm (pos j) (hash cm), rest, ground arith, t, refl, refl)
        ]
      ]

  pub build_each-HasConfig :
      (is : List ℕ) {cms : List (Resource ConfigMapBody)}
      → build_each tools hash crd peers is ≡ found cms
      → (i : ℕ) → Memᴰ i is
      → HasConfig crd cms i
  build_each-HasConfig [] {cms} q i m = elim m [ ]
  build_each-HasConfig (j ∷ is) {cms} q i m =
      let (r, rest, whole, more, o, k) = build_each-Parts j is {cms = cms} q in
      subst (λ l. HasConfig crd l i) (sym whole)
        (elim (cases_cons m) [
          | inl same ↦ subst (HasConfig crd (r ∷ rest)) (sym same) (r, head refl, o, k)
          | inr there ↦
              let h = build_each-HasConfig is {cms = rest} more i there in (h.0, tail h.1, h.2, h.3)
        ])

  pick-build_each :
      (i j n : ℕ) {cms : List (Resource ConfigMapBody)}
      → i < j
      → j + n ≤ 2 ^ 31
      → build_each tools hash crd peers (ordinals_from j n) ≡ found cms
      → pick (key_of crd i) cms ≡ none
  unfolding build_each
  pick-build_each i j zero {cms} l b q =
      let nil : [] ≡ cms = ground arith in subst (λ l. pick (key_of crd i) l ≡ none) nil refl
  pick-build_each i j (suc n) {cms} l b q =
      let (r, rest, whole, more, o, k) =
        build_each-Parts j (ordinals_from (suc j) n) {cms = cms} q in
      let later =
        pick-build_each i (suc j) n {cms = rest} (omega (arith, l)) (omega (arith, b)) more in
      let other = key_of-differs crd i j l (omega (arith, b)) in
      subst (λ l. pick (key_of crd i) l ≡ none) (sym whole)
        (ground (arith, later, other, k, key_eq_iff (resource_key r) (key_of crd i)))

  build_each-IsDistinct :
      (i n : ℕ) {cms : List (Resource ConfigMapBody)}
      → i + n ≤ 2 ^ 31
      → build_each tools hash crd peers (ordinals_from i n) ≡ found cms
      → IsDistinct cms
  unfolding build_each
  build_each-IsDistinct i zero {cms} b q =
      let nil : [] ≡ cms = ground arith in subst IsDistinct nil tt
  build_each-IsDistinct i (suc n) {cms} b q =
      let (r, rest, whole, more, o, k) =
        build_each-Parts i (ordinals_from (suc i) n) {cms = cms} q in
      subst IsDistinct (sym whole) (
        subst (λ x. pick x rest ≡ none) (sym k)
            (pick-build_each i (suc i) n {cms = rest} (omega arith) (omega (arith, b)) more),
        build_each-IsDistinct (suc i) n {cms = rest} (omega (arith, b)) more,
      )

  -- With an int32 of replicas, no two config maps that are built have one key.
  pub build_config_maps-IsDistinct :
      {cms : List (Resource ConfigMapBody)}
      → crd.body.spec.replicas < 2 ^ 31
      → build_config_maps tools hash crd peers ≡ found cms
      → IsDistinct cms
  unfolding build_config_maps
  build_config_maps-IsDistinct {cms} l q =
      build_each-IsDistinct 0 crd.body.spec.replicas {cms = cms} (omega (arith, l)) q
