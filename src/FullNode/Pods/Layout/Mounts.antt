-- ===== src/FullNode/Pods/Layout/Mounts.antt =====
-- The mounts of the containers of a pod, and the volumes that they name: internal/fullnode/pod_builder.go.
use cosmos_operator.Common.{
  ℕ, Text, text_eq, text_Eq, List, [], ◌∷◌, map, Bool, true, ◌≡◌, refl, any,
}
use cosmos_operator.StuckHeight.{VolumeMount}
use cosmos_operator.FullNode.{ChainVersion, FullNode}
use cosmos_operator.FullNode.Claims.{pvc_name}
use cosmos_operator.FullNode.DiskUsages.{pvc_name_of}
use cosmos_operator.FullNode.Pods.Layout.{
  LaidVolume, LaidContainer, set_mounts, volumes_of, init_mounts, init_containers, version_checks,
  with_ordinal, to_pod,
}

abbrev pub has_volume : List LaidVolume → Text → Bool
has_volume vs name = any (λ v. text_eq v.name name) vs

-- Each mount of a list of containers has its volume.
abbrev pub MountsVolumes : List LaidVolume → List VolumeMount → Type 0
MountsVolumes vs [] = Unit
MountsVolumes vs (m ∷ ms) = (has_volume vs m.name ≡ true) × MountsVolumes vs ms

abbrev pub AllMounted : List LaidVolume → List LaidContainer → Type 0
AllMounted vs [] = Unit
AllMounted vs (c ∷ cs) = MountsVolumes vs c.mounts × AllMounted vs cs

module _ (join_path : Text → Text → Text) (version : Text) (crd : FullNode) (i : ℕ) where
  version_checks-AllMounted :
      (vs : List ChainVersion)
      → AllMounted (volumes_of join_path version crd i) (version_checks join_path version crd vs)
  unfolding volumes_of text_eq
  version_checks-AllMounted [] = tt
  version_checks-AllMounted (v ∷ vs) = ((refl, (refl, tt)), tt)

  init_mounts-MountsVolumes :
      MountsVolumes (volumes_of join_path version crd i) (init_mounts join_path version crd)
  unfolding volumes_of text_eq
  init_mounts-MountsVolumes = (refl, (refl, (refl, (refl, tt))))

  -- Every container of a list with the same mounts has its volumes.
  set_mounts-AllMounted :
      (vs : List LaidVolume)
      → (ms : List VolumeMount) → MountsVolumes vs ms
      → (cs : List LaidContainer) → AllMounted vs (map (set_mounts ms) cs)
  set_mounts-AllMounted vs ms held [] = tt
  set_mounts-AllMounted vs ms held (c ∷ cs) = (held, set_mounts-AllMounted vs ms held cs)

  -- Each mount of each container of an ordinal's pod, init containers included, names a volume of the
  -- pod, and the claim that `PVCName` finds in the pod is the claim of the ordinal.
  pub with_ordinal-AllMounted :
      let l = with_ordinal join_path version crd i in
      AllMounted l.volumes l.containers
      × AllMounted l.volumes l.init_containers
      × (pvc_name_of (to_pod l) ≡ pvc_name crd i)
  unfolding with_ordinal text_eq pvc_name_of
  with_ordinal-AllMounted = (
    (
      (refl, (refl, (refl, tt))),
      ((refl, tt), version_checks-AllMounted crd.body.spec.chain.versions),
    ),
    set_mounts-AllMounted (volumes_of join_path version crd i) (init_mounts join_path version crd)
        init_mounts-MountsVolumes (init_containers join_path version crd),
    refl,
  )
