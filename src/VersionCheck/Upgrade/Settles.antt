-- ===== src/VersionCheck/Upgrade/Settles.antt =====
-- The check of cmd/versioncheck.go passes after the pod was built once more.
use cosmos_operator.Common.{
  ℕ, Text, text_eq, text_eq_refl, text_Eq, List, [], ◌∷◌, true, false, ◌≡◌, refl, ap, Option, none,
  some, lookup, insert, lookup-insert_self, if◌then◌else◌, ==_iff, Bool-cases, inl, inr, ok,
}
use cosmos_operator.Kube.Client.{Answer, found}
use cosmos_operator.Kube.Pod.{Pod, PodBody}
use cosmos_operator.FullNode.{
  ChainVersion, InstanceOverride, FullNode, FullNodeBody, FullNodeStatus, FullNodeSpec, override_of,
}
use cosmos_operator.FullNode.Pods.{
  height_in, at_height, apply_version, apply_override, build_pod, is_some_strategy,
}
use cosmos_operator.VersionCheck.{
  Backend, CheckApi, check_version, check_height, image_for, heights_of, heights_in, is_recorded,
  compare_images, patch_status_height_if_necessary, get_backend,
}
use cosmos_operator.VersionCheck.Choice.{IsAscending}
use cosmos_operator.VersionCheck.Images.{
  AllKeepNode, node_images, this_pod_image-last_or, node_images-at_height,
}
use cosmos_operator.VersionCheck.Upgrade.{
  World, granting, patch_height, is_verified, replace_pod, passes, restart, rounds,
}

abbrev pub KeepsImage : Option InstanceOverride → Type 0
KeepsImage none = Unit
KeepsImage (some o) = (o.disable_strategy ≡ none) × (o.image ≡ [])

-- A check with a granted patch: what it sent, and its verdict.
pub check_height-granted :
    (crd : FullNode) (pod : Pod) (h : ℕ)
    → check_height (granting crd h) pod h (found crd) ≡ (
      if is_recorded (lookup pod.meta.name (heights_of crd)) h
          then []
          else insert pod.meta.name h (heights_of crd) ∷ [],
      compare_images (granting crd h) crd pod h,
    )
unfolding patch_status_height_if_necessary
check_height-granted crd pod h =
    elim (Bool-cases (is_recorded (lookup pod.meta.name (heights_of crd)) h)) [
      | inl old ↦ rw old
      | inr new ↦ rw new
    ]

compare_images-verified :
    (api : CheckApi) (crd : FullNode) (pod : Pod) (h : ℕ)
    → node_images pod.body.containers
      ≡ image_for crd.body.spec.image crd.body.spec.chain.versions h ∷ []
    → is_verified (compare_images api crd pod h) ≡ true
unfolding compare_images
compare_images-verified api crd pod h e = rw (
  this_pod_image-last_or [] pod.body.containers,
  e,
  text_eq_refl (image_for crd.body.spec.image crd.body.spec.chain.versions h),
)

is_recorded-some : (o : Option ℕ) (h : ℕ) → is_recorded o h ≡ true → o ≡ some h
is_recorded-some none h e = cc
is_recorded-some (some k) h e = ap some ((==_iff k h).0 e)

is_recorded-height_in :
    (m : Option (List (Text × ℕ))) (name : Text) (h : ℕ)
    → is_recorded (lookup name (heights_in m)) h ≡ true
    → height_in m name ≡ some h
unfolding lookup
is_recorded-height_in none name h e = cc
is_recorded-height_in (some m) name h e = is_recorded-some (lookup name m) h e

-- The conditions on a full node, and on the pod that is laid out for the instance.
pub record IsUsual (crd : FullNode) (i : ℕ) (p : Pod) : Type 0 where
  pub rising : IsAscending crd.body.spec.chain.versions
  pub kept : AllKeepNode crd.body.spec.chain.versions
  pub plain : KeepsImage (override_of crd i)
  pub node : node_images p.body.containers ≡ crd.body.spec.image ∷ []

apply_override-keeps :
    (o : Option InstanceOverride) (b : PodBody) → KeepsImage o → apply_override o b ≡ b
unfolding apply_override text_eq
apply_override-keeps none b k = refl
apply_override-keeps (some o) b k = rw k.1

is_some_strategy-keeps : (o : Option InstanceOverride) → KeepsImage o → is_some_strategy o ≡ false
is_some_strategy-keeps none k = refl
is_some_strategy-keeps (some o) k = rw k.0

module _ (merged : Answer Pod) (backend : Text) (i h : ℕ) (p : Pod) (laid : merged ≡ found p)
    {b : Backend} (known : get_backend backend ≡ ok b) where
  passes_lem :
      (w : World)
      → node_images w.pod.body.containers
        ≡ image_for w.crd.body.spec.image w.crd.body.spec.chain.versions h ∷ []
      → passes merged backend i h w ≡ true
  unfolding passes
  passes_lem w e =
      rw (check_version, known, check_height-granted w.crd w.pod h)
        (compare_images-verified (granting w.crd h) w.crd w.pod h e)

  -- The pod that is built for a height has the image that the check asks for.
  build_pod-node_images :
      (crd : FullNode) (q : Pod)
      → height_in crd.body.status.height p.meta.name ≡ some h
      → IsUsual crd i p
      → node_images (replace_pod (build_pod crd i merged) q).body.containers
        ≡ image_for crd.body.spec.image crd.body.spec.chain.versions h ∷ []
  unfolding build_pod apply_version
  build_pod-node_images crd q e u =
      rw
        (
          is_some_strategy-keeps (override_of crd i) u.plain,
          laid,
          e,
          apply_override-keeps (override_of crd i)
              (at_height crd.body.spec.chain.versions (some h) p.body) u.plain,
        )
        (node_images-at_height crd.body.spec.chain.versions h p.body crd.body.spec.image u.rising
          u.kept u.node)

  rebuilt-passes :
      (crd : FullNode) (q : Pod)
      → height_in crd.body.status.height p.meta.name ≡ some h
      → IsUsual crd i p
      → passes merged backend i h
          (record { crd = crd; pod = replace_pod (build_pod crd i merged) q })
        ≡ true
  rebuilt-passes crd q e u =
      passes_lem (record { crd = crd; pod = replace_pod (build_pod crd i merged) q })
        (build_pod-node_images crd q e u)

  -- The check passes for a pod that took the place of one whose check failed.
  restart-passes :
      (w : World)
      → w.pod.meta.name ≡ p.meta.name
      → IsUsual w.crd i p
      → passes merged backend i h (restart merged backend i h w) ≡ true
  unfolding restart cosmos_operator.FullNode.instance_name
  restart-passes w same u =
      let name = w.pod.meta.name in
      let m = insert name h (heights_of w.crd) in
      elim (Bool-cases (is_recorded (lookup name (heights_of w.crd)) h)) [
        | inl old ↦
            rw (check_version, known, check_height-granted w.crd w.pod h, old)
              (rebuilt-passes w.crd w.pod
                (rw (← same) (is_recorded-height_in w.crd.body.status.height name h old)) u)
        | inr new ↦
            rw (check_version, known, check_height-granted w.crd w.pod h, new)
              (rebuilt-passes (patch_height m w.crd) w.pod
                (rw (← same) (lookup-insert_self name h (heights_of w.crd)))
                (record { rising = u.rising; kept = u.kept; plain = u.plain; node = u.node }))
      ]

  -- Where the database opens at a height with a known backend and the patch of the status is granted, the
  -- upgrade heights rise along the versions, no further image of a version and no override is for the
  -- node's container, and the pod that is laid out has the name of the pod that runs and one such
  -- container, with the image of the template: whatever image the pod runs, and whatever height the status has for it, the check
  -- passes at once or after the pod was built once more.
  pub rounds-total :
      (w : World)
      → w.pod.meta.name ≡ p.meta.name
      → IsUsual w.crd i p
      → (n : ℕ) × (rounds merged backend i h 2 0 w ≡ some n)
  unfolding rounds
  rounds-total w same u = elim (Bool-cases (passes merged backend i h w)) [
    | inl at_once ↦ (0, rw at_once)
    | inr later ↦ (1, rw (later, restart-passes w same u))
  ]
