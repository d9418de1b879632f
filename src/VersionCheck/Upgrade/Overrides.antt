-- ===== src/VersionCheck/Upgrade/Overrides.antt =====
-- The override of an image in internal/fullnode/pod_builder.go, which the check of cmd/versioncheck.go
-- does not read.
use cosmos_operator.Common.{
  ℕ, zero, suc, Text, text_eq, text_eq_iff, text_Eq, List, [], ◌∷◌, false, ◌≡◌, ◌≢◌, refl, ap, ◌∙◌,
  Option, none, some, lookup, insert, arith, Bool-cases, inl, inr, ok,
}
use cosmos_operator.Kube.Client.{Answer, found}
use cosmos_operator.Kube.Pod.{Pod, PodBody}
use cosmos_operator.FullNode.{
  ChainVersion, InstanceOverride, FullNode, FullNodeBody, FullNodeStatus, FullNodeSpec, override_of,
}
use cosmos_operator.FullNode.Pods.{
  height_in, at_height, find_version, apply_version, apply_override, build_pod,
}
use cosmos_operator.VersionCheck.{
  Backend, CheckApi, check_version, image_for, heights_of, is_recorded, compare_images, get_backend,
}
use cosmos_operator.VersionCheck.Images.{
  AllKeepNode, node_images, set_head, this_pod_image-last_or, node_images-with_version,
  node_images-set_first_image, find_version-KeepsNodeOf,
}
use cosmos_operator.VersionCheck.Choice.{image_or}
use cosmos_operator.VersionCheck.Upgrade.{
  World, granting, patch_height, is_verified, replace_pod, passes, restart, rounds,
}
use cosmos_operator.VersionCheck.Upgrade.Settles.{check_height-granted}

-- The node of an instance has another image by an override than the check asks for at a height.
pub record IsOverridden (crd : FullNode) (i h : ℕ) (p : Pod) (o : InstanceOverride) : Type 0 where
  pub overrides : override_of crd i ≡ some o
  pub enabled : o.disable_strategy ≡ none
  pub image : text_eq o.image [] ≡ false
  pub differs : o.image ≢ image_for crd.body.spec.image crd.body.spec.chain.versions h
  pub kept : AllKeepNode crd.body.spec.chain.versions
  pub node : node_images p.body.containers ≡ crd.body.spec.image ∷ []

node_images-at_any :
    (vs : List ChainVersion) (o : Option ℕ) (b : PodBody) (image : Text)
    → AllKeepNode vs
    → node_images b.containers ≡ image ∷ []
    → (x : Text) × (node_images (at_height vs o b).containers ≡ x ∷ [])
node_images-at_any [] o b image k e = (image, e)
node_images-at_any (v ∷ vs) none b image k e = (image, e)
node_images-at_any (v ∷ vs) (some h) b image k e = (
  image_or image (find_version (v ∷ vs) h),
  node_images-with_version (find_version (v ∷ vs) h) b image (find_version-KeepsNodeOf (v ∷ vs) h k)
      e,
)

node_images-apply_override :
    (o : InstanceOverride) (b : PodBody) (x : Text)
    → text_eq o.image [] ≡ false
    → node_images b.containers ≡ x ∷ []
    → node_images (apply_override (some o) b).containers ≡ o.image ∷ []
unfolding apply_override
node_images-apply_override o b x some_image e =
    rw (some_image) (node_images-set_first_image o.image b.containers ∙ ap (set_head o.image) e)

compare_images-refused :
    (api : CheckApi) (crd : FullNode) (pod : Pod) (h : ℕ) (x : Text)
    → node_images pod.body.containers ≡ x ∷ []
    → x ≢ image_for crd.body.spec.image crd.body.spec.chain.versions h
    → is_verified (compare_images api crd pod h) ≡ false
unfolding compare_images
compare_images-refused api crd pod h x e differs =
    rw (this_pod_image-last_or [] pod.body.containers, e)
      (ground (arith, text_eq_iff x (image_for crd.body.spec.image crd.body.spec.chain.versions h)))

module _ (merged : Answer Pod) (backend : Text) (i h : ℕ) (p : Pod) (o : InstanceOverride)
    (laid : merged ≡ found p) {b : Backend} (known : get_backend backend ≡ ok b) where
  build_pod-overridden :
      (crd : FullNode) (q : Pod)
      → IsOverridden crd i h p o
      → node_images (replace_pod (build_pod crd i merged) q).body.containers ≡ o.image ∷ []
  unfolding build_pod apply_version
  build_pod-overridden crd q u =
      let height = height_in crd.body.status.height p.meta.name in
      let (x, e) =
        node_images-at_any crd.body.spec.chain.versions height p.body crd.body.spec.image u.kept
          u.node in
      rw (u.overrides, u.enabled, laid, u.overrides)
        (node_images-apply_override o (at_height crd.body.spec.chain.versions height p.body) x
          u.image e)

  rebuilt-refused :
      (crd : FullNode) (q : Pod)
      → IsOverridden crd i h p o
      → passes merged backend i h
          (record { crd = crd; pod = replace_pod (build_pod crd i merged) q })
        ≡ false
  unfolding passes
  rebuilt-refused crd q u =
      let pod = replace_pod (build_pod crd i merged) q in
      rw (check_version, known, check_height-granted crd pod h)
        (compare_images-refused (granting crd h) crd pod h o.image (build_pod-overridden crd q u)
          u.differs)

  -- What a restart leaves: a pod that is refused, and the override.
  restart-refused :
      (w : World)
      → IsOverridden w.crd i h p o
      → (passes merged backend i h (restart merged backend i h w) ≡ false)
        × IsOverridden (restart merged backend i h w).crd i h p o
  unfolding restart cosmos_operator.FullNode.instance_name
  restart-refused w u =
      let m = insert w.pod.meta.name h (heights_of w.crd) in
      let u' : IsOverridden (patch_height m w.crd) i h p o = record {
        overrides = u.overrides;
        enabled = u.enabled;
        image = u.image;
        differs = u.differs;
        kept = u.kept;
        node = u.node;
      } in
      elim (Bool-cases (is_recorded (lookup w.pod.meta.name (heights_of w.crd)) h)) [
        | inl old ↦
            rw (check_version, known, check_height-granted w.crd w.pod h, old)
              (rebuilt-refused w.crd w.pod u, u)
        | inr new ↦
            rw (check_version, known, check_height-granted w.crd w.pod h, new)
              (rebuilt-refused (patch_height m w.crd) w.pod u', u')
      ]

  refused-again :
      (n done : ℕ) (w : World)
      → passes merged backend i h w ≡ false
      → IsOverridden w.crd i h p o
      → rounds merged backend i h n done w ≡ none
  unfolding rounds
  refused-again zero done w e u = refl
  refused-again (suc n) done w e u =
      let r = restart-refused w u in
      rw e (refused-again n (suc done) (restart merged backend i h w) r.0 r.1)

  -- Where the database opens at a height with a known backend and the patch of the status is granted, no
  -- further image of a version is for the node's container, the pod that is laid out has one such
  -- container, with the image of the template, and an override that disables nothing gives the node of the
  -- instance another image than the check asks for at the height: once the pod was built again, the check
  -- never passes, however often the pod is built again after that.
  pub rounds-overridden :
      (n done : ℕ) (w : World)
      → IsOverridden w.crd i h p o
      → rounds merged backend i h n done (restart merged backend i h w) ≡ none
  rounds-overridden n done w u =
      let r = restart-refused w u in refused-again n done (restart merged backend i h w) r.0 r.1
