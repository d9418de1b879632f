-- ===== src/VersionCheck/Images.antt =====
-- The images of a pod's node container in BuildPods of internal/fullnode and in the check of
-- cmd/versioncheck.go.

use cosmos_operator.Common.{
  ℕ, Text, txt, text_eq, text_eq_iff, text_Eq, List, [], ◌∷◌, false, leb, ◌&&◌, ◌≡◌, refl, ap, ◌∙◌,
  Option, none, some, map, select, arith, Bool-cases, inl, inr,
}
use cosmos_operator.Kube.Pod.{PodBody, Container}
use cosmos_operator.FullNode.{ChainVersion}
use cosmos_operator.FullNode.Pods.{
  find_version, find_version_from, is_newer, at_height, set_first_image, set_images, main_container,
  set_chain_container_images, with_version,
}
use cosmos_operator.VersionCheck.{image_for, this_pod_image}
use cosmos_operator.VersionCheck.Choice.{IsAscending, image_or, image_for-find_version}

-- The images of the containers that are named `node`.
abbrev pub node_images : List Container → List Text
node_images cs = map (λ c. c.image) (select (λ c. text_eq c.name (txt "node")) cs)

abbrev pub last_or : Text → List Text → Text
last_or a [] = a
last_or a (b ∷ bs) = last_or b bs

pub this_pod_image-last_or :
    (image : Text) (cs : List Container) → this_pod_image image cs ≡ last_or image (node_images cs)
unfolding this_pod_image
this_pod_image-last_or image [] = refl
this_pod_image-last_or image (c ∷ cs) =
    ground (arith, this_pod_image-last_or image cs, this_pod_image-last_or c.image cs)

abbrev pub set_head : Text → List Text → List Text
set_head a [] = []
set_head a (b ∷ bs) = a ∷ bs

pub node_images-set_first_image :
    (image : Text) (cs : List Container)
    → node_images (set_first_image main_container image cs) ≡ set_head image (node_images cs)
unfolding set_first_image
node_images-set_first_image image [] = refl
node_images-set_first_image image (c ∷ cs) = ground (arith, node_images-set_first_image image cs)

-- The image of a container of another name changes no image of the node.
node_images-set_first_other :
    (name image : Text) (cs : List Container)
    → text_eq name (txt "node") ≡ false
    → node_images (set_first_image name image cs) ≡ node_images cs
unfolding set_first_image
node_images-set_first_other name image [] other = refl
node_images-set_first_other name image (c ∷ cs) other =
    ground (arith, node_images-set_first_other name image cs other, text_eq_iff c.name name)

-- No further image of a version is for the node.
abbrev pub KeepsNode : List (Text × Text) → Type 0
KeepsNode [] = Unit
KeepsNode ((name, image) ∷ images) = (text_eq name (txt "node") ≡ false) × KeepsNode images

node_images-set_images :
    (images : List (Text × Text)) (cs : List Container)
    → KeepsNode images
    → node_images (set_images images cs) ≡ node_images cs
unfolding set_images
node_images-set_images [] cs k = refl
node_images-set_images ((name, image) ∷ images) cs k =
    node_images-set_images images (set_first_image name image cs) k.1
    ∙ node_images-set_first_other name image cs k.0

abbrev pub AllKeepNode : List ChainVersion → Type 0
AllKeepNode [] = Unit
AllKeepNode (v ∷ vs) = KeepsNode v.containers × AllKeepNode vs

abbrev pub KeepsNodeOf : Option ChainVersion → Type 0
KeepsNodeOf none = Unit
KeepsNodeOf (some v) = KeepsNode v.containers

find_version_from-KeepsNodeOf :
    (best : Option ChainVersion) (vs : List ChainVersion) (h : ℕ)
    → KeepsNodeOf best
    → AllKeepNode vs
    → KeepsNodeOf (find_version_from best vs h)
find_version_from-KeepsNodeOf best [] h k ks = k
find_version_from-KeepsNodeOf best (v ∷ vs) h k ks =
    elim (Bool-cases (leb v.upgrade_height h && is_newer v best)) [
      | inl e ↦ rw (find_version_from, e) (find_version_from-KeepsNodeOf (some v) vs h ks.0 ks.1)
      | inr e ↦ rw (find_version_from, e) (find_version_from-KeepsNodeOf best vs h k ks.1)
    ]

pub find_version-KeepsNodeOf :
    (vs : List ChainVersion) (h : ℕ) → AllKeepNode vs → KeepsNodeOf (find_version vs h)
unfolding find_version
find_version-KeepsNodeOf vs h k = find_version_from-KeepsNodeOf none vs h tt k

pub node_images-with_version :
    (o : Option ChainVersion) (b : PodBody) (image : Text)
    → KeepsNodeOf o
    → node_images b.containers ≡ image ∷ []
    → node_images (with_version o b).containers ≡ image_or image o ∷ []
unfolding set_chain_container_images
node_images-with_version none b image k e = e
node_images-with_version (some v) b image k e =
    node_images-set_images v.containers (set_first_image main_container v.image b.containers) k
    ∙ node_images-set_first_image v.image b.containers
    ∙ ap (set_head v.image) e

pub node_images-at_height :
    (vs : List ChainVersion) (h : ℕ) (b : PodBody) (image : Text)
    → IsAscending vs
    → AllKeepNode vs
    → node_images b.containers ≡ image ∷ []
    → node_images (at_height vs (some h) b).containers ≡ image_for image vs h ∷ []
unfolding image_for
node_images-at_height [] h b image up k e = e
node_images-at_height (v ∷ vs) h b image up k e = rw (image_for-find_version image (v ∷ vs) h up) (
    node_images-with_version (find_version (v ∷ vs) h) b image
      (find_version-KeepsNodeOf (v ∷ vs) h k) e)
