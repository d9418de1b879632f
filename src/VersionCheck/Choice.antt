-- ===== src/VersionCheck/Choice.antt =====
-- The version that cmd/versioncheck.go compares with, and the one that internal/fullnode/pod_builder.go
-- builds a pod with.
use cosmos_operator.Common.{
  ℕ, ◌≤◌, ◌<◌, Text, List, [], ◌∷◌, true, ◌≡◌, refl, Option, none, some, ltb, if◌then◌else◌, arith,
  Bool-cases, inl, inr,
}
use cosmos_operator.FullNode.{ChainVersion}
use cosmos_operator.FullNode.Pods.{is_newer, find_version_from, find_version}
use cosmos_operator.VersionCheck.{image_for}

-- The upgrade heights rise along the list.
abbrev pub AllAbove : ℕ → List ChainVersion → Type 0
AllAbove n [] = Unit
AllAbove n (v ∷ vs) = (n < v.upgrade_height) × AllAbove n vs

abbrev pub IsAscending : List ChainVersion → Type 0
IsAscending [] = Unit
IsAscending (v ∷ vs) = AllAbove v.upgrade_height vs × IsAscending vs

-- The version of the loop of the check, from the version so far.
unfoldable pub last_due : Option ChainVersion → List ChainVersion → ℕ → Option ChainVersion
last_due best [] h = best
last_due best (v ∷ vs) h =
    let rest = last_due (some v) vs h in if ltb h v.upgrade_height then best else rest

-- Where each upgrade is to come, the version found so far stays.
find_version_from-above :
    (best : Option ChainVersion) (vs : List ChainVersion) (h n : ℕ)
    → h ≤ n
    → AllAbove n vs
    → find_version_from best vs h ≡ best
find_version_from-above best [] h n le above = refl
find_version_from-above best (v ∷ vs) h n le above =
    ground (arith, find_version_from-above best vs h n le above.1)

abbrev AreAbove : Option ChainVersion → List ChainVersion → Type 0
AreAbove none vs = Unit
AreAbove (some u) vs = AllAbove u.upgrade_height vs

is_newer-above :
    (best : Option ChainVersion) (v : ChainVersion) (vs : List ChainVersion)
    → AreAbove best (v ∷ vs)
    → is_newer v best ≡ true
is_newer-above none v vs above = refl
is_newer-above (some u) v vs above = ground arith

find_version_from-last_due :
    (best : Option ChainVersion) (vs : List ChainVersion) (h : ℕ)
    → AreAbove best vs
    → IsAscending vs
    → find_version_from best vs h ≡ last_due best vs h
unfolding last_due
find_version_from-last_due best [] h above up = refl
find_version_from-last_due best (v ∷ vs) h above up = elim (Bool-cases (ltb h v.upgrade_height)) [
  | inl later ↦ ground (arith, find_version_from-above best vs h v.upgrade_height, up.0)
  | inr due ↦
      ground
        (arith, is_newer-above best v vs above, find_version_from-last_due (some v) vs h up.0 up.1)
]

abbrev pub image_or : Text → Option ChainVersion → Text
image_or image none = image
image_or image (some v) = v.image

image_for-last_due :
    (image : Text) (best : Option ChainVersion) (vs : List ChainVersion) (h : ℕ)
    → image_for (image_or image best) vs h ≡ image_or image (last_due best vs h)
unfolding image_for last_due
image_for-last_due image best [] h = refl
image_for-last_due image best (v ∷ vs) h = ground (arith, image_for-last_due image (some v) vs h)

pub find_version-last_due :
    (vs : List ChainVersion) (h : ℕ) → IsAscending vs → find_version vs h ≡ last_due none vs h
unfolding find_version
find_version-last_due vs h up = find_version_from-last_due none vs h tt up

-- Where the upgrade heights rise along the list of versions, the image that the check asks for at a
-- height is that of the version with which the pod is built at the height, or, where there is none,
-- that of the template.
pub image_for-find_version :
    (image : Text) (vs : List ChainVersion) (h : ℕ)
    → IsAscending vs
    → image_for image vs h ≡ image_or image (find_version vs h)
image_for-find_version image vs h up =
    rw (find_version-last_due vs h up) (image_for-last_due image none vs h)
