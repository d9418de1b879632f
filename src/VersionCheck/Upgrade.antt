-- ===== src/VersionCheck/Upgrade.antt =====
-- The way of a pod to the image for its height: the check of cmd/versioncheck.go fails, the status has
-- the height, and BuildPods of internal/fullnode makes the pod again. The API server grants the patch,
-- and the pod is replaced by the one that is built, as PodControl does in a round for the pod.
pub mod Settles
pub mod Overrides
use cosmos_operator.Common.{
  ℕ, zero, suc, Text, List, [], ◌∷◌, Bool, true, false, Option, none, some, if◌then◌else◌, Checked,
  panic, ok,
}
use cosmos_operator.Kube.Client.{Answer, found, failed}
use cosmos_operator.Kube.Pod.{Pod}
use cosmos_operator.FullNode.{FullNode, FullNodeBody, FullNodeStatus}
use cosmos_operator.FullNode.Pods.{build_pod}
use cosmos_operator.VersionCheck.{CheckApi, Check, Verdict, verified, check_version}

-- The answers of an API server that grants a patch, and of a database of a height.
abbrev pub granting : FullNode → ℕ → CheckApi
granting crd h = record { get_crd = found crd; open_db = λ b. some h; patch_status = λ m. none }

abbrev pub patch_height : List (Text × ℕ) → FullNode → FullNode
patch_height m crd =
    let b = crd.body in
    let st = b.status in record crd { body = record b { status = record st { height = some m } } }

-- The full node after the patches of a check.
abbrev pub apply_patches : List (List (Text × ℕ)) → FullNode → FullNode
apply_patches [] crd = crd
apply_patches (m ∷ ms) crd = apply_patches ms (patch_height m crd)

abbrev pub is_verified : Verdict → Bool
is_verified (verified h image) = true
is_verified _ = false

abbrev pub replace_pod : Answer (Option Pod) → Pod → Pod
replace_pod (found (some q)) p = q
replace_pod _ p = p

-- The full node and the pod of an instance.
pub record World : Type 0 where
  pub crd : FullNode
  pub pod : Pod

abbrev pub is_passed : Checked Check → Bool
is_passed panic = false
is_passed (ok c) = is_verified c.1

module _ (merged : Answer Pod) (backend : Text) (i h : ℕ) where
  unfoldable pub check : World → Checked Check
  unfolding check_version
  check w = check_version (granting w.crd h) (some w.crd) w.pod backend

  unfoldable pub passes : World → Bool
  unfolding check
  passes w = is_passed (check w)

  abbrev pub rebuild : World → Checked Check → World
  rebuild w panic = w
  rebuild w (ok c) =
      let crd = apply_patches c.0 w.crd in
      record { crd = crd; pod = replace_pod (build_pod crd i merged) w.pod }

  -- A check that fails, and the pod that takes the place of the one that failed.
  unfoldable pub restart : World → World
  unfolding check
  restart w = rebuild w (check w)

  -- How many restarts there are until the check passes; `none` where the fuel is not enough.
  unfoldable pub rounds : ℕ → ℕ → World → Option ℕ
  unfolding passes restart
  rounds zero done w = none
  rounds (suc n) done w =
      let rest = rounds n (suc done) (restart w) in if passes w then some done else rest
