-- ===== src/FullNode/DiskUsages.antt =====
-- internal/fullnode/pvc_disk_usage.go: how full the disks of the pods are. The requests run on their
-- own, each with its own element, and are a map. The answer of a pod's health check is the parameter
-- `fetch`, and the rounded percentage of floating point numbers is `percent_of`, of all and free bytes.
use cosmos_operator.Common.{
  ℕ, ◌-◌, Text, txt, text_eq, List, [], ◌∷◌, ◌++◌, map, Bool, false, not, ◌&&◌, Option, none, some,
  find, select, length, drop, ltb, leb, ◌==◌, ◌⊎◌, inl, inr, if◌then◌else◌, ℤ, pos, ObjectKey,
}
use cosmos_operator.Kube.Client.{ApiError, Answer, found, failed}
use cosmos_operator.Kube.Pod.{Pod, is_pod_ready}
use cosmos_operator.StuckHeight.{Volume}
use cosmos_operator.FullNode.Claims.{Claim, quantity_of}
use cosmos_operator.FullNode.AutoScaler.{DiskUsage}

-- The answer of the health check: all bytes and free bytes, or an error.
pub data Response : Type 0 where
  bytes : ℕ → ℕ → Response
  unreachable : Text → Response

-- The errors of the pods; those with a text end with it.
pub data PodError : Type 0 where
  not_ready : PodError
  disk_error : Text → PodError
  claim_error : Text → PodError

-- `PVCName`: of the volume of the chain's home.
abbrev pub claim_name_of : Option Volume → Text
claim_name_of none = []
claim_name_of (some v) = elim v.claim_name [ none ↦ [] | some name ↦ name ]

unfoldable pub pvc_name_of : Pod → Text
pvc_name_of p = claim_name_of (find (λ v. text_eq v.name (txt "vol-chain-home")) p.body.volumes)

abbrev pub no_usage : DiskUsage
no_usage = record { name = []; percent_used = pos 0; capacity = 0 }

-- An element of `found` and of `errs`.
abbrev pub Usage : Type 0
Usage = DiskUsage × Option PodError

abbrev pub is_zero : ℤ → Bool
is_zero (pos n) = n == 0
is_zero _ = false

-- `lo.Compact` drops the empty elements.
abbrev pub is_empty : DiskUsage → Bool
is_empty u = text_eq u.name [] && (is_zero u.percent_used && (u.capacity == 0))

abbrev pub has_suffix : Text → Text → Bool
has_suffix suffix s =
    leb (length suffix) (length s) && text_eq (drop (length s - length suffix) s) suffix

-- The test for errors other than that of a pod that is not ready.
abbrev pub is_real : Option PodError → Bool
is_real none = false
is_real (some not_ready) = false
is_real (some (disk_error e)) = not (has_suffix (txt "not ready") e)
is_real (some (claim_error e)) = not (has_suffix (txt "not ready") e)

-- What `CollectDiskUsage` returns.
pub data Collected : Type 0 where
  collected : List DiskUsage → Collected
  list_error : ApiError → Collected
  no_pods : Collected
  pod_errors : List PodError → Collected

abbrev pub real_errors : List Usage → List PodError
real_errors [] = []
real_errors ((u, none) ∷ us) = real_errors us
real_errors ((u, some e) ∷ us) = if is_real (some e) then e ∷ real_errors us else real_errors us

abbrev pub usages : List Usage → List DiskUsage
usages us = select (λ u. not (is_empty u)) (map (λ u. u.0) us)

unfoldable pub conclude : List Usage → Collected
conclude us =
    let errors = real_errors us in
    if ltb 0 (length errors) && (length errors == length us)
    then pod_errors errors
    else collected (usages us)

module _ (fetch : Text → Response) (percent_of : ℕ → ℕ → ℤ)
    (get_claim : ObjectKey → Claim ⊎ Text) where
  -- The capacity of the claim, that of an empty claim where it cannot be read.
  abbrev pub measure : ObjectKey → ℤ → Claim ⊎ Text → Usage
  measure k percent (inl c) = (
    record { name = k.name; percent_used = percent; capacity = quantity_of (some c.body.capacity) },
    none,
  )
  measure k percent (inr e) =
      (record { name = k.name; percent_used = percent; capacity = 0 }, some (claim_error e))

  abbrev pub measure_response : Pod → Response → Usage
  measure_response p (unreachable e) = (no_usage, some (disk_error e))
  measure_response p (bytes all free) =
      let k : ObjectKey = record { namespace = p.meta.namespace; name = pvc_name_of p } in
      measure k (percent_of all free) (get_claim k)

  -- The function that runs for each pod.
  unfoldable pub measure_pod : Pod → Usage
  unfolding pvc_name_of
  measure_pod p =
      if is_pod_ready p
      then measure_response p (fetch (txt "http://" ++ p.body.pod_ip))
      else (no_usage, some not_ready)

  unfoldable pub collect_disk_usage : Answer (List Pod) → Collected
  unfolding measure_pod conclude
  collect_disk_usage (failed e) = list_error e
  collect_disk_usage (found []) = no_pods
  collect_disk_usage (found (p ∷ ps)) = conclude (map measure_pod (p ∷ ps))
