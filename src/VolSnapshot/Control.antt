-- ===== src/VolSnapshot/Control.antt =====
-- internal/volsnapshot/vol_snapshot_control.go: the pod to take a snapshot of, the snapshot, and the
-- deletion of old ones. The pods in sync are an argument, a pod with its volumes as body. The
-- time's format in a name belongs to the package time and is the parameter `format_time`.
pub mod Choice
use cosmos_operator.Common.{
  ℕ, zero, suc, ◌+◌, ◌≤◌, Text, txt, text_eq, text_Eq, List, [], ◌∷◌, ◌++◌, Bool, false, Option,
  none, some, lookup, insert, or_empty, find, select, length, leb, ltb, take, drop, is_some,
  if◌then◌else◌, ℤ, pos, negsuc, format_int,
}
use cosmos_operator.Kube.Client.{ApiError, Answer, found, failed, ignore_not_found}
use cosmos_operator.Kube.Labels.{controller_label, component_label, to_name}
use cosmos_operator.Kube.Meta.{ObjectMeta, Object}
use cosmos_operator.Kube.VolumeSnapshot.{VolumeSnapshot, VolumeSnapshotStatus, sort_newest}
use cosmos_operator.StuckHeight.{Volume}
use cosmos_operator.VolSnapshot.{
  SnapshotCandidate, LastSnapshot, ScheduledVolumeSnapshot, Spec, Status, Report,
}

abbrev pub SyncedPod : Type 0
SyncedPod = Object (List Volume)

abbrev pub cosmos_source_label : Text
cosmos_source_label = txt "cosmos.bharvest.io/source"

-- `fullnode.PVCName`.
abbrev pub pvc_name : List Volume → Text
pvc_name vs = elim (find (λ v. text_eq v.name (txt "vol-chain-home")) vs) [
  | none ↦ []
  | some v ↦ or_empty v.claim_name
]

-- A setting of 0 or less is replaced by its default.
abbrev pub or_else_default : ℕ → ℤ → ℕ
or_else_default d (pos zero) = d
or_else_default d (pos (suc n)) = suc n
or_else_default d (negsuc n) = d

-- The results of `FindCandidate`; `out_of_range` is the panic of `synced[0]` on an empty list.
pub data CandidateResult : Type 0 where
  candidate : SnapshotCandidate → CandidateResult
  refused : Report → CandidateResult
  out_of_range : CandidateResult

abbrev pub to_candidate : SyncedPod → SnapshotCandidate
to_candidate p = record {
  pod_name = p.meta.name;
  pvc_name = pvc_name p.body;
  pod_labels = p.meta.labels;
}

abbrev pub has_ordinal : ℤ → SyncedPod → Bool
has_ordinal n p =
    text_eq (or_empty (lookup (txt "app.kubernetes.io/ordinal") p.meta.annotations)) (format_int n)

-- The choice of the pod: the first with the ordinal, or the first of all.
unfoldable pub choose_pod : Option ℤ → List SyncedPod → CandidateResult
choose_pod (some n) synced = elim (find (has_ordinal n) synced) [
  | none ↦ refused (Report.ordinal_not_found n)
  | some p ↦ candidate (to_candidate p)
]
choose_pod none [] = out_of_range
choose_pod none (p ∷ ps) = candidate (to_candidate p)

unfoldable pub find_candidate : List SyncedPod → ScheduledVolumeSnapshot → CandidateResult
unfolding choose_pod
find_candidate synced crd =
    let min_avail = or_else_default 2 crd.spec.min_available in
    if ltb (length synced) min_avail
    then refused (Report.too_few_in_sync min_avail (length synced))
    else choose_pod crd.spec.full_node_ordinal synced

-- The object that `CreateSnapshot` sends.
unfoldable pub build_snapshot :
    (ℕ → Text) → ℕ → ScheduledVolumeSnapshot → SnapshotCandidate → VolumeSnapshot
build_snapshot format_time now crd c = record {
  name = to_name (crd.name ++ (txt "-" ++ format_time now));
  namespace = crd.namespace;
  labels = insert cosmos_source_label crd.name (
      insert controller_label (txt "cosmos-operator")
        (insert component_label (txt "ScheduledVolumeSnapshot") c.pod_labels));
  claim_name = c.pvc_name;
  class_name = crd.spec.volume_snapshot_class_name;
  status = none;
}

-- The status after `CreateSnapshot`.
unfoldable pub record_snapshot : Text → ℕ → ScheduledVolumeSnapshot → ScheduledVolumeSnapshot
record_snapshot name now crd =
    let st = crd.status in
    record crd {
      status = record st {
        last_snapshot = some (record { name = name; started_at = now; status = none });
      };
    }

-- The filter of `DeleteOldSnapshots`.
abbrev pub has_creation_time : VolumeSnapshot → Bool
has_creation_time v = elim v.status [ none ↦ false | some st ↦ is_some st.creation_time ]

-- `toDelete`: what comes after the `limit` newest.
unfoldable pub old_snapshots : ℕ → List VolumeSnapshot → List VolumeSnapshot
old_snapshots limit items =
    let filtered = select has_creation_time items in
    if leb (length filtered) limit then [] else drop limit (sort_newest filtered)

-- The loop over `toDelete`: what is asked for, and the errors, which do not end it.
unfoldable pub delete_each :
    (VolumeSnapshot → Option ApiError)
    → List VolumeSnapshot
    → List VolumeSnapshot × List (Text × ApiError)
delete_each delete [] = ([], [])
delete_each delete (v ∷ vs) =
    let rest = delete_each delete vs in
    elim (ignore_not_found (delete v)) [
      | none ↦ (v ∷ rest.0, rest.1)
      | some e ↦ (v ∷ rest.0, (v.name, e) ∷ rest.1)
    ]

abbrev pub join : List (Text × ApiError) → Option Report
join [] = none
join (e ∷ es) = some (Report.delete_errors (e ∷ es))

unfoldable pub delete_old_snapshots :
    Answer (List VolumeSnapshot)
    → (VolumeSnapshot → Option ApiError)
    → ScheduledVolumeSnapshot
    → List VolumeSnapshot × Option Report
unfolding old_snapshots delete_each
delete_old_snapshots (failed e) delete crd = ([], some (Report.list_snapshots_error e))
delete_old_snapshots (found items) delete crd =
    let out = delete_each delete (old_snapshots (or_else_default 3 crd.spec.limit) items) in
    (out.0, join out.1)
