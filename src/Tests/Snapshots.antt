-- ===== src/Tests/Snapshots.antt =====
-- The scheduled snapshots, and the names and snapshots of internal/kube, on concrete resources.

use cosmos_operator.Common.{
  ℕ, ◌+◌, Text, txt, text_eq, List, [], ◌∷◌, true, false, ◌≡◌, refl, Option, none, some, pos,
  select, lookup, insert, text_Eq, ok, format_int, format_nat, Bool, ◌⊎◌,
}
use cosmos_operator.Kube.Client.{ApiError, found, ignore_not_found}
use cosmos_operator.Kube.Labels.{to_name, normalize_value}
use cosmos_operator.Kube.VolumeSnapshot.{
  VolumeSnapshot, recent, sort_newest, recent_volume_snapshot,
}
use cosmos_operator.VolSnapshot.{
  missing_crds, Phase, ScheduledVolumeSnapshot, unset, finding_candidate, creating,
}
use cosmos_operator.VolSnapshot.Control.{
  SyncedPod, candidate, find_candidate, has_creation_time, delete_old_snapshots, to_candidate,
}
use cosmos_operator.VolSnapshot.Control.Choice.{IsKept as IsKeptOf, delete_old_snapshots-IsKept}
use cosmos_operator.VolSnapshot.FullNode.{source_key, signal_pod_deletion}
use cosmos_operator.VolSnapshot.Scheduler.{reset_status, calc_next}
use cosmos_operator.VolSnapshot.Controller.{Api, reconcile_found}
use cosmos_operator.VolSnapshot.Controller.Phases.{IsStep, reconcile_found-IsStep}

-- A name is stripped at its ends, and of what is not allowed.
stripped : to_name (txt "-my_chain.v1!-") ≡ txt "mychain.v1"
unfolding to_name
stripped = refl

-- The middle goes where a text is too long.
shortened : normalize_value (txt "abcdefgh") 5 [] ≡ txt "abfgh"
unfolding normalize_value
shortened = refl

abbrev snapshot : Text → ℕ → VolumeSnapshot
snapshot name t = record {
  name = name;
  namespace = txt "ns";
  labels = [];
  claim_name = txt "pvc";
  class_name = txt "class";
  status =
      some (record { creation_time = some t; ready_to_use = some true; restore_size = some 7 });
}

abbrev four : List VolumeSnapshot
four =
    snapshot (txt "b") 20
    ∷ snapshot (txt "d") 40
    ∷ snapshot (txt "a") 10
    ∷ snapshot (txt "c") 30
    ∷ []

abbrev refuse_first : VolumeSnapshot → Option ApiError
refuse_first v = some (ApiError.other (txt "down"))

abbrev crd : Phase → ScheduledVolumeSnapshot
crd p = record {
  name = txt "daily";
  namespace = txt "ns";
  generation = 1;
  spec = record {
    full_node_name = txt "node";
    full_node_ordinal = some (pos 1);
    schedule = txt "0 0 * * *";
    volume_snapshot_class_name = txt "class";
    delete_pod = true;
    min_available = pos 0;
    limit = pos 3;
    suspend = false;
  };
  status = record {
    observed_generation = 0;
    status_message = none;
    phase = p;
    created_at = 5;
    candidate = some (record { pod_name = txt "node-1"; pvc_name = txt "pvc-1"; pod_labels = [] });
    last_snapshot = none;
  };
}

abbrev suspend : ScheduledVolumeSnapshot → ScheduledVolumeSnapshot
suspend c = let s = c.spec in record c { spec = record s { suspend = true } }

abbrev pod : Text → Text → SyncedPod
pod name ordinal = record {
  meta = record {
    namespace = txt "ns";
    name = name;
    resource_version = [];
    uid = [];
    generation = 0;
    owner_references = [];
    labels = [];
    annotations = (txt "app.kubernetes.io/ordinal", ordinal) ∷ [];
    deletion_timestamp = none;
  };
  body = record { name = txt "vol-chain-home"; claim_name = some (txt "pvc-1") } ∷ [];
}

abbrev two_pods : List SyncedPod
two_pods = pod (txt "node-0") (txt "0") ∷ pod (txt "node-1") (txt "1") ∷ []

abbrev api : Api
api = record {
  get_crd = found (crd unset);
  list_snapshots = found four;
  delete_snapshot = refuse_first;
  synced_pods = two_pods;
  signals = [];
  sync_update = none;
  get_signals = found [];
  list_pod_names = found [];
  create_snapshot = λ v. none;
  get_snapshot = λ n. found none;
}

abbrev every_hundred : Text → Option (ℕ → ℕ)
every_hundred s = some (λ t. t + 100)

abbrev clock : ℕ → ℕ
clock k = 1000 + k

abbrev no_format : ℕ → Text
no_format t = txt "202601010000"

oldest_deleted :
    (delete_old_snapshots (found four) refuse_first (crd unset)).0 ≡ snapshot (txt "a") 10 ∷ []
unfolding delete_old_snapshots sort_newest ignore_not_found
oldest_deleted = refl

second_found :
    find_candidate two_pods (crd unset) ≡ candidate (to_candidate (pod (txt "node-1") (txt "1")))
unfolding find_candidate text_eq format_int format_nat lookup
second_found = refl

newest_found : recent_volume_snapshot (found four) ≡ recent (snapshot (txt "d") 40)
unfolding recent_volume_snapshot
newest_found = refl

new_resource :
    (reconcile_found every_hundred no_format api clock false (crd unset)).crd.status.phase
    ≡ finding_candidate
unfolding reconcile_found reset_status calc_next delete_old_snapshots sort_newest ignore_not_found
new_resource = refl

delete_old_snapshots-IsKept_example :
    (kept : List VolumeSnapshot) × IsKeptOf 3
      (select has_creation_time four)
      (delete_old_snapshots (found four) refuse_first (crd unset)).0
      kept
delete_old_snapshots-IsKept_example = delete_old_snapshots-IsKept four refuse_first (crd unset)

reconcile_found-IsStep_example :
    let s = reconcile_found every_hundred no_format api clock false (crd creating) in
    ((◌≡◌ {A = Bool} false true) × (s.crd.status.phase ≡ missing_crds) × (s.writes ≡ []))
    ⊎ ((◌≡◌ {A = Bool} false false) × IsStep (reset_status 1000 (crd creating)) s)
reconcile_found-IsStep_example =
    reconcile_found-IsStep every_hundred no_format api clock false (crd creating)

signalled_entry :
    signal_pod_deletion (crd creating) [] ≡ ok ((source_key (crd creating), txt "node-1") ∷ [])
unfolding signal_pod_deletion insert
signalled_entry = refl
