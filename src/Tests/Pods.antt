-- ===== src/Tests/Pods.antt =====
-- The pod control of internal/fullnode/pod_control.go on a node of two pods.
use cosmos_operator.Common.{
  ℕ, ◌-◌, Text, txt, text_eq, List, [], ◌∷◌, true, false, ◌≡◌, refl, ◌⊎◌, none, some, lookup,
  insert, pos, ◌≤ℤ◌, ◌-ℤ◌, ok, panic, Checked, ℤ, ◌↔◌,
}
use cosmos_operator.Kube.Client.{found, ignore_not_found}
use cosmos_operator.Kube.Rollout.{at_least_one, compute_rollout, rollout_target}
use cosmos_operator.Diff.{Diff}
use cosmos_operator.PodControl.{
  Pod, PodBody, PodApi, Session, SyncInfoPodStatus, SyncInfo, returns, panics, no_scan, replace_pod,
  scan_pods, roll_pods, ready_pods, update_pods, mark_updating,
}
use cosmos_operator.PodControl.Budget.{deletions}
use cosmos_operator.PodControl.Panics.{update_pods-panics_iff}
use cosmos_operator.PodControl.Scaling.{update_pods-available}
use cosmos_operator.Tests.Rollout.{quarter}

program : Unit {0}
unfolding update_pods scan_pods roll_pods replace_pod mark_updating text_eq lookup insert
    compute_rollout rollout_target ignore_not_found
program = tt

abbrev pod : Text → Text → Pod
pod name image = record {
  meta = record {
    namespace = txt "ns";
    name = name;
    resource_version = [];
    uid = name;
    generation = 1;
    owner_references = [];
    labels = [];
    annotations = [];
    deletion_timestamp = none;
  };
  body = record { image = image; other_images = [] };
}

abbrev items : List Pod
items = pod (txt "p0") (txt "v1") ∷ pod (txt "p1") (txt "v1") ∷ []

abbrev upgrades : List Pod
upgrades = pod (txt "p0") (txt "v2") ∷ pod (txt "p1") (txt "v2") ∷ []

abbrev granting : PodApi
granting = record {
  list_pods = found items;
  set_owner = λ p. none;
  create = λ p. none;
  delete = λ p. none;
}

abbrev synced : SyncInfoPodStatus
synced = record { timestamp = 0; height = some 5; in_sync = some true; error = none }

abbrev session : SyncInfo → Session
session m = record { requests = []; sync_info = m; invalidate_cache = [] }

abbrev both : Session
both = session ((txt "p0", synced) ∷ (txt "p1", synced) ∷ [])

abbrev upgrade_diff : Diff PodBody
upgrade_diff = record { creates = items; deletes = []; updates = upgrades }

-- Two pods in sync, two allowed to be away: both upgrades go.
upgrade :
    (update_pods granting (λ r. compute_rollout quarter none (pos 2) (pos r)) items upgrades both).0
    ≡ returns false none
unfolding program
upgrade = refl

update_pods-available_example :
    let compute = λ (ready : ℕ). compute_rollout quarter none (pos 2) (pos ready) in
    let taken = deletions (update_pods granting compute items upgrades both).1 - deletions both in
    (taken ≡ (scan_pods granting items upgrades no_scan both).1.updated_pods)
    ⊎ (taken ≡ 0)
    ⊎ (pos 2 -ℤ at_least_one (pos 2)
        ≤ℤ pos (ready_pods (scan_pods granting items upgrades no_scan both).1) -ℤ pos taken)
unfolding program
update_pods-available_example =
    update_pods-available quarter granting none (pos 2) items upgrades both {n = pos 2}
      {unavail = pos 2} refl refl refl

-- Without sync info the first pod is deleted, and the loop panics.
missing_info : (update_pods granting (λ r. ok (pos r)) items upgrades (session [])).0 ≡ panics
unfolding program
missing_info = refl

update_pods-panics_iff_example :
    let scan = scan_pods granting items upgrades no_scan both in
    ((update_pods granting (λ r. panic) items upgrades both).0 ≡ panics)
    ↔ ((scan.0 ≡ none) × (◌≡◌ {A = Checked ℤ} panic panic))
unfolding program
update_pods-panics_iff_example =
    update_pods-panics_iff granting (λ r. panic) items upgrades both (refl, (refl, tt))
