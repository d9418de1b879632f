-- ===== src/VolSnapshot/Controller/Phases.antt =====
-- The phase diagram of controllers/scheduledvolumesnapshot_controller.go, and what it may send.
use cosmos_operator.Common.{
  ℕ, Text, List, [], ◌∷◌, true, false, Option, ◌≡◌, refl, arith, ok, ◌⊎◌, Bool, inl, inr,
}
use cosmos_operator.VolSnapshot.{
  Phase, ScheduledVolumeSnapshot, unset, waiting_for_next, finding_candidate, deleting_pod,
  waiting_for_pod_deletion, creating, waiting_for_creation, restore_pod, suspended, missing_crds,
}
use cosmos_operator.VolSnapshot.Control.{build_snapshot}
use cosmos_operator.VolSnapshot.Scheduler.{reset_status, is_snapshot_ready}
use cosmos_operator.VolSnapshot.Controller.{
  Api, Step, Write, deleted_snapshots, created_snapshot, signalled, dispatch, reconcile_found,
  stop_result, wait_for_next, select_candidate, delete_pod, wait_for_pod_deletion, create,
  wait_for_creation, restore,
}

-- The phases that a step in a phase may leave behind.
infix 40 ◌⟶◌
pub data ◌⟶◌ : Phase → Phase → Type 0 where
  stay : {p : Phase} → p ⟶ p
  due : waiting_for_next ⟶ finding_candidate
  with_deletion : finding_candidate ⟶ deleting_pod
  without_deletion : finding_candidate ⟶ creating
  deletion_signalled : deleting_pod ⟶ waiting_for_pod_deletion
  pod_deleted : waiting_for_pod_deletion ⟶ creating
  snapshot_created : creating ⟶ waiting_for_creation
  snapshot_ready : waiting_for_creation ⟶ restore_pod
  next_round : restore_pod ⟶ waiting_for_next
  suspend : restore_pod ⟶ suspended

-- Snapshots are deleted only while waiting for the next, created only in the phase Creating, and in
-- the resource's namespace; the node is signalled only to delete or to restore its pod.
abbrev pub IsAllowed : ScheduledVolumeSnapshot → Write → Type 0
IsAllowed crd (deleted_snapshots vs) = crd.status.phase ≡ waiting_for_next
IsAllowed crd (created_snapshot v) = (crd.status.phase ≡ creating) × (v.namespace ≡ crd.namespace)
IsAllowed crd (signalled m) = (crd.status.phase ≡ deleting_pod) ⊎ (crd.status.phase ≡ restore_pod)

abbrev pub AllAllowed : ScheduledVolumeSnapshot → List Write → Type 0
AllAllowed crd [] = Unit
AllAllowed crd (w ∷ ws) = IsAllowed crd w × AllAllowed crd ws

-- Only the node is told something.
abbrev pub AllSignals : List Write → Type 0
AllSignals [] = Unit
AllSignals (signalled m ∷ ws) = AllSignals ws
AllSignals (_ ∷ ws) = ⊥

abbrev pub IsStep : ScheduledVolumeSnapshot → Step → Type 0
IsStep crd s = (crd.status.phase ⟶ s.crd.status.phase) × AllAllowed crd s.writes

module _ (next_time : Text → Option (ℕ → ℕ)) (format_time : ℕ → Text) (api : Api)
    (clock : ℕ → ℕ) where
  wait_for_creation-IsStep :
      (crd : ScheduledVolumeSnapshot)
      → crd.status.phase ≡ waiting_for_creation
      → IsStep crd (wait_for_creation next_time format_time api clock crd)
  unfolding wait_for_creation is_snapshot_ready
  wait_for_creation-IsStep crd e = ground (arith, snapshot_ready, stay {p = waiting_for_creation})

  dispatch-IsStep :
      (p : Phase) (crd : ScheduledVolumeSnapshot)
      → crd.status.phase ≡ p
      → IsStep crd (dispatch next_time format_time api clock p crd)
  unfolding dispatch wait_for_next select_candidate delete_pod wait_for_pod_deletion create restore
      build_snapshot
  dispatch-IsStep unset crd e = (stay, tt)
  dispatch-IsStep waiting_for_next crd e = ground (arith, due, stay {p = waiting_for_next})
  dispatch-IsStep finding_candidate crd e =
      ground (arith, with_deletion, without_deletion, stay {p = finding_candidate})
  dispatch-IsStep deleting_pod crd e = ground (arith, deletion_signalled, stay {p = deleting_pod})
  dispatch-IsStep waiting_for_pod_deletion crd e =
      ground (arith, pod_deleted, stay {p = waiting_for_pod_deletion})
  dispatch-IsStep creating crd e = ground (arith, snapshot_created, stay {p = creating})
  dispatch-IsStep waiting_for_creation crd e = wait_for_creation-IsStep crd e
  dispatch-IsStep restore_pod crd e = ground (arith, next_round, suspend, stay {p = restore_pod})
  dispatch-IsStep suspended crd e = (stay, tt)
  dispatch-IsStep missing_crds crd e = (stay, tt)

  -- Whatever the API server answers: where the CRDs were missing when the operator started, a reconcile
  -- sends nothing and leaves the resource in phase MissingCRDs. Otherwise, after the reset of the status, it
  -- follows an edge of the diagram; it deletes snapshots only in phase WaitingForNext, creates one only in
  -- phase Creating and in the resource's namespace, and signals the node only to delete or restore a pod.
  pub reconcile_found-IsStep :
      (missing : Bool) (crd : ScheduledVolumeSnapshot)
      → let s = reconcile_found next_time format_time api clock missing crd in
        ((missing ≡ true) × (s.crd.status.phase ≡ missing_crds) × (s.writes ≡ []))
        ⊎ ((missing ≡ false) × IsStep (reset_status (clock 0) crd) s)
  unfolding reconcile_found
  reconcile_found-IsStep true crd = inl (refl, refl, refl)
  reconcile_found-IsStep false crd =
      let c = reset_status (clock 0) crd in inr (refl, dispatch-IsStep c.status.phase c refl)

  -- A reconcile of a suspended resource deletes and creates no snapshot, and leaves it in phase
  -- Suspended, or in phase RestorePod.
  pub reconcile_found-suspended :
      (crd : ScheduledVolumeSnapshot)
      → crd.spec.suspend ≡ true
      → let s = reconcile_found next_time format_time api clock false crd in
        ((s.crd.status.phase ≡ suspended) ⊎ (s.crd.status.phase ≡ restore_pod))
        × AllSignals s.writes
  unfolding reconcile_found reset_status dispatch restore
  reconcile_found-suspended crd e = ground arith

  -- Once the CRDs were found missing, a resource that is not suspended stays in phase MissingCRDs
  -- when they are there: each reconcile sends nothing and asks for no other.
  pub missing_crds_stays :
      (crd : ScheduledVolumeSnapshot)
      → crd.spec.suspend ≡ false
      → crd.status.phase ≡ missing_crds
      → let s = reconcile_found next_time format_time api clock false crd in
        (s.crd.status.phase ≡ missing_crds) × (s.reply ≡ ok stop_result) × (s.writes ≡ [])
  unfolding reconcile_found reset_status dispatch
  missing_crds_stays crd e f = ground arith
