-- ===== src/Tests/Jobs.antt =====
-- The stateful jobs of controllers/statefuljob_controller.go on a concrete resource.
use cosmos_operator.Common.{
  txt, List, [], ◌∷◌, true, false, ◌≡◌, refl, none, some, panic, length, pos, ◌↔◌, Bool,
}
use cosmos_operator.Kube.Client.{found, failed, not_found, is_not_found, ignore_not_found}
use cosmos_operator.Kube.VolumeSnapshot.{VolumeSnapshot, recent_volume_snapshot}
use cosmos_operator.StatefulJob.{
  resource_name, JobStatus, no_status, StatefulJob, ready_for_snapshot, create_all, build_pvcs,
  build_jobs,
}
use cosmos_operator.StatefulJob.Controller.{
  Api, reconcile_found, find_active_job, create_resources, delete_pvcs,
}
use cosmos_operator.StatefulJob.History.{
  AllOwn, IsUnstarted, reconcile_found-panics_iff, reconcile_found-AllOwn,
}

abbrev started : JobStatus
started = record no_status { start_time = some 50; active = 1 }

abbrev job : List JobStatus → StatefulJob
job history = record {
  name = txt "upload";
  namespace = txt "ns";
  generation = 1;
  spec = record {
    selector = [];
    interval = pos 100;
    active_deadline_seconds = none;
    backoff_limit = none;
    ttl_seconds_after_finished = none;
    volumes = [];
    restart_policy = [];
    storage_class_name = txt "class";
  };
  observed_generation = 0;
  status_message = none;
  job_history = history;
}

abbrev snapshot : VolumeSnapshot
snapshot = record {
  name = txt "daily-1";
  namespace = txt "ns";
  labels = [];
  claim_name = txt "pvc";
  class_name = txt "class";
  status =
      some (record { creation_time = some 9; ready_to_use = some true; restore_size = some 7 });
}

abbrev idle : Api
idle = record {
  get_job = λ name. failed not_found;
  delete_claim = λ name. none;
  list_snapshots = found (snapshot ∷ []);
  create_claim = λ c. none;
  create_job = λ j. none;
  own_claim = λ c. none;
  own_job = λ j. none;
}

abbrev busy : Api
busy = record idle { get_job = λ name. found started }

-- The interval is over: a deletion, a claim and a job are sent.
three_sent : length (reconcile_found idle false 150 (job (started ∷ []))).requests ≡ 3
unfolding reconcile_found find_active_job is_not_found delete_pvcs ignore_not_found
    ready_for_snapshot create_resources create_all build_pvcs build_jobs recent_volume_snapshot
three_sent = refl

-- The interval is not over: only the old claim is deleted.
one_sent : length (reconcile_found idle false 149 (job (started ∷ []))).requests ≡ 1
unfolding reconcile_found find_active_job is_not_found delete_pvcs ignore_not_found
    ready_for_snapshot
one_sent = refl

reconcile_found-panics_iff_example :
    ((reconcile_found idle false 150 (job (no_status ∷ []))).requeue_after ≡ panic) ↔ (
      (◌≡◌ {A = Bool} false false)
      × (idle.get_job (resource_name (job (no_status ∷ []))) ≡ failed not_found)
      × IsUnstarted (no_status ∷ []))
reconcile_found-panics_iff_example =
    reconcile_found-panics_iff idle false 150 (job (no_status ∷ []))

-- The last job is gone before a start time was recorded.
unstarted_panics : (reconcile_found idle false 150 (job (no_status ∷ []))).requeue_after ≡ panic
unstarted_panics = reconcile_found-panics_iff_example.1 (refl, refl, refl)

reconcile_found-AllOwn_example : AllOwn (job []) (reconcile_found idle false 150 (job [])).requests
reconcile_found-AllOwn_example = reconcile_found-AllOwn idle false 150 (job [])
