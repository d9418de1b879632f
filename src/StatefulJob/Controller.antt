-- ===== src/StatefulJob/Controller.antt =====
-- controllers/statefuljob_controller.go. The answers of the API server are the record `Api`; a step
-- returns the resource as the deferred status update finds it, the delay of the next reconcile in
-- seconds or a panic, and what was sent, in order. Events and log lines are left out; where the CRDs
-- are missing, the status is not written.
use cosmos_operator.Common.{
  ℕ, Text, List, [], ◌∷◌, ◌++◌, map, Bool, true, false, Option, none, some, if◌then◌else◌, Checked,
  panic, ok,
}
use cosmos_operator.Kube.Client.{ApiError, Answer, found, failed, is_not_found, ignore_not_found}
use cosmos_operator.Kube.VolumeSnapshot.{
  VolumeSnapshot, recent, none_ready, list_error, recent_volume_snapshot,
}
use cosmos_operator.StatefulJob.{
  JobStatus, no_status, Failure, StatefulJob, Claim, Job, built, add_job_status, update_job_status,
  ready_for_snapshot, resource_name, build_jobs, build_pvcs, create_all,
}

pub data Request : Type 0 where
  delete_claim : Text → Request
  create_claim : Claim → Request
  create_job : Job → Request

pub record Api : Type 0 where
  pub get_job : Text → Answer JobStatus
  pub delete_claim : Text → Option ApiError
  pub list_snapshots : Answer (List VolumeSnapshot)
  pub create_claim : Claim → Option ApiError
  pub create_job : Job → Option ApiError
  pub own_claim : Claim → Option ApiError
  pub own_job : Job → Option ApiError

pub record Step : Type 0 where
  pub crd : StatefulJob
  pub requeue_after : Checked ℕ
  pub requests : List Request

-- `FindActiveJob`.
pub data ActiveJob : Type 0 where
  active : JobStatus → ActiveJob
  inactive : ActiveJob
  unknown : ApiError → ActiveJob

unfoldable pub find_active_job : (Text → Answer JobStatus) → StatefulJob → ActiveJob
find_active_job get crd = elim (get (resource_name crd)) [
  | found st ↦ active st
  | failed e ↦ if is_not_found (some e) then inactive else unknown e
]

abbrev pub report : Failure → StatefulJob → StatefulJob
report e crd = record crd { status_message = some e }

module _ (api : Api) where
  -- `createResources`: the claim of the most recent snapshot, then the job.
  unfoldable pub create_resources : StatefulJob → List Request × Option Failure
  create_resources crd = elim (recent_volume_snapshot api.list_snapshots) [
    | list_error e ↦ ([], some (Failure.api_error e))
    | none_ready ↦ ([], some Failure.no_ready_snapshot)
    | recent v ↦
        let claims = create_all api.create_claim api.own_claim (build_pvcs crd v) in
        let jobs = create_all api.create_job api.own_job (built (build_jobs crd)) in
        elim claims.1 [
          | some e ↦ (map Request.create_claim claims.0, some e)
          | none ↦ (map Request.create_claim claims.0 ++ map Request.create_job jobs.0, jobs.1)
        ]
  ]

  -- `deletePVCs`, whose error is only reported.
  unfoldable pub delete_pvcs : StatefulJob → StatefulJob
  delete_pvcs crd = elim (ignore_not_found (api.delete_claim (resource_name crd))) [
    | none ↦ crd
    | some e ↦ report (Failure.api_error e) crd
  ]

  -- What follows the deletion of the claims.
  unfoldable pub start_job : ℕ → StatefulJob → Step
  unfolding create_resources
  start_job now crd =
      let sent = Request.delete_claim (resource_name crd) in
      elim (ready_for_snapshot crd now) [
        | panic ↦ record { crd = crd; requeue_after = panic; requests = sent ∷ [] }
        | ok false ↦ record { crd = crd; requeue_after = ok 3; requests = sent ∷ [] }
        | ok true ↦
            let made = create_resources crd in
            elim made.1 [
              | some e ↦ record {
                crd = report e crd;
                requeue_after = ok 60;
                requests = sent ∷ made.0;
              }
              | none ↦ record {
                crd = record crd { job_history = add_job_status crd.job_history no_status };
                requeue_after = ok 1;
                requests = sent ∷ made.0;
              }
            ]
      ]

  -- `Reconcile` of a resource that was read; the flag says that the snapshots' CRDs are missing.
  unfoldable pub reconcile_found : Bool → ℕ → StatefulJob → Step
  unfolding start_job delete_pvcs find_active_job
  reconcile_found missing now crd =
      if missing
      then record { crd = report Failure.missing_crds crd; requeue_after = ok 0; requests = [] }
      else let c = record crd { observed_generation = crd.generation; status_message = none } in
        elim (find_active_job api.get_job c) [
          | unknown e ↦ record {
            crd = report (Failure.api_error e) c;
            requeue_after = ok 60;
            requests = [];
          }
          | active st ↦ record {
            crd = record c { job_history = update_job_status c.job_history st };
            requeue_after = ok 5;
            requests = [];
          }
          | inactive ↦ start_job now (delete_pvcs c)
        ]
