-- ===== src/StatefulJob.antt =====
-- internal/statefuljob: the history of a StatefulJob, its schedule, and the claim and the job that it
-- creates. Of a pod template, the volumes and the restart policy are kept; the access modes and the
-- fixed labels are left out. A duration is in nanoseconds, a job's settings in their own unit.
pub mod Controller
pub mod History
use cosmos_operator.Common.{
  ℕ, ◌+◌, ◌*◌, Text, txt, text_eq, List, [], ◌∷◌, ◌++◌, Bool, true, false, Option, none, some,
  length, take, ltb, leb, if◌then◌else◌, ℤ, Checked, panic, ok,
}
use cosmos_operator.Kube.Client.{ApiError}
use cosmos_operator.Kube.Labels.{to_name}
use cosmos_operator.Kube.VolumeSnapshot.{VolumeSnapshot, VolumeSnapshotStatus}
use cosmos_operator.StuckHeight.{Volume}
use cosmos_operator.VolSnapshot.Control.{or_else_default}

-- `batchv1.JobStatus`.
pub record JobStatus : Type 0 where
  pub start_time : Option ℕ
  pub completion_time : Option ℕ
  pub active : ℕ
  pub succeeded : ℕ
  pub failed : ℕ

abbrev pub no_status : JobStatus
no_status = record {
  start_time = none;
  completion_time = none;
  active = 0;
  succeeded = 0;
  failed = 0;
}

pub record Spec : Type 0 where
  pub selector : List (Text × Text)
  pub interval : ℤ
  pub active_deadline_seconds : Option ℕ
  pub backoff_limit : Option ℕ
  pub ttl_seconds_after_finished : Option ℕ
  pub volumes : List Volume
  pub restart_policy : Text
  pub storage_class_name : Text

-- The errors of a reconcile: those of the API server, and those of the snapshot.
pub data Failure : Type 0 where
  api_error : ApiError → Failure
  missing_crds : Failure
  no_ready_snapshot : Failure
  missing_status : Text → Failure
  missing_restore_size : Text → Failure

pub record StatefulJob : Type 0 where
  pub name : Text
  pub namespace : Text
  pub generation : ℕ
  pub spec : Spec
  pub observed_generation : ℕ
  pub status_message : Option Failure
  pub job_history : List JobStatus

unfoldable pub add_job_status : List JobStatus → JobStatus → List JobStatus
add_job_status existing status =
    if ltb 5 (length (status ∷ existing)) then take 5 (status ∷ existing) else status ∷ existing

unfoldable pub update_job_status : List JobStatus → JobStatus → List JobStatus
update_job_status [] status = []
update_job_status (s ∷ rest) status = status ∷ rest

abbrev pub day : ℕ
day = 24 * 3600 * 1000000000

-- `now.Sub(start) >= dur` is `start + dur <= now`; the start time is a pointer that may be nil.
unfoldable pub ready_for_snapshot : StatefulJob → ℕ → Checked Bool
ready_for_snapshot crd now = elim crd.job_history [
  | [] ↦ ok true
  | s ∷ _ ↦ elim s.start_time [
    | none ↦ panic
    | some t ↦ ok (leb (t + or_else_default day crd.spec.interval) now)
  ]
]

abbrev pub resource_name : StatefulJob → Text
resource_name crd = to_name crd.name

-- The claim and the job, with the owner that the API server is sent.
pub record Claim : Type 0 where
  pub name : Text
  pub namespace : Text
  pub storage_class_name : Text
  pub data_source : Text
  pub storage : ℕ
  pub owner : Option Text

pub record Job : Type 0 where
  pub name : Text
  pub namespace : Text
  pub active_deadline_seconds : ℕ
  pub backoff_limit : ℕ
  pub ttl_seconds_after_finished : ℕ
  pub volumes : List Volume
  pub restart_policy : Text
  pub owner : Option Text

abbrev pub or_default : Option ℕ → ℕ → ℕ
or_default none d = d
or_default (some n) d = n

-- `BuildJobs`: one job, that mounts the claim of the same name.
unfoldable pub build_jobs : StatefulJob → List Job
build_jobs crd =
    record {
      name = resource_name crd;
      namespace = crd.namespace;
      active_deadline_seconds = or_default crd.spec.active_deadline_seconds 86400;
      backoff_limit = or_default crd.spec.backoff_limit 5;
      ttl_seconds_after_finished = or_default crd.spec.ttl_seconds_after_finished 900;
      volumes =
          crd.spec.volumes
          ++ (record { name = txt "snapshot"; claim_name = some (resource_name crd) } ∷ []);
      restart_policy =
          if text_eq crd.spec.restart_policy [] then txt "Never" else crd.spec.restart_policy;
      owner = none;
    }
    ∷ []

-- The results of a function that builds resources.
pub data Built {ℓ} (A : Type ℓ) : Type ℓ where
  built : List A → Built A
  unbuilt : Failure → Built A

unfoldable pub build_pvcs : StatefulJob → VolumeSnapshot → Built Claim
build_pvcs crd v = elim v.status [
  | none ↦ unbuilt (Failure.missing_status v.name)
  | some st ↦ elim st.restore_size [
    | none ↦ unbuilt (Failure.missing_restore_size v.name)
    | some size ↦ built (
        record {
          name = resource_name crd;
          namespace = crd.namespace;
          storage_class_name = crd.spec.storage_class_name;
          data_source = v.name;
          storage = size;
          owner = none;
        }
        ∷ [])
  ]
]

-- The loop of `Creator.Create`: what was sent, in order, and the error that ended it. The owner
-- is set on the local object, once the object was sent.
unfoldable pub create_each {ℓ} :
    {A : Type ℓ} → (A → Option ApiError) → (A → Option ApiError) → List A → List A × Option Failure
create_each create set_owner [] = ([], none)
create_each create set_owner (r ∷ rs) =
    let rest = create_each create set_owner rs in
    elim (create r) [
      | some e ↦ (r ∷ [], some (Failure.api_error e))
      | none ↦ elim (set_owner r) [
        | some e ↦ (r ∷ [], some (Failure.api_error e))
        | none ↦ (r ∷ rest.0, rest.1)
      ]
    ]

-- `Creator.Create`.
unfoldable pub create_all {ℓ} :
    {A : Type ℓ} → (A → Option ApiError) → (A → Option ApiError) → Built A → List A × Option Failure
unfolding create_each
create_all create set_owner (unbuilt e) = ([], some e)
create_all create set_owner (built rs) = create_each create set_owner rs
