-- ===== src/StatefulJob/History.antt =====
-- What controllers/statefuljob_controller.go keeps of the jobs, and what it sends.
use cosmos_operator.Common.{
  ℕ, ◌≤◌, inl, inr, ◌++◌, txt, List, [], ◌∷◌, Bool, false, ◌≡◌, ◌↔◌, List-cases, none, some, arith,
  length, length-take-le, panic,
}
use cosmos_operator.Kube.Client.{Answer-cases, found, failed, not_found, is_not_found}
use cosmos_operator.StatefulJob.{
  JobStatus, no_status, StatefulJob, resource_name, add_job_status, update_job_status,
  ready_for_snapshot, build_jobs, build_pvcs, create_all,
}
use cosmos_operator.StatefulJob.Controller.{
  Api, Request, find_active_job, delete_pvcs, start_job, create_resources, reconcile_found,
}

add_job_status-le :
    (history : List JobStatus) (status : JobStatus) → length (add_job_status history status) ≤ 5
unfolding add_job_status
add_job_status-le history status = ground (arith, length-take-le 5 (status ∷ history))

update_job_status-le :
    (history : List JobStatus) (status : JobStatus)
    → length (update_job_status history status) ≤ length history
unfolding update_job_status
update_job_status-le [] status = omega arith
update_job_status-le (s ∷ history) status = omega arith

-- What a reconcile may send: the claim and the job have the resource's name and namespace, the job
-- mounts the claim after its own volumes, and neither has an owner.
abbrev pub IsOwn : StatefulJob → Request → Type 0
IsOwn crd (Request.delete_claim name) = name ≡ resource_name crd
IsOwn crd (Request.create_claim c) =
    (c.name ≡ resource_name crd) × (c.namespace ≡ crd.namespace) × (c.owner ≡ none)
IsOwn crd (Request.create_job j) =
    (j.name ≡ resource_name crd)
    × (j.namespace ≡ crd.namespace)
    × (j.owner ≡ none)
    × (j.volumes
        ≡ crd.spec.volumes
          ++ (record { name = txt "snapshot"; claim_name = some (resource_name crd) } ∷ []))

abbrev pub AllOwn : StatefulJob → List Request → Type 0
AllOwn crd [] = Unit
AllOwn crd (q ∷ qs) = IsOwn crd q × AllOwn crd qs

AllOwn-same :
    (crd d : StatefulJob) (qs : List Request)
    → d.name ≡ crd.name
    → d.namespace ≡ crd.namespace
    → d.spec ≡ crd.spec
    → AllOwn d qs
    → AllOwn crd qs
AllOwn-same crd d [] n m s h = tt
AllOwn-same crd d (Request.delete_claim x ∷ qs) n m s h =
    (cc (h.0, n), AllOwn-same crd d qs n m s h.1)
AllOwn-same crd d (Request.create_claim c ∷ qs) n m s h =
    ((cc (h.0.0, n), cc (h.0.1, m), h.0.2), AllOwn-same crd d qs n m s h.1)
AllOwn-same crd d (Request.create_job j ∷ qs) n m s h =
    ((cc (h.0.0, n), cc (h.0.1, m), h.0.2, cc (h.0.3, n, s)), AllOwn-same crd d qs n m s h.1)

-- The latest job of a history has no start time.
abbrev pub IsUnstarted : List JobStatus → Type 0
IsUnstarted [] = ⊥
IsUnstarted (status ∷ rest) = status.start_time ≡ none

-- The status that a reconcile begins with.
abbrev reset : StatefulJob → StatefulJob
reset crd = record crd { observed_generation = crd.generation; status_message = none }

module _ (api : Api) where
  delete_pvcs-same :
      (crd : StatefulJob)
      → ((delete_pvcs api crd).name ≡ crd.name)
        × ((delete_pvcs api crd).namespace ≡ crd.namespace)
        × ((delete_pvcs api crd).spec ≡ crd.spec)
        × ((delete_pvcs api crd).job_history ≡ crd.job_history)
  unfolding delete_pvcs
  delete_pvcs-same crd = ground arith

  start_job-le :
      (now : ℕ) (crd : StatefulJob)
      → length crd.job_history ≤ 5
      → length (start_job api now crd).crd.job_history ≤ 5
  unfolding start_job
  start_job-le now crd h = ground (arith, add_job_status-le crd.job_history no_status)

  -- The history holds no more than five jobs, if it did before.
  pub reconcile_found-le :
      (missing : Bool) (now : ℕ) (crd : StatefulJob)
      → length crd.job_history ≤ 5
      → length (reconcile_found api missing now crd).crd.job_history ≤ 5
  unfolding reconcile_found
  reconcile_found-le missing now crd h =
      let c = reset crd in
      elim (Answer-cases (api.get_job (resource_name crd))) [
        | inl (status, e) ↦ ground (arith, e, update_job_status-le crd.job_history status)
        | inr (x, e) ↦ ground (arith, e, start_job-le now (delete_pvcs api c), delete_pvcs-same c)
      ]

  -- A job that is there is never doubled: the reconcile sends nothing, and takes its status over.
  pub reconcile_found-active :
      (now : ℕ) (crd : StatefulJob) {status : JobStatus}
      → api.get_job (resource_name crd) ≡ found status
      → let s = reconcile_found api false now crd in
        (s.requests ≡ []) × (s.crd.job_history ≡ update_job_status crd.job_history status)
  unfolding reconcile_found find_active_job
  reconcile_found-active now crd e = ground arith

  -- The first job of a history has no start time.
  start_job-panics_iff :
      (now : ℕ) (crd : StatefulJob)
      → ((start_job api now crd).requeue_after ≡ panic) ↔ IsUnstarted crd.job_history
  unfolding start_job ready_for_snapshot
  start_job-panics_iff now crd = elim (List-cases crd.job_history) [
    | inl none_there ↦ ground (arith, none_there)
    | inr (status, rest, e) ↦ ground (arith, e)
  ]

  -- A reconcile panics exactly where the CRDs of the snapshots are there, the API server finds no active
  -- job, and the latest job of the history has no start time.
  pub reconcile_found-panics_iff :
      (missing : Bool) (now : ℕ) (crd : StatefulJob)
      → ((reconcile_found api missing now crd).requeue_after ≡ panic) ↔ (
          (missing ≡ false)
          × (api.get_job (resource_name crd) ≡ failed not_found)
          × IsUnstarted crd.job_history)
  unfolding reconcile_found find_active_job is_not_found
  reconcile_found-panics_iff missing now crd =
      let d = delete_pvcs api (reset crd) in
      ground (arith, delete_pvcs-same (reset crd), start_job-panics_iff now d)

  create_resources-AllOwn : (crd : StatefulJob) → AllOwn crd (create_resources api crd).0
  unfolding create_resources create_all build_jobs build_pvcs
  create_resources-AllOwn crd = ground arith

  start_job-AllOwn : (now : ℕ) (crd : StatefulJob) → AllOwn crd (start_job api now crd).requests
  unfolding start_job
  start_job-AllOwn now crd = ground (arith, create_resources-AllOwn crd)

  -- Whatever the API server answers, a reconcile deletes only the claim of the resource's name, and
  -- creates only a claim and a job of that name in its namespace, without an owner, the job with
  -- the claim mounted after its own volumes.
  pub reconcile_found-AllOwn :
      (missing : Bool) (now : ℕ) (crd : StatefulJob)
      → AllOwn crd (reconcile_found api missing now crd).requests
  unfolding reconcile_found
  reconcile_found-AllOwn missing now crd =
      let c = reset crd in
      let d = delete_pvcs api c in
      let same = delete_pvcs-same c in
      ground (
        arith,
        AllOwn-same crd d (start_job api now d).requests same.0 same.1 same.2
            (start_job-AllOwn now d),
      )
