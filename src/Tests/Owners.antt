-- ===== src/Tests/Owners.antt =====
-- The index of owned objects and the end of a job at concrete inputs.
use cosmos_operator.Common.{Text, txt, text_eq, [], ◌∷◌, true, false, ◌≡◌, refl, Option, some}
use cosmos_operator.Kube.Indexer.{OwnerReference, index_owner, JobCondition, is_job_finished}
use cosmos_operator.Kube.Pod.{Pod}
use cosmos_operator.Tests.Reconciles.{pod}

abbrev owned_by : Text → Text → Pod → Option OwnerReference
owned_by api_version kind p =
    some (record { api_version = api_version; kind = kind; name = txt "hub" })

owned_pod :
    index_owner
      (owned_by (txt "cosmos.bharvest.io/v1") (txt "CosmosFullNode"))
      (txt "CosmosFullNode")
      pod
    ≡ txt "hub" ∷ []
unfolding index_owner text_eq
owned_pod = refl

other_version :
    index_owner
      (owned_by (txt "cosmos.bharvest.io/v1alpha1") (txt "CosmosFullNode"))
      (txt "CosmosFullNode")
      pod
    ≡ []
unfolding index_owner text_eq
other_version = refl

abbrev condition : Text → Text → JobCondition
condition kind status = record { kind = kind; status = status }

failed_job :
    is_job_finished
      (condition (txt "Suspended") (txt "True") ∷ condition (txt "Failed") (txt "True") ∷ [])
    ≡ true
unfolding is_job_finished text_eq
failed_job = refl

running_job : is_job_finished (condition (txt "Complete") (txt "False") ∷ []) ≡ false
unfolding is_job_finished text_eq
running_job = refl
