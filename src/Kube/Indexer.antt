-- ===== src/Kube/Indexer.antt =====
-- internal/kube/indexer.go and job.go: the index of the objects that a controller owns, and the end of
-- a job. `metav1.GetControllerOf` is the parameter `get_controller_of`.
use cosmos_operator.Common.{
  Text, txt, text_eq, List, [], ◌∷◌, Bool, not, any, ◌&&◌, ◌||◌, Option, none, some, if◌then◌else◌,
}
use cosmos_operator.Kube.Meta.{Object}

pub record OwnerReference : Type 0 where
  pub api_version : Text
  pub kind : Text
  pub name : Text

-- `cosmosv1.GroupVersion`, as a text.
abbrev pub group_version : Text
group_version = txt "cosmos.bharvest.io/v1"

-- The values of the index; nil is the empty list.
unfoldable pub index_owner {ℓ} :
    {B : Type ℓ} → (Object B → Option OwnerReference) → Text → Object B → List Text
index_owner get_controller_of kind resource = elim (get_controller_of resource) [
  | none ↦ []
  | some owner ↦
      if not (text_eq owner.api_version group_version) || not (text_eq owner.kind kind)
      then []
      else owner.name ∷ []
]

pub record JobCondition : Type 0 where
  pub kind : Text
  pub status : Text

unfoldable pub is_job_finished : List JobCondition → Bool
is_job_finished conditions =
    any
      (λ c.
        (text_eq c.kind (txt "Complete") || text_eq c.kind (txt "Failed"))
        && text_eq c.status (txt "True"))
      conditions
