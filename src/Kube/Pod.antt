-- ===== src/Kube/Pod.antt =====
-- internal/kube/pod.go and image.go, and the part of a pod that the operator reads. A time counts
-- from the zero of `metav1.Time`.
use cosmos_operator.Common.{
  ℕ, ◌+◌, Text, txt, text_eq, List, [], ◌∷◌, ◌++◌, Bool, false, not, ◌&&◌, ◌||◌, Option, none, some,
  find, select, ltb, ◌==◌, if◌then◌else◌,
}
use cosmos_operator.Kube.Meta.{Object}
use cosmos_operator.StuckHeight.{Volume}

pub record PodCondition : Type 0 where
  pub kind : Text
  pub status : Text
  pub last_transition_time : ℕ

pub record Container : Type 0 where
  pub name : Text
  pub image : Text

pub record PodBody : Type 0 where
  pub containers : List Container
  pub init_containers : List Container
  pub volumes : List Volume
  pub conditions : List PodCondition
  pub pod_ip : Text

abbrev pub Pod : Type 0
Pod = Object PodBody

-- The first condition of a kind.
abbrev pub get_pod_condition_from_list : List PodCondition → Text → Option PodCondition
get_pod_condition_from_list conditions kind = find (λ c. text_eq c.kind kind) conditions

abbrev pub get_pod_ready_condition : Pod → Option PodCondition
get_pod_ready_condition p = get_pod_condition_from_list p.body.conditions (txt "Ready")

unfoldable pub is_pod_ready : Pod → Bool
is_pod_ready p = elim (get_pod_ready_condition p) [
  | none ↦ false
  | some c ↦ text_eq c.status (txt "True")
]

-- The second test of `IsPodAvailable`, of the ready condition.
abbrev pub is_ready_since : ℕ → ℕ → PodCondition → Bool
is_ready_since min_ready now c =
    min_ready == 0
    || (not (c.last_transition_time == 0) && ltb (c.last_transition_time + min_ready) now)

unfoldable pub is_pod_available : ℕ → ℕ → Pod → Bool
unfolding is_pod_ready
is_pod_available min_ready now p =
    if is_pod_ready p
    then elim (get_pod_ready_condition p) [ none ↦ false | some c ↦ is_ready_since min_ready now c ]
    else false

unfoldable pub available_pods : List Pod → ℕ → ℕ → List Pod
unfolding is_pod_available
available_pods pods min_ready now = select (is_pod_available min_ready now) pods

-- `strings.Split(s, ":")`: the parts, the first one begun.
abbrev pub split_colon : Text → Text → List Text
split_colon part [] = part ∷ []
split_colon part (c ∷ s) =
    if c == b':' then part ∷ split_colon [] s else split_colon (part ++ (c ∷ [])) s

abbrev pub version_of : List Text → Text
version_of (_ ∷ v ∷ []) = if text_eq v [] then txt "latest" else v
version_of _ = txt "latest"

unfoldable pub parse_image_version : Text → Text
parse_image_version image = version_of (split_colon [] image)
