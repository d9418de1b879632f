-- ===== src/Tests/Roles.antt =====
-- The role of the version checks: the requests that it allows, and the account that the pods run with.
use cosmos_operator.Common.{
  ℕ, Text, txt, text_eq, text_Eq, [], ◌∷◌, ◌&&◌, Bool, true, false, ◌≡◌, refl, any, map,
}
use cosmos_operator.FullNode.{FullNode}
use cosmos_operator.FullNode.Roles.{PolicyRule, rules, cosmos_group, binding}
use cosmos_operator.FullNode.Pods.Layout.{with_ordinal}

-- Whether a rule allows a verb on a resource of a group.
abbrev allows : PolicyRule → Text → Text → Text → Bool
allows r group resource verb =
    any (text_eq group) r.api_groups
    && (any (text_eq resource) r.resources && any (text_eq verb) r.verbs)

abbrev allowed : Text → Text → Text → Bool
allowed group resource verb = any (λ r. allows r group resource verb) rules

reads_full_node : allowed cosmos_group (txt "cosmosfullnodes") (txt "get") ≡ true
unfolding text_eq
reads_full_node = refl

patches_status : allowed cosmos_group (txt "cosmosfullnodes/status") (txt "patch") ≡ true
unfolding text_eq
patches_status = refl

leaves_full_node : allowed cosmos_group (txt "cosmosfullnodes") (txt "patch") ≡ false
unfolding text_eq
leaves_full_node = refl

lists_pods : allowed [] (txt "pods") (txt "list") ≡ true
unfolding text_eq
lists_pods = refl

-- The pods run with the account that the binding gives the role.
pods_bound :
    (join_path : Text → Text → Text)
    → (version : Text) → (crd : FullNode) → (i : ℕ)
    → map (λ s. s.name) (binding crd).body.subjects
      ≡ (with_ordinal join_path version crd i).service_account ∷ []
unfolding with_ordinal
pods_bound join_path version crd i = refl
