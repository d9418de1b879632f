-- ===== src/Tests/Layouts.antt =====
-- The layout of a pod and the start of its node at a concrete input.
use cosmos_operator.Common.{Text, txt, text_eq, text_Eq, [], ◌∷◌, ◌++◌, map, ◌≡◌, refl}
use cosmos_operator.FullNode.Claims.{pvc_name}
use cosmos_operator.FullNode.DiskUsages.{pvc_name_of}
use cosmos_operator.FullNode.Pods.Layout.{chain_home_dir, with_ordinal, docker_tag, to_pod, Layout}
use cosmos_operator.FullNode.Pods.Layout.Mounts.{AllMounted, with_ordinal-AllMounted}
use cosmos_operator.FullNode.Pods.Commands.{start_cmd_and_args, start_command_args}
use cosmos_operator.Tests.Reconciles.{node}

abbrev pub joined : Text → Text → Text
joined a b = a ++ (txt "/" ++ b)

abbrev layout : Layout
layout = with_ordinal joined (txt "v0.9") node 0

layout_names :
    map (λ c. c.image) layout.containers
    ≡ txt "v1"
      ∷ txt "ghcr.io/b-harvest/cosmos-operator:v0.9"
      ∷ txt "ghcr.io/b-harvest/cosmos-operator:v0.9"
      ∷ []
unfolding with_ordinal docker_tag text_eq
layout_names = refl

with_ordinal-AllMounted_example :
    AllMounted layout.volumes layout.containers
    × AllMounted layout.volumes layout.init_containers
    × (pvc_name_of (to_pod layout) ≡ pvc_name node 0)
with_ordinal-AllMounted_example = with_ordinal-AllMounted joined (txt "v0.9") node 0

hub_started : start_cmd_and_args joined node ≡ (
  txt "gaiad",
  txt "start"
      ∷ txt "--home"
      ∷ txt "/home/operator/cosmos"
      ∷ txt "--x-crisis-skip-assert-invariants"
      ∷ txt "--log_format"
      ∷ txt "json"
      ∷ [],
)
unfolding start_cmd_and_args start_command_args chain_home_dir text_eq
hub_started = refl
