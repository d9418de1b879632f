-- ===== src/FullNode/NodeKeys.antt =====
-- internal/fullnode/node_key_builder.go, and `FindOrDefaultCopy` of internal/kube/find.go: the secrets
-- with the node keys. The random key of an ordinal, marshalled, is the parameter `random_key`.
pub mod Reuse
use cosmos_operator.Common.{
  ℕ, Text, txt, text_eq, text_Eq, List, [], ◌∷◌, ◌++◌, ◌&&◌, Bool, true, Option, none, some, lookup,
  find, format_nat, pos, if◌then◌else◌,
}
use cosmos_operator.Kube.Client.{ApiError, Answer, found, failed}
use cosmos_operator.Kube.Labels.{to_name}
use cosmos_operator.Kube.Meta.{ObjectMeta, Object}
use cosmos_operator.Diff.{Resource, adapted}
use cosmos_operator.FullNode.{
  FullNode, app_name, instance_name, instance_label, default_labels, set_labels, ordinals, new_meta,
}

pub record SecretBody : Type 0 where
  pub contents : List (Text × Text)
  pub immutable : Bool
  pub kind : Text

abbrev pub Secret : Type 0
Secret = Object SecretBody

unfoldable pub node_key_secret_name : FullNode → ℕ → Text
node_key_secret_name crd i = to_name (app_name crd ++ (txt "-node-key-" ++ format_nat i))

abbrev pub node_key_file : Text
node_key_file = txt "node_key.json"

-- `FindOrDefaultCopy`, of the data: those of the first secret of that name, or none.
abbrev pub data_or_empty : Option Secret → List (Text × Text)
data_or_empty none = []
data_or_empty (some s) = s.body.contents

abbrev pub find_secret : FullNode → ℕ → List Secret → Option Secret
find_secret crd i existing =
    find
      (λ s.
        text_eq s.meta.name (node_key_secret_name crd i)
        && text_eq s.meta.namespace crd.meta.namespace)
      existing

module _ (random_key : ℕ → Answer Text) where
  -- The data of a secret: those that exist, or a new key.
  unfoldable pub key_data : ℕ → List (Text × Text) → Answer (List (Text × Text))
  key_data i contents = elim (lookup node_key_file contents) [
    | some _ ↦ found contents
    | none ↦ elim (random_key i) [ failed e ↦ failed e | found k ↦ found ((node_key_file, k) ∷ []) ]
  ]

  abbrev pub node_key_secret : FullNode → ℕ → List (Text × Text) → Secret
  node_key_secret crd i contents = record {
    meta =
        new_meta crd.meta.namespace (node_key_secret_name crd i)
          (set_labels ((instance_label, instance_name crd i) ∷ []) (default_labels crd)) [];
    body = record { contents = contents; immutable = true; kind = txt "Opaque" };
  }

  module _ (hash : Secret → Text) (existing : List Secret) (crd : FullNode) where
    unfoldable pub build_each : List ℕ → Answer (List (Resource SecretBody))
    unfolding key_data
    build_each [] = found []
    build_each (i ∷ is) =
        let rest = build_each is in
        elim (key_data i (data_or_empty (find_secret crd i existing))) [
          | failed e ↦ failed e
          | found contents ↦ elim rest [
            | failed e ↦ failed e
            | found rs ↦
                let s = node_key_secret crd i contents in found (adapted s (pos i) (hash s) ∷ rs)
          ]
        ]

    unfoldable pub build_node_key_secrets : Answer (List (Resource SecretBody))
    unfolding build_each
    build_node_key_secrets = build_each (ordinals crd)
