-- ===== src/FullNode/NodeKeys/Reuse.antt =====
-- The node keys of internal/fullnode/node_key_builder.go are kept.
use mathlib.Core.Path.{subst}
use cosmos_operator.Common.{
  ℕ, Text, text_Eq, List, [], ◌∷◌, ◌≡◌, some, lookup, lookup-insert_self, insert, arith,
  Option-cases, inl, inr, pos, txt, ◌++◌, format_nat, true, refl,
}
use cosmos_operator.Kube.Client.{Answer, Answer-cases, found}
use cosmos_operator.Diff.{Resource, object, ordinal, adapted}
use cosmos_operator.FullNode.{FullNode, app_name, ordinals}
use cosmos_operator.Kube.Labels.{to_name}
use cosmos_operator.FullNode.NodeKeys.{
  Secret, SecretBody, node_key_file, data_or_empty, find_secret, key_data, node_key_secret,
  node_key_secret_name, build_each, build_node_key_secrets,
}

-- The secret of an ordinal has the ordinal's name in the resource's namespace and is immutable; it holds a
-- key, and the data of the existing secret of this name if these have one.
abbrev pub Keeps : List Secret → FullNode → ℕ → Resource SecretBody → Type 0
Keeps existing crd i r =
    let old = data_or_empty (find_secret crd i existing) in
    (ordinal r ≡ pos i)
    × ((object r).meta.name ≡ to_name (app_name crd ++ (txt "-node-key-" ++ format_nat i)))
    × ((object r).meta.namespace ≡ crd.meta.namespace)
    × ((object r).body.immutable ≡ true)
    × ((k : Text) × (lookup node_key_file (object r).body.contents ≡ some k))
    × ((k : Text) → lookup node_key_file old ≡ some k → (object r).body.contents ≡ old)

abbrev pub AllKeep : List Secret → FullNode → List ℕ → List (Resource SecretBody) → Type 0
AllKeep existing crd [] rs = rs ≡ []
AllKeep existing crd (i ∷ is) [] = ⊥
AllKeep existing crd (i ∷ is) (r ∷ rs) = Keeps existing crd i r × AllKeep existing crd is rs

single_key : (k : Text) → lookup node_key_file ((node_key_file, k) ∷ []) ≡ some k
unfolding insert
single_key k = lookup-insert_self node_key_file k []

module _ (random_key : ℕ → Answer Text) (hash : Secret → Text) (existing : List Secret)
    (crd : FullNode) where
  key_data-keeps :
      (i : ℕ) (old : List (Text × Text)) {new : List (Text × Text)}
      → key_data random_key i old ≡ found new
      → ((k : Text) × (lookup node_key_file new ≡ some k))
        × ((k : Text) → lookup node_key_file old ≡ some k → new ≡ old)
  unfolding key_data
  key_data-keeps i old {new} e = elim (Option-cases (lookup node_key_file old)) [
    | inr (k, l) ↦ ((k, ground arith), λ k' l'. ground arith)
    | inl l ↦ elim (Answer-cases (random_key i)) [
      | inr (x, r) ↦ ground arith
      | inl (k, r) ↦ ((k, ground (arith, single_key k)), λ k' l'. ground arith)
    ]
  ]

  build_each-AllKeep :
      (is : List ℕ) {rs : List (Resource SecretBody)}
      → build_each random_key hash existing crd is ≡ found rs
      → AllKeep existing crd is rs
  unfolding build_each object ordinal node_key_secret_name
  build_each-AllKeep [] {rs} e = ground arith
  build_each-AllKeep (i ∷ is) {rs} e =
      let old = data_or_empty (find_secret crd i existing) in
      elim (Answer-cases (key_data random_key i old)) [
        | inr (x, d) ↦ ground arith
        | inl (new, d) ↦ elim (Answer-cases (build_each random_key hash existing crd is)) [
          | inr (x, t) ↦ ground arith
          | inl (rest, t) ↦
              let keeps = key_data-keeps i old {new = new} d in
              let s = node_key_secret random_key crd i new in
              let whole : adapted s (pos i) (hash s) ∷ rest ≡ rs = ground arith in
              subst (AllKeep existing crd (i ∷ is)) whole
                ((refl, refl, refl, refl, keeps.0, keeps.1), build_each-AllKeep is {rs = rest} t)
        ]
      ]

-- The secrets that are wanted are one for each ordinal, with the name of the ordinal in the resource's
-- namespace, immutable, each with a key; where there is already a secret of this name with a key, it keeps
-- the data, whatever new keys are.
pub build_node_key_secrets-AllKeep :
    (random_key : ℕ → Answer Text) (hash : Secret → Text) (existing : List Secret) (crd : FullNode)
    {rs : List (Resource SecretBody)}
    → build_node_key_secrets random_key hash existing crd ≡ found rs
    → AllKeep existing crd (ordinals crd) rs
unfolding build_node_key_secrets
build_node_key_secrets-AllKeep random_key hash existing crd {rs} e =
    build_each-AllKeep random_key hash existing crd (ordinals crd) {rs = rs} e
