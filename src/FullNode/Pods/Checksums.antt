-- ===== src/FullNode/Pods/Checksums.antt =====
-- What a failure of internal/fullnode/configmap_control.go means for the pods of build_pods.go.
use mathlib.Core.Path.{subst}
use cosmos_operator.Common.{
  ℕ, Text, txt, text_Eq, key_Eq, List, [], ◌∷◌, ◌≡◌, ap, sym, ◌∙◌, Option, none, some, lookup,
  lookup-insert_self, arith, ok, Checked-cases, Bool-cases, inl, inr,
}
use cosmos_operator.Kube.Client.{ApiError, Answer, Answer-cases, found}
use cosmos_operator.Kube.Errors.{ReconcileError}
use cosmos_operator.Kube.Pod.{Pod, PodBody}
use cosmos_operator.Diff.{Resource, object, new}
use cosmos_operator.FullNode.{FullNode, ordinals}
use cosmos_operator.FullNode.Objects.{
  ConfigChecksums, ObjectApi, checksums_or_error, apply_config_maps, reconcile_config_maps,
}
use cosmos_operator.FullNode.Pods.{is_candidate, add_pod, build_pod, build_each, build_pods}

module _ {ℓ} {B : Type ℓ} where
  checksums_or_error-empty :
      (want : List (Resource B)) (o : Option ApiError) {cksums : ConfigChecksums}
      {e : ReconcileError}
      → checksums_or_error want o ≡ (cksums, some e)
      → cksums ≡ []
  checksums_or_error-empty want none q = ground arith
  checksums_or_error-empty want (some x) q = ground arith

  reconcile_config_maps-empty :
      (api : ObjectApi B) (want : Answer (List (Resource B))) {cksums : ConfigChecksums}
      {e : ReconcileError}
      → (reconcile_config_maps api want).0 ≡ ok (cksums, some e)
      → cksums ≡ []
  unfolding reconcile_config_maps
  reconcile_config_maps-empty api want {cksums} {e} q = elim (Answer-cases api.list) [
    | inr (x, l) ↦ ground arith
    | inl (current, l) ↦ elim (Answer-cases want) [
      | inr (x, w) ↦ ground arith
      | inl (resources, w) ↦ elim (Checked-cases (new current resources)) [
        | inl n ↦ ground arith
        | inr (d, n) ↦
            checksums_or_error-empty resources (apply_config_maps api d).0 {e = e} (ground arith)
      ]
    ]
  ]

abbrev key : Text
key = txt "cosmos.bharvest.io/config-checksum"

-- The checksum in the annotations of a wanted pod.
abbrev pub checksum_of : Resource PodBody → Option Text
checksum_of r = lookup key (object r).meta.annotations

abbrev pub AllUnstamped : List (Resource PodBody) → Type 0
AllUnstamped [] = Unit
AllUnstamped (r ∷ rs) = (checksum_of r ≡ some []) × AllUnstamped rs

module _ (hash : Pod → Text) (merged : ℕ → Answer Pod) (crd : FullNode) where
  add_pod-AllUnstamped :
      (i : ℕ) (p : Option Pod) (rs : List (Resource PodBody))
      → AllUnstamped rs
      → AllUnstamped (add_pod hash crd [] i p rs)
  unfolding object lookup
  add_pod-AllUnstamped i none rs h = h
  add_pod-AllUnstamped i (some p) rs h = elim (Bool-cases (is_candidate crd p.meta.name)) [
    | inl e ↦ rw (add_pod, e) h
    | inr e ↦ rw (add_pod, e) (lookup-insert_self key [] p.meta.annotations, h)
  ]

  build_each-AllUnstamped :
      (is : List ℕ) {rs : List (Resource PodBody)}
      → build_each hash merged crd [] is ≡ found rs
      → AllUnstamped rs
  unfolding build_each
  build_each-AllUnstamped [] {rs} q =
      let whole : [] ≡ rs = ground arith in subst AllUnstamped whole tt
  build_each-AllUnstamped (i ∷ is) {rs} q = elim (Answer-cases (build_pod crd i (merged i))) [
    | inr (x, b) ↦ ground arith
    | inl (p, b) ↦ elim (Answer-cases (build_each hash merged crd [] is)) [
      | inr (x, t) ↦ ground arith
      | inl (rest, t) ↦
          let whole : add_pod hash crd [] i p rest ≡ rs = ground arith in
          subst AllUnstamped whole
            (add_pod-AllUnstamped i p rest (build_each-AllUnstamped is {rs = rest} t))
    ]
  ]

-- After the control of the config maps returned an error, every pod that is wanted carries an empty
-- checksum, whatever its config map.
pub failed_config-AllUnstamped {ℓ} :
    {B : Type ℓ} (api : ObjectApi B) (want : Answer (List (Resource B))) (hash : Pod → Text)
    (merged : ℕ → Answer Pod) (crd : FullNode) {cksums : ConfigChecksums} {e : ReconcileError}
    {rs : List (Resource PodBody)}
    → (reconcile_config_maps api want).0 ≡ ok (cksums, some e)
    → build_pods hash merged crd cksums ≡ found rs
    → AllUnstamped rs
unfolding build_pods
failed_config-AllUnstamped api want hash merged crd {cksums} {e} {rs} f b =
    let empty = reconcile_config_maps-empty api want {cksums = cksums} {e = e} f in
    build_each-AllUnstamped hash merged crd (ordinals crd) {rs = rs}
      (ap (λ c. build_each hash merged crd c (ordinals crd)) (sym empty) ∙ b)
