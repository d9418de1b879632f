-- ===== src/FullNode/Pods/Keys.antt =====
-- The keys of the pods of internal/fullnode/build_pods.go.
use mathlib.Core.Path.{subst}
use cosmos_operator.Common.{
  ℕ, ◌+◌, ◌<◌, ◌≤◌, ◌^◌, zero, suc, Text, List, [], ◌∷◌, ◌≡◌, refl, ap, sym, ◌∙◌, Option, none,
  some, key_eq_iff, arith, inl, inr, Bool-cases,
}
use cosmos_operator.Kube.Client.{Answer, Answer-cases, found}
use cosmos_operator.Kube.Meta.{object_key}
use cosmos_operator.Kube.Pod.{Pod, PodBody}
use cosmos_operator.Diff.{Resource, object}
use cosmos_operator.Diff.Sets.{pick, IsDistinct}
use cosmos_operator.FullNode.{FullNode, instance_name, ordinals_from}
use cosmos_operator.FullNode.Objects.{ConfigChecksums}
use cosmos_operator.FullNode.Ordinals.{key_of, key_of-differs}
use cosmos_operator.FullNode.Pods.{is_candidate, add_pod, build_pod, build_each, build_pods}

module _ (hash : Pod → Text) (merged : ℕ → Answer Pod) (crd : FullNode)
    (named : (i : ℕ) (p : Pod)
      → merged i ≡ found p
      → (p.meta.namespace ≡ crd.meta.namespace) × (p.meta.name ≡ instance_name crd i)) where
  pub build_pod-key :
      (i : ℕ) {p : Pod} → build_pod crd i (merged i) ≡ found (some p) → object_key p ≡ key_of crd i
  unfolding build_pod cosmos_operator.Kube.Labels.normalize_metadata
  build_pod-key i {p} b = elim (Answer-cases (merged i)) [
    | inr (x, l) ↦ ground arith
    | inl (m, l) ↦ let n = named i m l in ground (arith, n.0, n.1)
  ]

  module _ (cksums : ConfigChecksums) where
    -- What a round adds: a pod with the key of the ordinal, or nothing.
    abbrev Round : ℕ → List ℕ → List (Resource PodBody) → Type 0
    Round i is qs =
        (p : Option Pod) × (rest : List (Resource PodBody)) × (qs
          ≡ add_pod hash crd cksums i p rest)
        × (build_each hash merged crd cksums is ≡ found rest)
        × ((q : Pod) → p ≡ some q → object_key q ≡ key_of crd i)

    pub build_each-Round :
        (i : ℕ) (is : List ℕ) {qs : List (Resource PodBody)}
        → build_each hash merged crd cksums (i ∷ is) ≡ found qs
        → Round i is qs
    unfolding build_each
    build_each-Round i is {qs} b = elim (Answer-cases (build_pod crd i (merged i))) [
      | inr (x, e) ↦ ground arith
      | inl (p, e) ↦ elim (Answer-cases (build_each hash merged crd cksums is)) [
        | inr (x, t) ↦ ground arith
        | inl (rest, t) ↦
            (p, rest, ground arith, t, λ q s. build_pod-key i {p = q} (e ∙ ap found s))
      ]
    ]

    pick-add_pod :
        (i j : ℕ) (p : Option Pod) (rest : List (Resource PodBody))
        → i < j
        → j < 2 ^ 31
        → ((q : Pod) → p ≡ some q → object_key q ≡ key_of crd j)
        → pick (key_of crd i) rest ≡ none
        → pick (key_of crd i) (add_pod hash crd cksums j p rest) ≡ none
    unfolding object
    pick-add_pod i j none rest l b k h = h
    pick-add_pod i j (some p) rest l b k h =
        let other = key_of-differs crd i j l b in
        ground (arith, h, k p refl, other, key_eq_iff (object_key p) (key_of crd i))

    pick-build_each :
        (i j n : ℕ) {qs : List (Resource PodBody)}
        → i < j
        → j + n ≤ 2 ^ 31
        → build_each hash merged crd cksums (ordinals_from j n) ≡ found qs
        → pick (key_of crd i) qs ≡ none
    unfolding build_each
    pick-build_each i j zero {qs} l b q =
        let nil : [] ≡ qs = ground arith in subst (λ l. pick (key_of crd i) l ≡ none) nil refl
    pick-build_each i j (suc n) {qs} l b q =
        let (p, rest, whole, more, k) = build_each-Round j (ordinals_from (suc j) n) {qs = qs} q in
        let later =
          pick-build_each i (suc j) n {qs = rest} (omega (arith, l)) (omega (arith, b)) more in
        subst (λ l. pick (key_of crd i) l ≡ none) (sym whole)
          (pick-add_pod i j p rest l (omega (arith, b)) k later)

    add_pod-IsDistinct :
        (i : ℕ) (p : Option Pod) (rest : List (Resource PodBody))
        → ((q : Pod) → p ≡ some q → object_key q ≡ key_of crd i)
        → pick (key_of crd i) rest ≡ none
        → IsDistinct rest
        → IsDistinct (add_pod hash crd cksums i p rest)
    unfolding object
    add_pod-IsDistinct i none rest k h d = d
    add_pod-IsDistinct i (some p) rest k h d = elim (Bool-cases (is_candidate crd p.meta.name)) [
      | inl e ↦ rw (add_pod, e) d
      | inr e ↦ rw (add_pod, e) (subst (λ x. pick x rest ≡ none) (sym (k p refl)) h, d)
    ]

    build_each-IsDistinct :
        (i n : ℕ) {qs : List (Resource PodBody)}
        → i + n ≤ 2 ^ 31
        → build_each hash merged crd cksums (ordinals_from i n) ≡ found qs
        → IsDistinct qs
    unfolding build_each
    build_each-IsDistinct i zero {qs} b q =
        let nil : [] ≡ qs = ground arith in subst IsDistinct nil tt
    build_each-IsDistinct i (suc n) {qs} b q =
        let (p, rest, whole, more, k) = build_each-Round i (ordinals_from (suc i) n) {qs = qs} q in
        subst IsDistinct (sym whole) (
          add_pod-IsDistinct i p rest k
            (pick-build_each i (suc i) n {qs = rest} (omega arith) (omega (arith, b)) more)
            (build_each-IsDistinct (suc i) n {qs = rest} (omega (arith, b)) more))

    -- With an int32 of replicas, no two pods that are built have one key.
    pub build_pods-IsDistinct :
        {qs : List (Resource PodBody)}
        → crd.body.spec.replicas < 2 ^ 31
        → build_pods hash merged crd cksums ≡ found qs
        → IsDistinct qs
    unfolding build_pods
    build_pods-IsDistinct {qs} l b =
        build_each-IsDistinct 0 crd.body.spec.replicas {qs = qs} (omega (arith, l)) b
