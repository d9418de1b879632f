-- ===== src/FullNode/Drift/Lag.antt =====
-- Which pods, and how many, internal/fullnode/drift_detection.go takes down.
use mathlib.Core.List.{Memᴰ}
use mathlib.Core.List.Memᴰ.{head, tail, cases_cons, of_map}
use mathlib.Core.Path.{subst}
use cosmos_operator.Common.{
  ℕ, zero, suc, ◌+◌, ◌≤◌, List, [], ◌∷◌, Bool, true, ◌≡◌, ◌⊎◌, ap, sym, ◌∙◌, Option, some, arith,
  take, select, length, length-take-le, Bool-cases, inl, inr, ℤ, pos, pos_part, ◌-ℤ◌, ◌≤ℤ◌,
  Checked-cases, ok,
}
use cosmos_operator.Kube.Pod.{Pod, available_pods}
use cosmos_operator.Kube.Rollout.{IntOrString, compute_rollout, or_default, at_least_one}
use cosmos_operator.Kube.Rollout.Safety.{compute_rollout_safe}
use cosmos_operator.Cosmos
use cosmos_operator.Cosmos.{is_synced, StatusItem, StatusCollection, synced, pods_of}
use cosmos_operator.FullNode.{FullNode}
use cosmos_operator.FullNode.Drift.{
  height_of, max_from, max_height, is_lagging, lagging_items, lagging_pods,
}

max_from-le :
    (best : StatusItem) (items : StatusCollection)
    → height_of best ≤ height_of (max_from best items)
max_from-le best [] = omega arith
max_from-le best (a ∷ items) = ground (arith, max_from-le a items, max_from-le best items)

max_from-member :
    (item best : StatusItem) (items : StatusCollection)
    → Memᴰ item items
    → height_of item ≤ height_of (max_from best items)
max_from-member item best [] m = elim m [ ]
max_from-member item best (a ∷ items) (head e) =
    let same : height_of item ≡ height_of a = ap height_of e in
    ground (arith, same, max_from-le a items, max_from-le best items)
max_from-member item best (a ∷ items) (tail m) =
    ground (arith, max_from-member item a items m, max_from-member item best items m)

max_height-le :
    (item : StatusItem) (items : StatusCollection)
    → Memᴰ item items
    → height_of item ≤ max_height items
unfolding max_height
max_height-le item [] m = elim m [ ]
max_height-le item (a ∷ items) (head e) =
    let same : height_of item ≡ height_of a = ap height_of e in
    ground (arith, same, max_from-le a items)
max_height-le item (a ∷ items) (tail m) = max_from-member item a items m

select-member :
    (p : StatusItem → Bool) (item : StatusItem) (items : StatusCollection)
    → Memᴰ item (select p items)
    → Memᴰ item items × (p item ≡ true)
select-member p item [] m = elim m [ ]
select-member p item (a ∷ items) m = elim (Bool-cases (p a)) [
  | inl e ↦
      let kept : select p (a ∷ items) ≡ a ∷ select p items = ground arith in
      elim (cases_cons (subst (Memᴰ item) kept m)) [
        | inl same ↦ (head same, ap p same ∙ e)
        | inr later ↦ let r = select-member p item items later in (tail r.0, r.1)
      ]
  | inr e ↦
      let kept : select p (a ∷ items) ≡ select p items = ground arith in
      let r = select-member p item items (subst (Memᴰ item) kept m) in (tail r.0, r.1)
]

take-member : (n : ℕ) (p : Pod) (ps : List Pod) → Memᴰ p (take n ps) → Memᴰ p ps
take-member zero p ps m = elim m [ ]
take-member (suc n) p [] m = m
take-member (suc n) p (q ∷ ps) (head e) = head e
take-member (suc n) p (q ∷ ps) (tail m) = tail (take-member n p ps m)

-- An item of the collection with the pod, in sync, at least the threshold behind another one in sync,
-- and behind no more than the highest one.
pub record IsBehind (threshold : ℕ) (items : StatusCollection) (p : Pod) : Type 0 where
  pub item : StatusItem
  pub is_pod : p ≡ item.pod
  pub member : Memᴰ item items
  pub synced : is_synced item ≡ true
  pub behind : threshold + height_of item ≤ max_height (Cosmos.synced items)

lagging-IsBehind :
    (threshold : ℕ) (items : StatusCollection) (p : Pod)
    → 1 ≤ threshold
    → Memᴰ p (pods_of (lagging_items threshold (synced items)))
    → IsBehind threshold items p
unfolding lagging_items synced
lagging-IsBehind threshold items p h m =
    let r = of_map (λ i. i.pod) (lagging_items threshold (synced items)) m in
    let max = max_height (synced items) in
    let lag = select-member (is_lagging max threshold) r.0 (synced items) r.1 in
    let ok = select-member is_synced r.0 items lag.0 in
    record {
      item = r.0;
      is_pod = sym r.2;
      member = ok.0;
      synced = ok.1;
      behind = ground (arith, lag.1);
    }

fewer :
    (k : ℕ) (n a r : ℤ) → k ≤ pos_part n → (n ≡ pos 0) ⊎ (a ≤ℤ r -ℤ n) → (k ≡ 0) ⊎ (a ≤ℤ r -ℤ pos k)
unfolding ◌-ℤ◌
fewer k n a r h s = ground arith

module _ (scaled_value : IntOrString → ℤ → Option ℤ) (now : ℕ) (crd : FullNode) (threshold : ℕ)
    (items : StatusCollection) where
  lagging_pods-take :
      {pods : List Pod}
      → lagging_pods scaled_value now crd threshold items ≡ ok pods
      → (n : ℤ) × (compute_rollout scaled_value crd.body.spec.max_unavailable
            (pos crd.body.spec.replicas)
            (pos (length (available_pods (pods_of (synced items)) 5000000000 now)))
          ≡ ok n)
        × (pods ≡ take (pos_part n) (pods_of (lagging_items threshold (synced items))))
  unfolding lagging_pods
  lagging_pods-take {pods} e =
      elim (Checked-cases (
        compute_rollout scaled_value crd.body.spec.max_unavailable (pos crd.body.spec.replicas)
          (pos (length (available_pods (pods_of (synced items)) 5000000000 now))))) [
            | inl x ↦ ground arith
            | inr (n, x) ↦ (n, x, ground arith)
          ]

  -- Each pod that counts as lagging has an item in sync whose height is at least the threshold below
  -- that of the highest item in sync. There are none, or so few that of the available pods in sync as
  -- many are left as the rollout strategy wants: the desired count less the scaled threshold, raised
  -- to 1. The threshold of the heights is at least 1.
  pub lagging_pods-IsBehind :
      {pods : List Pod} {unavail : ℤ}
      → lagging_pods scaled_value now crd threshold items ≡ ok pods
      → 1 ≤ threshold
      → scaled_value (or_default crd.body.spec.max_unavailable) (pos crd.body.spec.replicas)
        ≡ some unavail
      → let ready = length (available_pods (pods_of (synced items)) 5000000000 now) in
        ((p : Pod) → Memᴰ p pods → IsBehind threshold items p)
        × ((length pods ≡ 0)
            ⊎ (pos crd.body.spec.replicas -ℤ at_least_one unavail
                ≤ℤ pos ready -ℤ pos (length pods)))
  lagging_pods-IsBehind {pods} {unavail} e h u =
      let t = lagging_pods-take {pods = pods} e in
      let all = pods_of (lagging_items threshold (synced items)) in
      let ready = length (available_pods (pods_of (synced items)) 5000000000 now) in
      let safe =
        compute_rollout_safe scaled_value crd.body.spec.max_unavailable (pos crd.body.spec.replicas)
          (pos ready) {n = t.0} u t.1 in
      let few : length pods ≤ pos_part t.0 =
        rw (ap length t.2) (length-take-le (pos_part t.0) all) in
      (
        λ p m.
            lagging-IsBehind threshold items p h
              (take-member (pos_part t.0) p all (subst (Memᴰ p) t.2 m)),
        fewer (length pods) t.0 (pos crd.body.spec.replicas -ℤ at_least_one unavail) (pos ready) few
            safe.2,
      )
