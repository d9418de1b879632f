-- ===== src/PodControl/Scaling.antt =====
-- The order of the steps of internal/fullnode/pod_control.go, the availability in an
-- update round.
use cosmos_operator.Common.{
  ℕ, ◌+◌, ◌-◌, ◌<◌, List, [], false, ◌≡◌, ◌⊎◌, Option, none, some, arith, text_Eq, length, ℤ, pos,
  ◌≤ℤ◌, ◌-ℤ◌, Checked, ok,
}
use cosmos_operator.Kube.Rollout.{IntOrString, at_least_one, or_default, compute_rollout}
use cosmos_operator.Kube.Rollout.Safety.{compute_rollout_safe}
use cosmos_operator.Diff.{Diff}
use cosmos_operator.PodControl.{
  Pod, PodBody, PodApi, Session, returns, no_scan, scan_pods, ready_pods, update_pods, apply_diff,
  create_pods, delete_pods,
}
use cosmos_operator.PodControl.Budget.{deletions, update_pods-deletions}

module _ (api : PodApi) (compute : ℕ → Checked ℤ) where
  -- While pods are to be created or deleted, the updates of the diff have no effect: the requests,
  -- the sync info and the outcome are the same for any updates.
  pub apply_diff_scales_first :
      (items : List Pod) (d : Diff PodBody) (others : List Pod) (s : Session)
      → 0 < length d.creates + length d.deletes
      → apply_diff api compute items d s
        ≡ apply_diff api compute items (record d { updates = others }) s
  unfolding apply_diff
  apply_diff_scales_first items d others s h = ground arith

  -- With nothing to create, to delete or to update, nothing is sent and no requeue is asked for.
  pub apply_diff_settled :
      (items : List Pod) (d : Diff PodBody) (s : Session)
      → d.creates ≡ []
      → d.deletes ≡ []
      → d.updates ≡ []
      → apply_diff api compute items d s ≡ (returns false none, s)
  unfolding apply_diff create_pods delete_pods
  apply_diff_settled items d s c x u = rw (c, x, u)

weigh :
    (taken upgraded : ℕ) (m a r : ℤ)
    → (taken ≡ upgraded) ⊎ (pos taken ≤ℤ m)
    → (m ≡ pos 0) ⊎ (a ≤ℤ r -ℤ m)
    → (taken ≡ upgraded) ⊎ (taken ≡ 0) ⊎ (a ≤ℤ r -ℤ pos taken)
unfolding ◌-ℤ◌
weigh taken upgraded m a r h l = ground arith

-- The round with the operator's own rollout number: when it ends, it asked to delete just the pods
-- that it upgraded at once, or it leaves as many of the ready pods as the threshold wants. The
-- threshold is the scaled value of `maxUnavailable`, raised to 1.
pub update_pods-available :
    (scaled_value : IntOrString → ℤ → Option ℤ) (api : PodApi) (max_unavail : Option IntOrString)
    (desired : ℤ) (items updates : List Pod) (s : Session) {n unavail : ℤ}
    → let compute = λ (ready : ℕ). compute_rollout scaled_value max_unavail desired (pos ready) in
      let scan = scan_pods api items updates no_scan s in
      scan.0 ≡ none
      → compute (ready_pods scan.1) ≡ ok n
      → scaled_value (or_default max_unavail) desired ≡ some unavail
      → let taken = deletions (update_pods api compute items updates s).1 - deletions s in
        (taken ≡ scan.1.updated_pods)
        ⊎ (taken ≡ 0)
        ⊎ (desired -ℤ at_least_one unavail ≤ℤ pos (ready_pods scan.1) -ℤ pos taken)
update_pods-available scaled_value api max_unavail desired items updates s {n} {unavail} e k u =
    let compute = λ (ready : ℕ). compute_rollout scaled_value max_unavail desired (pos ready) in
    let ready = ready_pods (scan_pods api items updates no_scan s).1 in
    weigh (deletions (update_pods api compute items updates s).1 - deletions s)
      (scan_pods api items updates no_scan s).1.updated_pods n (desired -ℤ at_least_one unavail)
      (pos ready) (update_pods-deletions api compute items updates s {n = n} e k)
      (compute_rollout_safe scaled_value max_unavail desired (pos ready) {n = n} u k).2
