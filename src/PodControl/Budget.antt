-- ===== src/PodControl/Budget.antt =====
-- How many pods an update round of internal/fullnode/pod_control.go takes away.
use cosmos_operator.Common.{
  ℕ, suc, ◌+◌, ◌-◌, ◌≤◌, Text, txt, List, [], ◌∷◌, ◌++◌, false, ◌≡◌, ◌⊎◌, inl, inr, none, arith,
  text_Eq, lookup, ℤ, pos, ◌≤ℤ◌, leb_ℤ, Checked, ok, Option-cases,
}
use cosmos_operator.PodControl.{
  Pod, PodApi, Session, Request, create_pod, delete_pod, Scan, no_scan, pod_name, replace_pod,
  scan_pods, roll_pods, ready_pods, update_pods, find_update, count_pod,
}

-- The deletions that were asked for.
abbrev pub count_deletes : List Request → ℕ
count_deletes [] = 0
count_deletes (create_pod _ ∷ qs) = count_deletes qs
count_deletes (delete_pod _ ∷ qs) = suc (count_deletes qs)

abbrev pub deletions : Session → ℕ
deletions s = count_deletes s.requests

module _ (api : PodApi) where
  replace_pod-deletions :
      (name message : Text) (p : Pod) (s : Session)
      → deletions (replace_pod api name message p s).1 ≡ suc (deletions s)
  unfolding replace_pod
  replace_pod-deletions name message p s = ground arith

  -- Up to the rollout number, from a count below it.
  roll_pods-deletions :
      (n : ℤ) (ps : List Pod) (updated : ℕ) (s : Session)
      → leb_ℤ n (pos updated) ≡ false
      → let out = roll_pods api n ps updated s in
        (deletions s ≤ deletions out.2) × (pos (updated + (deletions out.2 - deletions s)) ≤ℤ n)
  unfolding roll_pods
  roll_pods-deletions n [] updated s h = ground arith
  roll_pods-deletions n (p ∷ ps) updated s h =
      let out = replace_pod api (pod_name p) (txt "update in progress") p s in
      ground (
        arith,
        replace_pod-deletions (pod_name p) (txt "update in progress") p s,
        roll_pods-deletions n ps (suc updated) out.1,
      )

  -- The loop over the existing pods counts each pod that it asks to delete.
  scan_pods-deletions :
      (ps updates : List Pod) (c : Scan) (s : Session)
      → let out = scan_pods api ps updates c s in
        deletions out.2 + c.updated_pods ≡ deletions s + out.1.updated_pods
  unfolding scan_pods
  scan_pods-deletions [] updates c s = omega arith
  scan_pods-deletions (p ∷ ps) updates c s =
      elim (Option-cases (find_update (pod_name p) updates)) [
        | inl none_u ↦ ground (
          arith,
          scan_pods-deletions ps updates c s,
          scan_pods-deletions ps updates (count_pod (lookup (pod_name p) s.sync_info) c) s,
        )
        | inr (u, some_u) ↦
            let c' = count_pod (lookup (pod_name p) s.sync_info) c in
            let waiting = record c' { other_updates = c'.other_updates ++ (u ∷ []) } in
            let c'' = record c' { updated_pods = suc c'.updated_pods } in
            let message = txt "version upgrade in progress" in
            ground (
              arith,
              scan_pods-deletions ps updates c s,
              scan_pods-deletions ps updates waiting s,
              scan_pods-deletions ps updates c'' (replace_pod api (pod_name p) message u s).1,
              replace_pod-deletions (pod_name p) message u s,
            )
      ]

  -- Once the loop over the existing pods has ended and the rollout number `n` is computed: the pods
  -- that the round asks to delete are those that it upgraded at once, or no more than `n`.
  pub update_pods-deletions :
      (compute_rollout : ℕ → Checked ℤ) (items updates : List Pod) (s : Session) {n : ℤ}
      → let scan = scan_pods api items updates no_scan s in
        scan.0 ≡ none
        → compute_rollout (ready_pods scan.1) ≡ ok n
        → let taken = deletions (update_pods api compute_rollout items updates s).1 - deletions s in
          (taken ≡ scan.1.updated_pods) ⊎ (pos taken ≤ℤ n)
  unfolding update_pods
  update_pods-deletions compute_rollout items updates s {n} e k =
      let scan = scan_pods api items updates no_scan s in
      ground (
        arith,
        scan_pods-deletions items updates no_scan s,
        roll_pods-deletions n scan.1.other_updates scan.1.updated_pods scan.2,
      )
