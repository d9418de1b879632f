-- ===== src/PodControl.antt =====
-- internal/fullnode/pod_control.go: one reconcile of the pods of a full node. The API server's
-- answers are the record `PodApi`; what was sent, the sync info and the pods to invalidate are the
-- session. The wanted pods come as the result of `BuildPods`. A nil dereference is a panic.
pub mod Panics
pub mod Budget
pub mod Scaling
use cosmos_operator.Common.{
  ℕ, suc, ◌+◌, Text, txt, text_eq, List, [], ◌∷◌, ◌++◌, Bool, true, false, Option, none, some,
  text_Eq, lookup, insert, delete, length, leb, ltb, ◌==◌, if◌then◌else◌, ℤ, pos, leb_ℤ, Checked,
  panic, ok,
}
use cosmos_operator.Kube.Client.{
  ApiError, Answer, found, failed, ignore_not_found, ignore_already_exists,
}
use cosmos_operator.Kube.Errors.{ReconcileError, transient_error, unrecoverable_error}
use cosmos_operator.Kube.Meta.{ObjectMeta, Object}
use cosmos_operator.Diff.{Diff, Resource, new}

-- The images of a pod's containers; the API server admits no pod without one.
pub record PodBody : Type 0 where
  pub image : Text
  pub other_images : List Text

abbrev pub Pod : Type 0
Pod = Object PodBody

abbrev pub pod_name : Pod → Text
pod_name p = p.meta.name

-- `SyncInfoPodStatus`.
pub record SyncInfoPodStatus : Type 0 where
  pub timestamp : ℕ
  pub height : Option ℕ
  pub in_sync : Option Bool
  pub error : Option Text

abbrev pub SyncInfo : Type 0
SyncInfo = List (Text × SyncInfoPodStatus)

pub data Request : Type 0 where
  create_pod : Pod → Request
  delete_pod : Pod → Request

pub record Session : Type 0 where
  pub requests : List Request  -- the latest first
  pub sync_info : SyncInfo
  pub invalidate_cache : List Text

pub data Outcome : Type 0 where
  returns : Bool → Option ReconcileError → Outcome
  panics : Outcome

pub record PodApi : Type 0 where
  pub list_pods : Answer (List Pod)
  pub set_owner : Pod → Option ApiError
  pub create : Pod → Option ApiError
  pub delete : Pod → Option ApiError

abbrev pub send : Request → Session → Session
send q s = record s { requests = q ∷ s.requests }

abbrev pub invalidate : Text → Session → Session
invalidate name s = record s { invalidate_cache = s.invalidate_cache ++ (name ∷ []) }

abbrev pub give_up : ApiError → Outcome
give_up e = returns true (some (transient_error e))

-- `syncInfo[podName].InSync = nil` and `.Error = ptr(…)`: `none` where the map has no such pod.
unfoldable pub mark_updating : Text → Text → SyncInfo → Option SyncInfo
mark_updating name message m = elim (lookup name m) [
  | none ↦ none
  | some st ↦ some (insert name (record st { in_sync = none; error = some message }) m)
]

-- The counters of the loop over the existing pods.
pub record Scan : Type 0 where
  pub updated_pods : ℕ
  pub rpc_reachable_pods : ℕ
  pub in_sync_pods : ℕ
  pub other_updates : List Pod

abbrev pub is_in_sync : Option SyncInfoPodStatus → Bool
is_in_sync none = false
is_in_sync (some st) = elim st.in_sync [ none ↦ false | some b ↦ b ]

abbrev pub is_reachable : Option SyncInfoPodStatus → Bool
is_reachable none = false
is_reachable (some st) = elim st.error [ none ↦ true | some _ ↦ false ]

abbrev pub count_if : Bool → ℕ → ℕ
count_if true n = suc n
count_if false n = n

-- The first update of that name.
abbrev pub find_update : Text → List Pod → Option Pod
find_update name [] = none
find_update name (u ∷ us) = if text_eq name (pod_name u) then some u else find_update name us

abbrev pub forget : Pod → Session → Session
forget p s = record s { sync_info = delete (pod_name p) s.sync_info }

abbrev pub count_pod : Option SyncInfoPodStatus → Scan → Scan
count_pod st c = record c {
  in_sync_pods = count_if (is_in_sync st) c.in_sync_pods;
  rpc_reachable_pods = count_if (is_reachable st) c.rpc_reachable_pods;
}

module _ (api : PodApi) where
  -- The loop over the creates; an outcome ends the reconcile.
  unfoldable pub create_pods : List Pod → Session → Option Outcome × Session
  create_pods [] s = (none, s)
  create_pods (p ∷ ps) s = elim (api.set_owner p) [
    | some e ↦ (some (give_up e), s)
    | none ↦ elim (ignore_already_exists (api.create p)) [
      | some e ↦ (some (give_up e), send (create_pod p) s)
      | none ↦ create_pods ps (send (create_pod p) s)
    ]
  ]

  unfoldable pub delete_pods : List Pod → Session → Option Outcome × Session
  delete_pods [] s = (none, s)
  delete_pods (p ∷ ps) s = elim (ignore_not_found (api.delete p)) [
    | some e ↦ (some (give_up e), send (delete_pod p) s)
    | none ↦ delete_pods ps (invalidate (pod_name p) (forget p (send (delete_pod p) s)))
  ]

  -- The deletion of a pod that is recreated by the next reconcile.
  unfoldable pub replace_pod : Text → Text → Pod → Session → Option Outcome × Session
  replace_pod name message p s = elim (ignore_not_found (api.delete p)) [
    | some e ↦ (some (give_up e), send (delete_pod p) s)
    | none ↦ elim (mark_updating name message s.sync_info) [
      | none ↦ (some panics, send (delete_pod p) s)
      | some m ↦ (none, invalidate name (record (send (delete_pod p) s) { sync_info = m }))
    ]
  ]

  -- The loop over the existing pods: a pod with another image that cannot be reached is replaced
  -- at once, any other update waits.
  unfoldable pub scan_pods : List Pod → List Pod → Scan → Session → Option Outcome × Scan × Session
  scan_pods [] updates c s = (none, c, s)
  scan_pods (p ∷ ps) updates c s = elim p.meta.deletion_timestamp [
    | some _ ↦ scan_pods ps updates c s
    | none ↦
        let st = lookup (pod_name p) s.sync_info in
        let c' = count_pod st c in
        elim (find_update (pod_name p) updates) [
          | none ↦ scan_pods ps updates c' s
          | some u ↦
              let wait =
                scan_pods ps updates (record c' { other_updates = c'.other_updates ++ (u ∷ []) })
                  s in
              if text_eq p.body.image u.body.image
              then wait
              else if is_reachable st
              then wait
              else let c'' = record c' { updated_pods = suc c'.updated_pods } in
                let out = replace_pod (pod_name p) (txt "version upgrade in progress") u s in
                let rest = scan_pods ps updates c'' out.1 in
                elim out.0 [ some o ↦ (some o, c'', out.1) | none ↦ rest ]
        ]
  ]

  -- The loop over the other updates, until the rollout number is reached.
  unfoldable pub roll_pods : ℤ → List Pod → ℕ → Session → Option Outcome × ℕ × Session
  roll_pods n [] updated s = (none, updated, s)
  roll_pods n (p ∷ ps) updated s =
      let out = replace_pod (pod_name p) (txt "update in progress") p s in
      let rest = roll_pods n ps (suc updated) out.1 in
      elim out.0 [
        | some o ↦ (some o, updated, out.1)
        | none ↦ if leb_ℤ n (pos (suc updated)) then (none, suc updated, out.1) else rest
      ]

abbrev pub no_scan : Scan
no_scan = record { updated_pods = 0; rpc_reachable_pods = 0; in_sync_pods = 0; other_updates = [] }

-- The ready count of the rollout: the pods in sync, or those reachable if none is.
abbrev pub ready_pods : Scan → ℕ
ready_pods c = if c.in_sync_pods == 0 then c.rpc_reachable_pods else c.in_sync_pods

-- All pods are updated, or the reconcile is requeued.
abbrev pub conclude : ℕ → ℕ → Outcome
conclude updated total = if updated == total then returns false none else returns true none

module _ (api : PodApi) (compute_rollout : ℕ → Checked ℤ) where
  -- What follows the loop over the existing pods, with the rollout number.
  unfoldable pub roll_out : List Pod → Scan → ℤ → Session → Outcome × Session
  roll_out updates c n s =
      if c.updated_pods == length updates
      then (returns false none, s)
      else if leb_ℤ n (pos c.updated_pods)
      then (returns true none, s)
      else let out = roll_pods api n c.other_updates c.updated_pods s in
        elim out.0 [ some o ↦ (o, out.2) | none ↦ (conclude out.1 (length updates), out.2) ]

  unfoldable pub update_pods : List Pod → List Pod → Session → Outcome × Session
  unfolding roll_out
  update_pods items updates s =
      let out = scan_pods api items updates no_scan s in
      elim out.0 [
        | some o ↦ (o, out.2)
        | none ↦ elim (compute_rollout (ready_pods out.1)) [
          | panic ↦ (panics, out.2)
          | ok n ↦ roll_out updates out.1 n out.2
        ]
      ]

  -- The steps of a diff: first the scaling, then the updates.
  unfoldable pub apply_diff : List Pod → Diff PodBody → Session → Outcome × Session
  unfolding update_pods
  apply_diff items d s =
      let c = create_pods api d.creates s in
      let x = delete_pods api d.deletes c.1 in
      elim c.0 [
        | some o ↦ (o, c.1)
        | none ↦ elim x.0 [
          | some o ↦ (o, x.1)
          | none ↦
              if ltb 0 (length d.creates + length d.deletes)
              then (returns true none, x.1)
              else if ltb 0 (length d.updates)
              then update_pods items d.updates x.1
              else (returns false none, x.1)
        ]
      ]

  -- `Reconcile`; the wanted pods are what `BuildPods` returns. Its deferred call hands the names
  -- of `invalidate_cache` to the cache, whatever the outcome.
  unfoldable pub reconcile : Answer (List (Resource PodBody)) → SyncInfo → Outcome × Session
  unfolding apply_diff
  reconcile want sync_info =
      let s : Session = record { requests = []; sync_info = sync_info; invalidate_cache = [] } in
      elim api.list_pods [
        | failed e ↦ (returns false (some (transient_error e)), s)
        | found items ↦ elim want [
          | failed e ↦ (returns false (some (unrecoverable_error e)), s)
          | found resources ↦ elim (new items resources) [
            | panic ↦ (panics, s)
            | ok d ↦ apply_diff items d s
          ]
        ]
      ]
