-- ===== src/FullNode/Claims/Control.antt =====
-- internal/fullnode/pvc_control.go: `PVCControl.Reconcile`. What was sent and the names of
-- `PVCStatusChanges` are the session.
use cosmos_operator.Common.{
  ℕ, ◌+◌, Text, text_eq, List, [], ◌∷◌, ◌++◌, Bool, true, false, not, Option, none, some, any,
  length, ltb, if◌then◌else◌, panic, ok,
}
use cosmos_operator.Kube.Client.{ApiError, found, failed, ignore_not_found, ignore_already_exists}
use cosmos_operator.Kube.Errors.{ReconcileError, transient_error}
use cosmos_operator.Kube.Meta.{ObjectMeta}
use cosmos_operator.Kube.Pod.{Pod}
use cosmos_operator.StuckHeight.{Volume}
use cosmos_operator.Diff.{Diff, new}
use cosmos_operator.FullNode.{Quantities, RetentionPolicy, retain, FullNode, ordinals}
use cosmos_operator.FullNode.Claims.{ClaimBody, Claim, is_bound, build_pvcs}
use cosmos_operator.FullNode.Claims.Sources.{ClaimApi, find_sources}

pub data Request : Type 0 where
  create_claim : Claim → Request
  delete_claim : Claim → Request
  -- The metadata and the resources of the claim.
  patch_claim : ObjectMeta → Option Quantities → Request

pub record Session : Type 0 where
  pub requests : List Request  -- the latest first
  pub deleted : List Text  -- `PVCStatusChanges`

pub data Outcome : Type 0 where
  returns : Bool → Option ReconcileError → Outcome
  panics : Outcome

abbrev pub claim_name : Claim → Text
claim_name c = c.meta.name

abbrev pub send : Request → Session → Session
send q s = record s { requests = q ∷ s.requests }

abbrev pub mark_deleted : Text → Session → Session
mark_deleted name s = record s { deleted = s.deleted ++ (name ∷ []) }

abbrev pub give_up : Bool → ApiError → Outcome
give_up requeue e = returns requeue (some (transient_error e))

abbrev pub mounts : Text → Volume → Bool
mounts name v = elim v.claim_name [ none ↦ false | some c ↦ text_eq c name ]

-- A pod that is being deleted, or that mounts the claim.
abbrev pub uses : Text → Pod → Bool
uses name p = elim p.meta.deletion_timestamp [
  | some _ ↦ true
  | none ↦ any (mounts name) p.body.volumes
]

unfoldable pub pvc_in_use : List Pod → Text → Bool
pvc_in_use pods name = any (uses name) pods

abbrev pub is_retain : Option RetentionPolicy → Bool
is_retain (some retain) = true
is_retain _ = false

unfoldable pub should_retain : FullNode → Bool
should_retain crd = is_retain crd.body.spec.retention_policy

-- The loop over the updates: an error is reported, and the loop goes on.
unfoldable pub patch_claims : List Claim → Session → Session
patch_claims [] s = s
patch_claims (c ∷ cs) s = patch_claims cs (send (patch_claim c.meta c.body.requests) s)

unfoldable pub update_claims : List Claim → List Claim → Session → Outcome × Session
unfolding patch_claims
update_claims current [] s = (returns false none, s)
update_claims current (u ∷ us) s =
    if any (λ c. not (is_bound c)) current
    then (returns true none, s)
    else (returns false none, patch_claims (u ∷ us) s)

module _ (api : ClaimApi) where
  unfoldable pub create_claims : List Claim → Session → Option Outcome × Session
  create_claims [] s = (none, s)
  create_claims (c ∷ cs) s = elim (api.set_owner c) [
    | some e ↦ (some (give_up true e), s)
    | none ↦ elim (ignore_already_exists (api.create c)) [
      | some e ↦ (some (give_up true e), send (create_claim c) s)
      | none ↦ create_claims cs (mark_deleted (claim_name c) (send (create_claim c) s))
    ]
  ]

  unfoldable pub delete_claims : List Pod → List Claim → Session → Option Outcome × Session
  unfolding pvc_in_use
  delete_claims pods [] s = (none, s)
  delete_claims pods (c ∷ cs) s =
      let rest = delete_claims pods cs (mark_deleted (claim_name c) (send (delete_claim c) s)) in
      if pvc_in_use pods (claim_name c)
      then (some (returns true none), s)
      else elim (ignore_not_found (api.delete c)) [
        | some e ↦ (some (give_up true e), send (delete_claim c) s)
        | none ↦ rest
      ]

  -- The deletes, unless the policy retains the claims: with the number of them.
  unfoldable pub delete_unless_retained :
      FullNode → List Claim → Session → Option Outcome × ℕ × Session
  unfolding delete_claims should_retain
  delete_unless_retained crd cs s = if should_retain crd then (none, 0, s) else elim api.list_pods [
    | failed e ↦ (some (give_up false e), 0, s)
    | found pods ↦ let out = delete_claims pods cs s in (out.0, length cs, out.1)
  ]

  unfoldable pub apply_diff : FullNode → List Claim → Diff ClaimBody → Session → Outcome × Session
  unfolding create_claims delete_unless_retained update_claims
  apply_diff crd current d s =
      let c = create_claims d.creates s in
      let x = delete_unless_retained crd d.deletes c.1 in
      elim c.0 [
        | some o ↦ (o, c.1)
        | none ↦ elim x.0 [
          | some o ↦ (o, x.2)
          | none ↦
              if ltb 0 (x.1 + length d.creates)
              then (returns true none, x.2)
              else update_claims current d.updates x.2
        ]
      ]

  unfoldable pub reconcile : (Claim → Text) → FullNode → Outcome × Session
  unfolding apply_diff find_sources build_pvcs
  reconcile hash crd =
      let s : Session = record { requests = []; deleted = [] } in
      elim api.list_claims [
        | failed e ↦ (give_up false e, s)
        | found current ↦ elim (find_sources api crd current (ordinals crd)) [
          | panic ↦ (panics, s)
          | ok sources ↦ elim (build_pvcs hash crd sources current) [
            | panic ↦ (panics, s)
            | ok want ↦ elim (new current want) [
              | panic ↦ (panics, s)
              | ok d ↦ apply_diff crd current d s
            ]
          ]
        ]
      ]
