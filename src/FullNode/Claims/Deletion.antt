-- ===== src/FullNode/Claims/Deletion.antt =====
-- When `PVCControl.Reconcile` of internal/fullnode/pvc_control.go deletes and patches claims.
use cosmos_operator.Common.{
  Text, List, [], ◌∷◌, true, false, not, ◌≡◌, ◌≢◌, Option, none, some, any, Bool-cases,
  Option-cases, inl, inr, arith, Checked-cases, ltb, length, ◌+◌,
}
use cosmos_operator.Kube.Client.{found, Answer-cases, ignore_not_found, ignore_already_exists}
use cosmos_operator.Kube.Pod.{Pod}
use cosmos_operator.Diff.{Diff, new}
use cosmos_operator.Kube.Meta.{ObjectMeta}
use cosmos_operator.FullNode.{Quantities, retain, FullNode, ordinals}
use cosmos_operator.FullNode.Claims.{ClaimBody, Claim, is_bound, build_pvcs}
use cosmos_operator.FullNode.Claims.Sources.{ClaimApi, find_sources}
use cosmos_operator.FullNode.Claims.Control.{
  Request, create_claim, delete_claim, patch_claim, Session, claim_name, send, mounts, pvc_in_use,
  should_retain, create_claims, delete_claims, delete_unless_retained, patch_claims, update_claims,
  apply_diff, reconcile,
}

-- No pod is being deleted, and none mounts the claim.
abbrev pub IsUnused : Text → List Pod → Type 0
IsUnused name [] = Unit
IsUnused name (p ∷ ps) =
    (p.meta.deletion_timestamp ≡ none)
    × (any (mounts name) p.body.volumes ≡ false)
    × IsUnused name ps

abbrev pub AllBound : List Claim → Type 0
AllBound [] = Unit
AllBound (c ∷ cs) = (is_bound c ≡ true) × AllBound cs

-- What must hold of a request.
abbrev pub IsSafe : ClaimApi → FullNode → Request → Type 0
IsSafe api crd (create_claim c) = Unit
IsSafe api crd (delete_claim c) =
    (crd.body.spec.retention_policy ≢ some retain)
    × ((pods : List Pod) × (api.list_pods ≡ found pods) × IsUnused (claim_name c) pods)
IsSafe api crd (patch_claim m reqs) =
    (current : List Claim) × (api.list_claims ≡ found current) × AllBound current

abbrev pub All : (Request → Type 0) → List Request → Type 0
All P [] = Unit
All P (q ∷ qs) = P q × All P qs

pvc_in_use-IsUnused :
    (name : Text) (pods : List Pod) → pvc_in_use pods name ≡ false → IsUnused name pods
unfolding pvc_in_use
pvc_in_use-IsUnused name [] e = tt
pvc_in_use-IsUnused name (p ∷ ps) e =
    (ground arith, ground arith, pvc_in_use-IsUnused name ps (ground arith))

any-AllBound : (cs : List Claim) → any (λ c. not (is_bound c)) cs ≡ false → AllBound cs
any-AllBound [] e = tt
any-AllBound (c ∷ cs) e = (ground arith, any-AllBound cs (ground arith))

module _ (api : ClaimApi) (P : Request → Type 0) where
  create_claims-All :
      ((c : Claim) → P (create_claim c))
      → (cs : List Claim) (s : Session) → All P s.requests
      → All P (create_claims api cs s).1.requests
  unfolding create_claims
  create_claims-All p [] s h = h
  create_claims-All p (c ∷ cs) s h = elim (Option-cases (api.set_owner c)) [
    | inr (e, x) ↦ rw (create_claims, x) h
    | inl x ↦ elim (Option-cases (ignore_already_exists (api.create c))) [
      | inr (e, y) ↦ rw (create_claims, x, y) (p c, h)
      | inl y ↦ rw (create_claims, x, y) (create_claims-All p cs _ (p c, h))
    ]
  ]

  delete_claims-All :
      (pods : List Pod)
      → ((c : Claim) → IsUnused (claim_name c) pods → P (delete_claim c))
      → (cs : List Claim) (s : Session) → All P s.requests
      → All P (delete_claims api pods cs s).1.requests
  unfolding delete_claims
  delete_claims-All pods p [] s h = h
  delete_claims-All pods p (c ∷ cs) s h = elim (Bool-cases (pvc_in_use pods (claim_name c))) [
    | inl x ↦ rw (delete_claims, x) h
    | inr x ↦
        let safe = p c (pvc_in_use-IsUnused (claim_name c) pods x) in
        elim (Option-cases (ignore_not_found (api.delete c))) [
          | inr (e, y) ↦ rw (delete_claims, x, y) (safe, h)
          | inl y ↦ rw (delete_claims, x, y) (delete_claims-All pods p cs _ (safe, h))
        ]
  ]

  patch_claims-All :
      ((m : ObjectMeta) (reqs : Option Quantities) → P (patch_claim m reqs))
      → (us : List Claim) (s : Session) → All P s.requests
      → All P (patch_claims us s).requests
  unfolding patch_claims
  patch_claims-All p [] s h = h
  patch_claims-All p (u ∷ us) s h =
      patch_claims-All p us (send (patch_claim u.meta u.body.requests) s)
        (p u.meta u.body.requests, h)

  update_claims-All :
      (current us : List Claim) (s : Session)
      → (AllBound current → (m : ObjectMeta) (reqs : Option Quantities) → P (patch_claim m reqs))
      → All P s.requests
      → All P (update_claims current us s).1.requests
  unfolding update_claims
  update_claims-All current [] s p h = h
  update_claims-All current (u ∷ us) s p h =
      elim (Bool-cases (any (λ c. not (is_bound c)) current)) [
        | inl x ↦ rw (update_claims, x) h
        | inr x ↦ rw (update_claims, x) (patch_claims-All (p (any-AllBound current x)) (u ∷ us) s h)
      ]

  module _ (crd : FullNode) where
    delete_unless_retained-All :
        ((pods : List Pod) (c : Claim)
          → crd.body.spec.retention_policy ≢ some retain
          → api.list_pods ≡ found pods
          → IsUnused (claim_name c) pods
          → P (delete_claim c))
        → (cs : List Claim) (s : Session) → All P s.requests
        → All P (delete_unless_retained api crd cs s).2.requests
    unfolding delete_unless_retained should_retain
    delete_unless_retained-All p cs s h = elim (Bool-cases (should_retain crd)) [
      | inl x ↦ rw (delete_unless_retained, x) h
      | inr x ↦
          let free : crd.body.spec.retention_policy ≢ some retain = ground arith in
          elim (Answer-cases api.list_pods) [
            | inr (e, y) ↦ rw (delete_unless_retained, x, y) h
            | inl (pods, y) ↦
                rw (delete_unless_retained, x, y)
                  (delete_claims-All pods (λ c. p pods c free y) cs s h)
          ]
    ]

    apply_diff-All :
        ((c : Claim) → P (create_claim c))
        → ((pods : List Pod) (c : Claim)
            → crd.body.spec.retention_policy ≢ some retain
            → api.list_pods ≡ found pods
            → IsUnused (claim_name c) pods
            → P (delete_claim c))
        → (current : List Claim) (d : Diff ClaimBody) (s : Session)
        → (AllBound current → (m : ObjectMeta) (reqs : Option Quantities) → P (patch_claim m reqs))
        → All P s.requests
        → All P (apply_diff api crd current d s).1.requests
    unfolding apply_diff
    apply_diff-All p q current d s r h =
        let c = create_claims api d.creates s in
        let x = delete_unless_retained api crd d.deletes c.1 in
        let hc = create_claims-All p d.creates s h in
        let hx = delete_unless_retained-All q d.deletes c.1 hc in
        elim (Option-cases c.0) [
          | inr (o, e) ↦ rw (apply_diff, e) hc
          | inl e ↦ elim (Option-cases x.0) [
            | inr (o, f) ↦ rw (apply_diff, e, f) hx
            | inl f ↦ elim (Bool-cases (ltb 0 (x.1 + length d.creates))) [
              | inl g ↦ rw (apply_diff, e, f, g) hx
              | inr g ↦ rw (apply_diff, e, f, g) (update_claims-All current d.updates x.2 r hx)
            ]
          ]
        ]

    reconcile-All :
        ((c : Claim) → P (create_claim c))
        → ((pods : List Pod) (c : Claim)
            → crd.body.spec.retention_policy ≢ some retain
            → api.list_pods ≡ found pods
            → IsUnused (claim_name c) pods
            → P (delete_claim c))
        → ((current : List Claim)
            → api.list_claims ≡ found current
            → AllBound current
            → (m : ObjectMeta) (reqs : Option Quantities) → P (patch_claim m reqs))
        → (hash : Claim → Text) → All P (reconcile api hash crd).1.requests
    unfolding reconcile
    reconcile-All p q r hash = elim (Answer-cases api.list_claims) [
      | inr (e, l) ↦ rw (reconcile, l) tt
      | inl (current, l) ↦ elim (Checked-cases (find_sources api crd current (ordinals crd))) [
        | inl e ↦ rw (reconcile, l, e) tt
        | inr (sources, e) ↦ elim (Checked-cases (build_pvcs hash crd sources current)) [
          | inl f ↦ rw (reconcile, l, e, f) tt
          | inr (want, f) ↦ elim (Checked-cases (new current want)) [
            | inl g ↦ rw (reconcile, l, e, f, g) tt
            | inr (d, g) ↦
                rw (reconcile, l, e, f, g)
                  (apply_diff-All p q current d (record { requests = []; deleted = [] })
                    (r current l) tt)
          ]
        ]
      ]
    ]

-- Whatever the API server answers, a reconcile of the claims deletes a claim only if the policy does
-- not retain claims, no listed pod is being deleted and none mounts it, and patches one only if all
-- listed claims are bound.
pub reconcile-AllSafe :
    (api : ClaimApi) (hash : Claim → Text) (crd : FullNode)
    → All (IsSafe api crd) (reconcile api hash crd).1.requests
reconcile-AllSafe api hash crd =
    reconcile-All api (IsSafe api crd) crd (λ c. tt)
      (λ pods c free l unused. (free, (pods, l, unused)))
      (λ current l bound m reqs. (current, l, bound)) hash
