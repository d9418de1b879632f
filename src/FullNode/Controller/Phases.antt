-- ===== src/FullNode/Controller/Phases.antt =====
-- When a reconcile of controllers/cosmosfullnode_controller.go is complete, and what its update of the
-- status leaves alone.
use cosmos_operator.Common.{
  ℕ, Text, text_eq, text_Eq, List, [], ◌∷◌, false, ◌≡◌, ◌↔◌, refl, Option, none, some, lookup,
  delete, lookup-delete, lookup-insert, insert, any, arith, suc, if◌then◌else◌, Option-cases, inl,
  inr,
}
use cosmos_operator.Kube.Errors.{ReconcileError, are_transient}
use cosmos_operator.PodControl.{SyncInfo}
use cosmos_operator.FullNode.{FullNodeStatus, PvcAutoScaleStatus, complete}
use cosmos_operator.FullNode.Peers.{has_incomplete_external_address}
use cosmos_operator.FullNode.Controller.{
  Parts, append_error, peers_or_none, peers_error, Run, run_parts, conclude, positive_height,
  put_heights, heights_or_empty, delete_all, update_status,
}

append_error_iff :
    (e : Option ReconcileError) (errs : List ReconcileError)
    → (append_error e errs ≡ []) ↔ ((e ≡ none) × (errs ≡ []))
append_error_iff none errs = ground arith
append_error_iff (some e) [] = ground arith
append_error_iff (some e) (x ∷ errs) = ground arith

conclude-complete_iff :
    (old : List Text) (run : Run)
    → ((conclude old run).phase ≡ complete) ↔ (
        (run.errors ≡ [])
        × (run.requeue ≡ false)
        × (has_incomplete_external_address run.peers ≡ false))
unfolding conclude
conclude-complete_iff old run = ground arith

-- Every control succeeded, none asks for another round, and the peers have their addresses.
pub record IsDone (parts : Parts) (info : SyncInfo) : Type 0 where
  pub services : parts.services ≡ none
  pub node_keys : parts.node_keys ≡ none
  pub peers : peers_error parts.peers ≡ none
  pub config_maps : (parts.config_maps (peers_or_none parts.peers)).1 ≡ none
  pub service_accounts : parts.service_accounts ≡ none
  pub cluster_roles : parts.cluster_roles ≡ none
  pub cluster_role_bindings : parts.cluster_role_bindings ≡ none
  pub pods : (parts.pods (parts.config_maps (peers_or_none parts.peers)).0 info).error ≡ none
  pub claims : parts.claims.error ≡ none
  pub pods_settled :
      (parts.pods (parts.config_maps (peers_or_none parts.peers)).0 info).requeue ≡ false
  pub claims_settled : parts.claims.requeue ≡ false
  pub addressed : has_incomplete_external_address (peers_or_none parts.peers) ≡ false

-- A reconcile ends in phase Complete exactly where every control succeeded, the controls of pods and
-- claims ask for no other round, and no peer waits for its external address.
pub run_parts-complete_iff :
    (old : List Text) (parts : Parts) (info : SyncInfo)
    → ((conclude old (run_parts parts info)).phase ≡ complete) ↔ IsDone parts info
unfolding run_parts
run_parts-complete_iff old parts info =
    let peers = peers_or_none parts.peers in
    let configs = parts.config_maps peers in
    let pods = parts.pods configs.0 info in
    let run = run_parts parts info in
    (
      λ h.
          let c = (conclude-complete_iff old run).0 h in
          let e1 =
            (append_error_iff parts.claims.error (
                append_error pods.error (
                  append_error parts.cluster_role_bindings (
                    append_error parts.cluster_roles (
                      append_error parts.service_accounts (
                        append_error configs.1 (
                          append_error (peers_error parts.peers)
                            (append_error parts.node_keys (append_error parts.services []))))))))).0
              c.0 in
          let e2 =
            (append_error_iff pods.error (
                append_error parts.cluster_role_bindings (
                  append_error parts.cluster_roles (
                    append_error parts.service_accounts (
                      append_error configs.1 (
                        append_error (peers_error parts.peers)
                          (append_error parts.node_keys (append_error parts.services [])))))))).0
              e1.1 in
          let e3 =
            (append_error_iff parts.cluster_role_bindings (
                append_error parts.cluster_roles (
                  append_error parts.service_accounts (
                    append_error configs.1 (
                      append_error (peers_error parts.peers)
                        (append_error parts.node_keys (append_error parts.services []))))))).0
              e2.1 in
          let e4 =
            (append_error_iff parts.cluster_roles (
                append_error parts.service_accounts (
                  append_error configs.1 (
                    append_error (peers_error parts.peers)
                      (append_error parts.node_keys (append_error parts.services [])))))).0
              e3.1 in
          let e5 =
            (append_error_iff parts.service_accounts (
                append_error configs.1 (
                  append_error (peers_error parts.peers)
                    (append_error parts.node_keys (append_error parts.services []))))).0
              e4.1 in
          let e6 =
            (append_error_iff configs.1 (
                append_error (peers_error parts.peers)
                  (append_error parts.node_keys (append_error parts.services [])))).0
              e5.1 in
          let e7 =
            (append_error_iff (peers_error parts.peers)
                (append_error parts.node_keys (append_error parts.services []))).0
              e6.1 in
          let e8 = (append_error_iff parts.node_keys (append_error parts.services [])).0 e7.1 in
          let e9 = (append_error_iff parts.services []).0 e8.1 in
          record {
            services = e9.0;
            node_keys = e8.0;
            peers = e7.0;
            config_maps = e6.0;
            service_accounts = e5.0;
            cluster_roles = e4.0;
            cluster_role_bindings = e3.0;
            pods = e2.0;
            claims = e1.0;
            pods_settled = ground (arith, c.1);
            claims_settled = ground (arith, c.1);
            addressed = c.2;
          },
      λ d.
          let e9 = (append_error_iff parts.services []).1 (d.services, refl) in
          let e8 =
            (append_error_iff parts.node_keys (append_error parts.services [])).1
              (d.node_keys, e9) in
          let e7 =
            (append_error_iff (peers_error parts.peers)
                (append_error parts.node_keys (append_error parts.services []))).1
              (d.peers, e8) in
          let e6 =
            (append_error_iff configs.1 (
                append_error (peers_error parts.peers)
                  (append_error parts.node_keys (append_error parts.services [])))).1
              (d.config_maps, e7) in
          let e5 =
            (append_error_iff parts.service_accounts (
                append_error configs.1 (
                  append_error (peers_error parts.peers)
                    (append_error parts.node_keys (append_error parts.services []))))).1
              (d.service_accounts, e6) in
          let e4 =
            (append_error_iff parts.cluster_roles (
                append_error parts.service_accounts (
                  append_error configs.1 (
                    append_error (peers_error parts.peers)
                      (append_error parts.node_keys (append_error parts.services [])))))).1
              (d.cluster_roles, e5) in
          let e3 =
            (append_error_iff parts.cluster_role_bindings (
                append_error parts.cluster_roles (
                  append_error parts.service_accounts (
                    append_error configs.1 (
                      append_error (peers_error parts.peers)
                        (append_error parts.node_keys (append_error parts.services []))))))).1
              (d.cluster_role_bindings, e4) in
          let e2 =
            (append_error_iff pods.error (
                append_error parts.cluster_role_bindings (
                  append_error parts.cluster_roles (
                    append_error parts.service_accounts (
                      append_error configs.1 (
                        append_error (peers_error parts.peers)
                          (append_error parts.node_keys (append_error parts.services [])))))))).1
              (d.pods, e3) in
          let e1 =
            (append_error_iff parts.claims.error (
                append_error pods.error (
                  append_error parts.cluster_role_bindings (
                    append_error parts.cluster_roles (
                      append_error parts.service_accounts (
                        append_error configs.1 (
                          append_error (peers_error parts.peers)
                            (append_error parts.node_keys (append_error parts.services []))))))))).1
              (d.claims, e2) in
          (conclude-complete_iff old run).1
            (e1, ground (arith, d.pods_settled, d.claims_settled), d.addressed),
    )

-- A reconcile asks for no other one exactly where one of its errors is not transient.
pub conclude-requeue_iff :
    (old : List Text) (run : Run)
    → ((conclude old run).requeue_after ≡ 0) ↔ (are_transient run.errors ≡ false)
unfolding conclude are_transient
conclude-requeue_iff old run = ground arith

abbrev pub pvc_entry : Text → FullNodeStatus → Option PvcAutoScaleStatus
pvc_entry name st = elim st.pvc_auto_scale [ none ↦ none | some m ↦ lookup name m ]

lookup-delete_all :
    {V : Type 0} (name : Text) (ks : List Text) (m : List (Text × V))
    → lookup name (delete_all ks m) ≡ (if any (λ k. text_eq k name) ks then none else lookup name m)
lookup-delete_all name [] m = refl
lookup-delete_all name (k ∷ ks) m =
    ground (arith, lookup-delete_all name ks (delete k m), lookup-delete k name m)

-- The height that the sync info has for a pod, of its last entry.
abbrev pub height_of : Text → SyncInfo → Option ℕ → Option ℕ
height_of name [] old = old
height_of name ((k, st) ∷ info) old =
    if text_eq k name
    then elim (positive_height st) [
      | none ↦ height_of name info old
      | some h ↦ height_of name info (some (suc h))
    ]
    else height_of name info old

abbrev pub entry_of : Text → Option (List (Text × ℕ)) → Option ℕ
entry_of name none = none
entry_of name (some m) = lookup name m

put-entry :
    (name k : Text) (v : ℕ) (m : Option (List (Text × ℕ)))
    → entry_of name (some (insert k v (heights_or_empty m)))
      ≡ (if text_eq k name then some v else entry_of name m)
unfolding lookup
put-entry name k v none = lookup-insert k name v []
put-entry name k v (some m) = lookup-insert k name v m

put_heights-entry :
    (name : Text) (info : SyncInfo) (m : Option (List (Text × ℕ)))
    → entry_of name (put_heights info m) ≡ height_of name info (entry_of name m)
unfolding put_heights
put_heights-entry name [] m = refl
put_heights-entry name ((k, st) ∷ info) m = elim (Option-cases (positive_height st)) [
  | inl e ↦ ground (arith, put_heights-entry name info m)
  | inr (h, e) ↦ ground (
    arith,
    put_heights-entry name info (some (insert k (suc h) (heights_or_empty m))),
    put-entry name k (suc h) m,
  )
]

-- The update of the status at the end of a reconcile, run on the status that is stored then: the entries
-- of the scheduled snapshots stay; the size asked for a claim stays unless the reconcile deleted or
-- created the claim; the height of a pod is one above the one that its sync info has, if that is
-- positive, and else stays.
pub update_status-keeps :
    (own st : FullNodeStatus) (info : SyncInfo) (deleted : List Text) (name : Text)
    → let new = update_status own info deleted st in
      (new.scheduled_snapshot_status ≡ st.scheduled_snapshot_status)
      × (pvc_entry name new
          ≡ (if any (λ k. text_eq k name) deleted then none else pvc_entry name st))
      × (entry_of name new.height ≡ height_of name info (entry_of name st.height))
unfolding update_status
update_status-keeps own st info deleted name = (
  refl,
  elim (Option-cases st.pvc_auto_scale) [
    | inl e ↦ ground arith
    | inr (m, e) ↦ ground (arith, lookup-delete_all name deleted m)
  ],
  put_heights-entry name info st.height,
)
