-- ===== src/FullNode/Controller.antt =====
-- controllers/cosmosfullnode_controller.go, and internal/fullnode/status.go: a reconcile of a full node.
-- What its controls return for this reconcile is the record `Parts`; the status that it leaves is
-- written at the end by `SyncUpdate`. The text of the status message
-- is the parameter `show`.
pub mod Phases
use cosmos_operator.Common.{
  ℕ, suc, Text, txt, text_Eq, List, [], ◌∷◌, ◌++◌, map, Bool, true, false, not, ◌||◌, Option, none,
  some, lookup, insert, delete, ltb, ◌⊎◌, inl, inr, if◌then◌else◌,
}
use cosmos_operator.Kube.Client.{ApiError, Answer, found, failed, ignore_not_found}
use cosmos_operator.Kube.Errors.{ReconcileError, are_transient}
use cosmos_operator.Kube.Meta.{ObjectMeta}
use cosmos_operator.PodControl.{SyncInfo, SyncInfoPodStatus}
use cosmos_operator.Cosmos.{CometStatus, StatusItem, StatusCollection, latest_block_height_of}
use cosmos_operator.FullNode.{
  FullNode, FullNodeBody, FullNodeStatus, FullNodePhase, complete, error, p2p_services, progressing,
  transient_error,
}
use cosmos_operator.FullNode.Objects.{ConfigChecksums}
use cosmos_operator.FullNode.Peers.{Peers, has_incomplete_external_address, all_external}

-- `ResetStatus`.
unfoldable pub reset_status : FullNode → FullNode
reset_status crd =
    let b = crd.body in
    let st = b.status in
    record crd {
      body = record b {
        status = record st {
          observed_generation = crd.meta.generation;
          phase = progressing;
          status_message = none;
        };
      };
    }

abbrev pub sync_info_of : StatusItem → SyncInfoPodStatus
sync_info_of item = elim item.error [
  | some e ↦ record { timestamp = item.timestamp; height = none; in_sync = none; error = some e }
  | none ↦ record {
    timestamp = item.timestamp;
    height = some (latest_block_height_of item.status);
    in_sync = some (not item.status.catching_up);
    error = none;
  }
]

-- The loop of `SyncInfoStatus`, from the entries so far.
unfoldable pub sync_info_from : SyncInfo → StatusCollection → SyncInfo
sync_info_from m [] = m
sync_info_from m (item ∷ items) =
    sync_info_from (insert item.pod.meta.name (sync_info_of item) m) items

unfoldable pub sync_info_status : StatusCollection → SyncInfo
unfolding sync_info_from
sync_info_status items = sync_info_from [] items

-- What a reconcile of the pods returns: the requeue, an error, and the sync info that it changed.
pub record PodResult : Type 0 where
  pub requeue : Bool
  pub error : Option ReconcileError
  pub sync_info : SyncInfo

pub record ClaimResult : Type 0 where
  pub requeue : Bool
  pub error : Option ReconcileError
  pub deleted : List Text  -- `PVCStatusChanges`

pub record Parts : Type 0 where
  pub services : Option ReconcileError
  pub node_keys : Option ReconcileError
  pub peers : Peers ⊎ ReconcileError
  pub config_maps : Peers → ConfigChecksums × Option ReconcileError
  pub service_accounts : Option ReconcileError
  pub cluster_roles : Option ReconcileError
  pub cluster_role_bindings : Option ReconcileError
  pub pods : ConfigChecksums → SyncInfo → PodResult
  pub claims : ClaimResult

-- `errs.Append(err)`, for an error.
abbrev pub append_error : Option ReconcileError → List ReconcileError → List ReconcileError
append_error none errs = errs
append_error (some e) errs = errs ++ (e ∷ [])

-- The peers, none in place of an error.
abbrev pub peers_or_none : Peers ⊎ ReconcileError → Peers
peers_or_none (inl peers) = peers
peers_or_none (inr e) = []

abbrev pub peers_error : Peers ⊎ ReconcileError → Option ReconcileError
peers_error (inl peers) = none
peers_error (inr e) = some e

-- The steps of `Reconcile`, each run whatever the errors of those before.
pub record Run : Type 0 where
  pub errors : List ReconcileError
  pub requeue : Bool
  pub peers : Peers
  pub sync_info : SyncInfo
  pub deleted : List Text

unfoldable pub run_parts : Parts → SyncInfo → Run
run_parts parts info =
    let peers = peers_or_none parts.peers in
    let configs = parts.config_maps peers in
    let pods = parts.pods configs.0 info in
    let claims = parts.claims in
    record {
      errors = append_error claims.error (
          append_error pods.error (
            append_error parts.cluster_role_bindings (
              append_error parts.cluster_roles (
                append_error parts.service_accounts (
                  append_error configs.1 (
                    append_error (peers_error parts.peers)
                      (append_error parts.node_keys (append_error parts.services []))))))));
      requeue = pods.requeue || claims.requeue;
      peers = peers;
      sync_info = pods.sync_info;
      deleted = claims.deleted;
    }

-- The result, in seconds until the next reconcile, 0 for none, and the errors that are returned.
pub record Result : Type 0 where
  pub requeue_after : ℕ
  pub errors : List ReconcileError
  pub phase : FullNodePhase
  pub peers : List Text

-- What follows the steps, with the peers of the status so far; `resultWithErr` for the errors.
unfoldable pub conclude : List Text → Run → Result
conclude old run = elim run.errors [
  | e ∷ es ↦
      if are_transient (e ∷ es)
      then record { requeue_after = 3; errors = e ∷ es; phase = transient_error; peers = old }
      else record { requeue_after = 0; errors = e ∷ es; phase = error; peers = old }
  | [] ↦
      if run.requeue
      then record { requeue_after = 3; errors = []; phase = progressing; peers = old }
      else if has_incomplete_external_address run.peers
      then record { requeue_after = 30; errors = []; phase = p2p_services; peers = old }
      else record {
        requeue_after = 30;
        errors = [];
        phase = complete;
        peers = all_external run.peers;
      }
]

abbrev pub positive_height : SyncInfoPodStatus → Option ℕ
positive_height st = elim st.height [ none ↦ none | some h ↦ if ltb 0 h then some h else none ]

abbrev pub heights_or_empty : Option (List (Text × ℕ)) → List (Text × ℕ)
heights_or_empty none = []
heights_or_empty (some m) = m

-- The loop over the sync info: the height that is going through consensus, one above the last one.
unfoldable pub put_heights : SyncInfo → Option (List (Text × ℕ)) → Option (List (Text × ℕ))
put_heights [] m = m
put_heights ((name, st) ∷ info) m = elim (positive_height st) [
  | none ↦ put_heights info m
  | some h ↦ put_heights info (some (insert name (suc h) (heights_or_empty m)))
]

abbrev pub delete_all {ℓ} : {V : Type ℓ} → List Text → List (Text × V) → List (Text × V)
delete_all [] m = m
delete_all (k ∷ ks) m = delete_all ks (delete k m)

-- The update of `updateStatus`.
unfoldable pub update_status :
    FullNodeStatus → SyncInfo → List Text → FullNodeStatus → FullNodeStatus
unfolding put_heights
update_status own info deleted st = record st {
  observed_generation = own.observed_generation;
  phase = own.phase;
  status_message = own.status_message;
  peers = own.peers;
  sync_info = info;
  height = put_heights info st.height;
  pvc_auto_scale = elim st.pvc_auto_scale [ none ↦ none | some m ↦ some (delete_all deleted m) ];
}

-- What `Reconcile` returns and writes: nothing for a node that cannot be read.
pub data Outcome : Type 0 where
  unread : Option ApiError → Outcome
  finished : Result → (FullNodeStatus → FullNodeStatus) → Outcome

-- The status that the reconcile leaves in its own copy of the node.
abbrev pub own_status : FullNodeStatus → Option Text → Result → FullNodeStatus
own_status st message r = record st { phase = r.phase; peers = r.peers; status_message = message }

-- The text of a status message is an argument, of the errors.
abbrev pub message_of : (List ReconcileError → Text) → List ReconcileError → Option Text
message_of show [] = none
message_of show (e ∷ es) = some (show (e ∷ es))

unfoldable pub reconcile :
    (List ReconcileError → Text) → Answer FullNode → StatusCollection → (FullNode → Parts) → Outcome
unfolding reset_status run_parts conclude update_status sync_info_status
reconcile show (failed e) items parts = unread (ignore_not_found (some e))
reconcile show (found crd) items parts =
    let own = reset_status crd in
    let run = run_parts (parts own) (sync_info_status items) in
    let r = conclude own.body.status.peers run in
    let st = own_status own.body.status (message_of show r.errors) r in
    finished r (update_status st run.sync_info run.deleted)
