-- ===== src/FullNode/Peers.antt =====
-- internal/fullnode/peer_collector.go: the peers of a full node. The node ID of a secret's JSON is
-- the parameter `node_id`, `none` for an error, and `net.JoinHostPort` is `join_host_port`.
use cosmos_operator.Common.{
  ℕ, Text, txt, text_eq, key_eq, key_Eq, List, [], ◌∷◌, ◌++◌, map, Bool, true, false, not, ◌&&◌,
  Option, none, some, ObjectKey, lookup, insert, any, ◌⊎◌, inl, inr, select, ltb, ◌==◌,
  if◌then◌else◌,
}
use cosmos_operator.Kube.Client.{ApiError, Answer, found, failed}
use cosmos_operator.Kube.Errors.{ReconcileError, transient_error, unrecoverable_error}
use cosmos_operator.FullNode.Services.{p2p_service_name}
use cosmos_operator.FullNode.NodeKeys.{node_key_secret_name}
use cosmos_operator.FullNode.{FullNode, instance_name, ordinals}

pub record Peer : Type 0 where
  pub node_id : Text
  pub private_address : Text
  pub external_address : Text
  pub has_external_address : Bool

abbrev pub Peers : Type 0
Peers = List (ObjectKey × Peer)

abbrev pub no_peer : Peer
no_peer = record {
  node_id = [];
  private_address = [];
  external_address = [];
  has_external_address = false;
}

abbrev pub peer_or_empty : Option Peer → Peer
peer_or_empty none = no_peer
peer_or_empty (some p) = p

unfoldable pub private_peer : Peer → Text
private_peer p = p.node_id ++ (txt "@" ++ p.private_address)

unfoldable pub external_peer : Peer → Text
external_peer p =
    if text_eq p.external_address []
    then p.node_id ++ txt "@0.0.0.0:26656"
    else p.node_id ++ (txt "@" ++ p.external_address)

unfoldable pub get_peer : Text → Text → Peers → Peer
get_peer name namespace peers =
    peer_or_empty (lookup (record { namespace = namespace; name = name }) peers)

unfoldable pub except : Text → Text → Peers → Peers
except name namespace peers =
    select (λ e. not (key_eq e.0 (record { namespace = namespace; name = name }))) peers

abbrev pub is_incomplete : Peer → Bool
is_incomplete p = p.has_external_address && text_eq p.external_address []

unfoldable pub has_incomplete_external_address : Peers → Bool
has_incomplete_external_address peers = any (λ e. is_incomplete e.1) peers

-- `sort.Strings`, by the bytes.
abbrev pub text_before : Text → Text → Bool
text_before a [] = false
text_before [] (d ∷ b) = true
text_before (c ∷ a) (d ∷ b) = if c == d then text_before a b else ltb c d

abbrev pub insert_text : Text → List Text → List Text
insert_text a [] = a ∷ []
insert_text a (b ∷ bs) = if text_before b a then b ∷ insert_text a bs else a ∷ b ∷ bs

unfoldable pub sort_texts : List Text → List Text
sort_texts [] = []
sort_texts (a ∷ as') = insert_text a (sort_texts as')

unfoldable pub node_ids : Peers → List Text
unfolding sort_texts
node_ids peers = sort_texts (map (λ e. e.1.node_id) peers)

unfoldable pub all_external : Peers → List Text
unfolding sort_texts external_peer
all_external peers = sort_texts (map (λ e. external_peer e.1) peers)

unfoldable pub all_private : Peers → List Text
unfolding sort_texts private_peer
all_private peers = sort_texts (map (λ e. private_peer e.1) peers)

-- A secret, with its node key file, and a service with the IP and the host name of each ingress.
pub record Secret : Type 0 where
  pub namespace : Text
  pub node_key : Text

pub record Service : Type 0 where
  pub kind : Text
  pub ingress : List (Text × Text)

abbrev pub peer_key : FullNode → ℕ → ObjectKey
peer_key crd i = record { namespace = crd.meta.namespace; name = instance_name crd i }

module _ (node_id : Text → Option Text) (join_host_port : Text → Text → Text)
    (get_secret : Text → Answer Secret) (get_service : Text → Answer Service) where
  abbrev pub ingress_host : Text × Text → Text
  ingress_host lb = if text_eq lb.0 [] then lb.1 else lb.0

  -- The address of the first ingress.
  abbrev pub ingress_address : List (Text × Text) → Text
  ingress_address [] = []
  ingress_address (lb ∷ lbs) =
      let host = ingress_host lb in
      if text_eq host [] then [] else join_host_port host (txt "26656")

  -- `addExternalAddress`, of the peer.
  unfoldable pub add_external_address : Service → Peer → Peer
  add_external_address svc p =
      if text_eq svc.kind (txt "LoadBalancer")
      then record p { has_external_address = true; external_address = ingress_address svc.ingress }
      else p

  -- The peer of an ordinal, or the error that ends `Collect`.
  unfoldable pub collect_peer : FullNode → ℕ → Peer ⊎ ReconcileError
  unfolding add_external_address
  collect_peer crd i = elim (get_secret (node_key_secret_name crd i)) [
    | failed e ↦ inr (transient_error e)
    | found s ↦ elim (node_id s.node_key) [
      | none ↦ inr (unrecoverable_error (ApiError.other (txt "node key")))
      | some id ↦ elim (get_service (p2p_service_name crd i)) [
        | failed e ↦ inr (transient_error e)
        | found svc ↦
            let address =
              p2p_service_name crd i
              ++ (txt "." ++ (s.namespace ++ txt ".svc.cluster.local:26656")) in
            inl (
              add_external_address svc (record no_peer { node_id = id; private_address = address }))
      ]
    ]
  ]

  -- The loop of `Collect`, from the peers so far.
  unfoldable pub collect_from : FullNode → List ℕ → Peers → Peers ⊎ ReconcileError
  unfolding collect_peer
  collect_from crd [] peers = inl peers
  collect_from crd (i ∷ is) peers = elim (collect_peer crd i) [
    | inr e ↦ inr e
    | inl p ↦ collect_from crd is (insert (peer_key crd i) p peers)
  ]

  unfoldable pub collect : FullNode → Peers ⊎ ReconcileError
  unfolding collect_from
  collect crd = collect_from crd (ordinals crd) []
