-- ===== src/FullNode/ConfigMaps/Peerings.antt =====
-- What the files of an instance in internal/fullnode/configmap_builder.go read of the peers.
use cosmos_operator.Common.{
  Text, text_Eq, [], ◌∷◌, ◌≡◌, key_Eq, key_eq_iff, insert, lookup-insert_self, arith,
}
use cosmos_operator.FullNode.{FullNode}
use cosmos_operator.FullNode.Peers.{Peer, Peers, get_peer, except}
use cosmos_operator.FullNode.ConfigMaps.{TomlTools, comet_table, add_config_toml, config_files}

-- Without its own entry, nothing is left of what the entry was.
except-insert :
    (name namespace : Text) (p : Peer) (peers : Peers)
    → except name namespace (insert (record { namespace = namespace; name = name }) p peers)
      ≡ except name namespace peers
unfolding except insert
except-insert name namespace p [] = ground (
  arith,
  key_eq_iff (record { namespace = namespace; name = name })
      (record { namespace = namespace; name = name }),
)
except-insert name namespace p ((k, q) ∷ peers) = ground (
  arith,
  except-insert name namespace p peers,
  key_eq_iff k (record { namespace = namespace; name = name }),
  key_eq_iff (record { namespace = namespace; name = name })
      (record { namespace = namespace; name = name }),
)

get_peer-insert :
    (name namespace : Text) (p : Peer) (peers : Peers)
    → get_peer name namespace (insert (record { namespace = namespace; name = name }) p peers) ≡ p
unfolding get_peer
get_peer-insert name namespace p peers =
    rw (lookup-insert_self (record { namespace = namespace; name = name }) p peers)

comet_table-own :
    (crd : FullNode) (name : Text) (p q : Peer) (peers : Peers)
    → p.external_address ≡ q.external_address
    → comet_table crd name (insert (record { namespace = crd.meta.namespace; name = name }) p peers)
      ≡ comet_table crd name
          (insert (record { namespace = crd.meta.namespace; name = name }) q peers)
unfolding comet_table
comet_table-own crd name p q peers same = rw (
  except-insert name crd.meta.namespace p peers,
  except-insert name crd.meta.namespace q peers,
  get_peer-insert name crd.meta.namespace p peers,
  get_peer-insert name crd.meta.namespace q peers,
  same,
)

-- Of its own entry among the peers the files of an instance have the external address only: its node
-- ID and its private address are in none of them.
pub config_files-own :
    (tools : TomlTools) (crd : FullNode) (name : Text) (p q : Peer) (peers : Peers)
    → p.external_address ≡ q.external_address
    → config_files tools crd name
        (insert (record { namespace = crd.meta.namespace; name = name }) p peers)
      ≡ config_files tools crd name
          (insert (record { namespace = crd.meta.namespace; name = name }) q peers)
unfolding config_files
config_files-own tools crd name p q peers same =
    rw (add_config_toml, comet_table-own crd name p q peers same)
