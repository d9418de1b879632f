-- ===== src/Tests/Configs.antt =====
-- The config maps of a full node at concrete inputs.
use cosmos_operator.Common.{
  Text, txt, text_eq, text_Eq, key_eq, key_Eq, [], ◌∷◌, true, ◌≡◌, ◌&&◌, ◌||◌, ◌==◌, refl, none,
  some, Option, lookup, insert,
}
use cosmos_operator.Kube.Client.{ApiError, Answer, found, failed}
use cosmos_operator.FullNode.{FullNode, SdkAppConfig}
use cosmos_operator.FullNode.Peers.{Peer, Peers, no_peer, except, node_ids, all_private}
use cosmos_operator.FullNode.Toml.{
  Toml, string, number, boolean, strings, table, Table, end, put, get,
}
use cosmos_operator.FullNode.ConfigMaps.{TomlTools, comet_table, config_files, build_config_maps}
use cosmos_operator.FullNode.ConfigMaps.Peerings.{config_files-own}
use cosmos_operator.FullNode.ConfigMaps.Errors.{is_found, decodes, build_config_maps-is_found}
use cosmos_operator.Tests.Reconciles.{node}

abbrev first_text : Option Toml → Answer Text
first_text (some (string t)) = found t
first_text _ = found []

first_text-is_found : (o : Option Toml) → is_found (first_text o) ≡ true
first_text-is_found (some (string t)) = refl
first_text-is_found (some (number n)) = refl
first_text-is_found (some (boolean b)) = refl
first_text-is_found (some (strings ts)) = refl
first_text-is_found (some (table t)) = refl
first_text-is_found none = refl

-- Tools that keep what is merged into the default, and write a key of it.
abbrev tools : TomlTools
tools = record {
  default_comet = end;
  default_app = end;
  merge = λ t u. u;
  decode = λ t. failed (ApiError.other (txt "toml"));
  encode = λ t. first_text (get (txt "log_format") t);
}

abbrev peer : Text → Peer
peer id = record no_peer { node_id = id; private_address = txt "hub-p2p-1:26656" }

abbrev others : Peers
others = (record { namespace = node.meta.namespace; name = txt "hub-1" }, peer (txt "b")) ∷ []

abbrev own : Text → Peers
own id = insert (record { namespace = node.meta.namespace; name = txt "hub-0" }) (peer id) others

abbrev p2p_of : Option Toml → Table
p2p_of (some (table t)) = t
p2p_of _ = end

persistent :
    get
      (txt "persistent_peers")
      (p2p_of (get (txt "p2p") (comet_table node (txt "hub-0") (own (txt "a")))))
    ≡ some (string (txt "b@hub-p2p-1:26656"))
unfolding comet_table get put text_eq except node_ids all_private insert lookup key_eq
    cosmos_operator.FullNode.Peers.get_peer
persistent = refl

config_files-own_example :
    config_files tools node (txt "hub-0") (own (txt "a"))
    ≡ config_files tools node (txt "hub-0") (own (txt "c"))
config_files-own_example =
    config_files-own tools node (txt "hub-0") (peer (txt "a")) (peer (txt "c")) others refl

build_config_maps-is_found_example : is_found (build_config_maps tools (λ cm. []) node others) ≡ (
    1 == 0
    || (decodes tools node.body.spec.chain.comet.toml_overrides
        && decodes tools node.body.spec.chain.app.toml_overrides))
build_config_maps-is_found_example =
    build_config_maps-is_found tools (λ t. first_text-is_found (get (txt "log_format") t))
      (λ cm. []) node others
