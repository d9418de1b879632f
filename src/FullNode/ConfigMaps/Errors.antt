-- ===== src/FullNode/ConfigMaps/Errors.antt =====
-- When internal/fullnode/configmap_builder.go fails.
use cosmos_operator.Common.{
  ℕ, zero, suc, Text, text_Eq, List, [], ◌∷◌, Bool, true, false, ◌&&◌, ◌||◌, ◌≡◌, refl, ◌∙◌, Option,
  none, some, txt, ◌==◌, arith,
}
use cosmos_operator.Kube.Client.{Answer, found, failed}
use cosmos_operator.FullNode.{ChainVersion, SdkAppConfig, FullNode, ordinals_from, instance_name}
use cosmos_operator.Diff.{Resource}
use cosmos_operator.FullNode.Pods.{height_in}
use cosmos_operator.FullNode.Peers.{Peers}
use cosmos_operator.FullNode.Toml.{Table}
use cosmos_operator.FullNode.ConfigMaps.{
  TomlTools, ConfigMap, add_config_toml, add_app_toml, with_halt, config_files, build_each,
  build_config_maps, comet_table, app_table, encode_file, encode_merged, merge_decoded, put_file,
  add_app_to, add_config_map, app_config, number_or_zero, ConfigMapBody,
}

abbrev pub is_found {ℓ} : {A : Type ℓ} → Answer A → Bool
is_found (found v) = true
is_found (failed e) = false

-- Whether the overrides of a user decode, if there are any.
abbrev pub decodes : TomlTools → Option Text → Bool
decodes tools none = true
decodes tools (some overrides) = is_found (tools.decode overrides)

is_found-put_file :
    (tools : TomlTools) (name : Text) (contents : List (Text × Text)) (file : Answer Text)
    → is_found (put_file tools name contents file) ≡ is_found file
is_found-put_file tools name contents (found text) = refl
is_found-put_file tools name contents (failed e) = refl

toml_overrides-with_halt :
    (vs : List ChainVersion) (h : ℕ) (app : SdkAppConfig)
    → (with_halt vs h app).toml_overrides ≡ app.toml_overrides
unfolding with_halt
toml_overrides-with_halt [] h app = refl
toml_overrides-with_halt (v ∷ vs) h app = refl

module _ (tools : TomlTools) (encodes : (t : Table) → is_found (tools.encode t) ≡ true) where
  is_found-encode_merged :
      (t : Table) (decoded : Answer Table)
      → is_found (encode_merged tools (merge_decoded tools t decoded)) ≡ is_found decoded
  is_found-encode_merged t (found d) = encodes (tools.merge t d)
  is_found-encode_merged t (failed e) = refl

  is_found-encode_file :
      (defaults base : Table) (overrides : Option Text)
      → is_found (encode_file tools defaults base overrides) ≡ decodes tools overrides
  unfolding encode_file
  is_found-encode_file defaults base none = encodes (tools.merge defaults base)
  is_found-encode_file defaults base (some o) =
      is_found-encode_merged (tools.merge defaults base) (tools.decode o)

  is_found-add_app_toml :
      (contents : List (Text × Text)) (app : SdkAppConfig)
      → is_found (add_app_toml tools contents app) ≡ decodes tools app.toml_overrides
  unfolding add_app_toml
  is_found-add_app_toml contents app =
      is_found-put_file tools (txt "app-overlay.toml") contents
        (encode_file tools tools.default_app (app_table app) app.toml_overrides)
      ∙ is_found-encode_file tools.default_app (app_table app) app.toml_overrides

  is_found-add_app_to :
      (contents : Answer (List (Text × Text))) (app : SdkAppConfig)
      → is_found (add_app_to tools contents app)
        ≡ (is_found contents && decodes tools app.toml_overrides)
  is_found-add_app_to (found contents) app = is_found-add_app_toml contents app
  is_found-add_app_to (failed e) app = refl

  module _ (hash : ConfigMap → Text) (crd : FullNode) (peers : Peers) where
    -- Whether the overrides of both files decode.
    abbrev all_decode : Bool
    all_decode =
        decodes tools crd.body.spec.chain.comet.toml_overrides
        && decodes tools crd.body.spec.chain.app.toml_overrides

    is_found-add_config_toml :
        (name : Text)
        → is_found (add_config_toml tools [] crd name peers)
          ≡ decodes tools crd.body.spec.chain.comet.toml_overrides
    unfolding add_config_toml
    is_found-add_config_toml name =
        let base = comet_table crd name peers in
        let overrides = crd.body.spec.chain.comet.toml_overrides in
        is_found-put_file tools (txt "config-overlay.toml") []
          (encode_file tools tools.default_comet base overrides)
        ∙ is_found-encode_file tools.default_comet base overrides

    is_found-config_files :
        (name : Text) → is_found (config_files tools crd name peers) ≡ all_decode
    unfolding config_files
    is_found-config_files name =
        let h = number_or_zero (height_in crd.body.status.height name) in
        rw (
          config_files,
          is_found-add_app_to (add_config_toml tools [] crd name peers) (app_config crd name),
          is_found-add_config_toml name,
          toml_overrides-with_halt crd.body.spec.chain.versions h crd.body.spec.chain.app,
        )

    is_found-add_config_map :
        (i : ℕ) (contents : Answer (List (Text × Text)))
        (rest : Answer (List (Resource ConfigMapBody)))
        → is_found (add_config_map tools hash crd peers i contents rest)
          ≡ (is_found contents && is_found rest)
    is_found-add_config_map i (failed e) rest = refl
    is_found-add_config_map i (found contents) (failed e) = refl
    is_found-add_config_map i (found contents) (found rs) = refl

    is_found-build_each :
        (i n : ℕ)
        → is_found (build_each tools hash crd peers (ordinals_from i n)) ≡ (n == 0 || all_decode)
    unfolding build_each
    is_found-build_each i zero = refl
    is_found-build_each i (suc n) =
        let name = instance_name crd i in
        let rest = build_each tools hash crd peers (ordinals_from (suc i) n) in
        is_found-add_config_map i (config_files tools crd name peers) rest
        ∙ ground (arith, is_found-config_files name, is_found-build_each (suc i) n)

    -- With an encoder that does not fail: the config maps are built exactly where there are no replicas,
    -- or the overrides of the user for CometBFT and for the application decode, each if it is set.
    pub build_config_maps-is_found : is_found (build_config_maps tools hash crd peers) ≡ (
        crd.body.spec.replicas == 0
        || (decodes tools crd.body.spec.chain.comet.toml_overrides
            && decodes tools crd.body.spec.chain.app.toml_overrides))
    unfolding build_config_maps
    build_config_maps-is_found = is_found-build_each 0 crd.body.spec.replicas
