-- ===== src/FullNode/Pods/Commands.antt =====
-- The commands and the environment of the containers that internal/fullnode/pod_builder.go makes: how
-- the node starts, how its chain is initialized, and how its version is checked. The scripts of the
-- init containers are in Scripts. `strings.Join` is `join`.
use cosmos_operator.Common.{
  ℤ, pos, Text, txt, text_Eq, List, [], ◌∷◌, ◌++◌, ◌&&◌, Option, none, some, ltb_ℤ, format_int,
  if◌then◌else◌,
}
use cosmos_operator.FullNode.{ChainSpec, FullNode}
use cosmos_operator.FullNode.Services.{is_sentry}
use cosmos_operator.FullNode.Pods.Layout.{work_dir, cometbft_dir, chain_home_dir}

abbrev pub join : Text → List Text → Text
join sep [] = []
join sep (t ∷ []) = t
join sep (t ∷ u ∷ us) = t ++ (sep ++ join sep (u ∷ us))

abbrev pub Command : Type 0
Command = Text × List Text

-- A flag with its value, where it is set.
abbrev pub flag : Text → Option Text → List Text
flag name none = []
flag name (some v) = name ∷ v ∷ []

-- The time that a sentry waits before its start.
abbrev pub privval_sleep : ChainSpec → ℤ
privval_sleep cfg = elim cfg.privval_sleep_seconds [ none ↦ pos 10 | some n ↦ n ]

-- The `versioncheck` command, of an init container and, with `-d`, of the sidecar.
abbrev pub version_check_init : ChainSpec → List Text
version_check_init cfg = txt "/manager" ∷ txt "versioncheck" ∷ flag (txt "-b") cfg.database_backend

abbrev pub version_check_sidecar : ChainSpec → List Text
version_check_sidecar cfg =
    txt "/manager" ∷ txt "versioncheck" ∷ txt "-d" ∷ flag (txt "-b") cfg.database_backend

-- The command that initializes the chain, with the name of the instance as its moniker.
abbrev pub init_command : ChainSpec → Text → Text
init_command cfg moniker =
    join (txt " ") (
      cfg.binary
      ∷ txt "init"
      ∷ txt "--chain-id"
      ∷ cfg.chain_id
      ∷ moniker
      ∷ cfg.additional_init_args)

module _ (join_path : Text → Text → Text) where
  unfoldable pub env_vars : FullNode → List (Text × Text)
  env_vars crd =
      let home = chain_home_dir join_path crd in
      let config = cometbft_dir crd ++ txt "/config" in
      (txt "HOME", work_dir)
      ∷ (txt "WORK_DIR", work_dir)
      ∷ (txt "CHAIN_HOME", home)
      ∷ (txt "GENESIS_FILE", join_path (join_path home config) (txt "genesis.json"))
      ∷ (txt "ADDRBOOK_FILE", join_path (join_path home config) (txt "addrbook.json"))
      ∷ (txt "CONFIG_DIR", join_path (join_path home (cometbft_dir crd)) (txt "/config"))
      ∷ (txt "DATA_DIR", join_path (join_path home (cometbft_dir crd)) (txt "/data"))
      ∷ (txt "CHAIN_ID", crd.body.spec.chain.chain_id)
      ∷ []

  unfoldable pub start_command_args : FullNode → List Text
  start_command_args crd =
      let cfg = crd.body.spec.chain in
      let skip = if cfg.skip_invariants then txt "--x-crisis-skip-assert-invariants" ∷ [] else [] in
      txt "start"
      ∷ txt "--home"
      ∷ chain_home_dir join_path crd
      ∷ (skip
          ++ (flag (txt "--log_level") cfg.log_level
              ++ (flag (txt "--log_format") cfg.log_format ++ cfg.additional_start_args)))

  -- A sentry starts after a sleep, so that its signer finds it.
  unfoldable pub start_cmd_and_args : FullNode → Command
  unfolding start_command_args
  start_cmd_and_args crd =
      let cfg = crd.body.spec.chain in
      let args = start_command_args crd in
      if is_sentry crd && ltb_ℤ (pos 0) (privval_sleep cfg)
      then (
        txt "sh",
        txt "-c"
            ∷ (txt "sleep "
                ++ (format_int (privval_sleep cfg)
                    ++ (10 ∷ (cfg.binary ++ (txt " " ++ join (txt " ") args)))))
            ∷ [],
      )
      else (cfg.binary, args)
