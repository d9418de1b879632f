-- ===== src/FullNode/Pods/Scripts.antt =====
-- internal/fullnode/genesis.go, addrbook.go and snapshot.go: the scripts that fetch the genesis, the
-- address book and the data of a chain. The texts of the files under script/ are parameters.
use cosmos_operator.Common.{
  Text, txt, List, [], ◌∷◌, ◌++◌, false, ◌≡◌, ◌↔◌, none, some, arith, Checked, panic, ok,
}
use cosmos_operator.FullNode.{ChainSpec, FullNode}
use cosmos_operator.FullNode.Pods.Commands.{Command}
use cosmos_operator.FullNode.Pods.Layout.{will_restore_from_snapshot}

-- The lines of a text, each with its end.
abbrev pub lines : List Text → Text
lines [] = []
lines (t ∷ ts) = t ++ (10 ∷ lines ts)

abbrev pub indented : Text → Text
indented t = 9 ∷ t

-- `genesisScriptWrapper`, `addrbookScriptWrapper` and `snapshotScriptWrapper` around a script.
abbrev pub wrap_genesis_script : Text → Text
wrap_genesis_script script = lines (
    txt "ls $DATA_DIR/*.db 1> /dev/null 2>&1"
    ∷ txt "DB_INIT=$?"
    ∷ txt "if [ $DB_INIT -eq 0 ]; then"
    ∷ indented (txt "echo \"Database already initialized, skipping genesis initialization\"")
    ∷ indented (txt "exit 0")
    ∷ txt "fi"
    ∷ []
    ∷ script
    ∷ []
    ∷ txt "echo \"Genesis $GENESIS_FILE initialized.\""
    ∷ [])

abbrev pub wrap_addrbook_script : Text → Text
wrap_addrbook_script script = lines (
    txt "ls $CONFIG_DIR/addrbook.json 1> /dev/null 2>&1"
    ∷ txt "ADDRBOOK_EXISTS=$?"
    ∷ txt "if [ $ADDRBOOK_EXISTS -eq 0 ]; then"
    ∷ indented (txt "echo \"Address book already exists\"")
    ∷ indented (txt "exit 0")
    ∷ txt "fi"
    ∷ txt "ls -l $CONFIG_DIR/addrbook.json "
    ∷ script
    ∷ txt "ls -l $CONFIG_DIR/addrbook.json "
    ∷ []
    ∷ txt "echo \"Address book $ADDRBOOK_FILE downloaded\""
    ∷ [])

abbrev pub wrap_snapshot_script : Text → Text
wrap_snapshot_script script = lines (
    txt "set -eu"
    ∷ txt "if test -n \"$(find $DATA_DIR -maxdepth 1 -name '*.db' -print -quit)\"; then"
    ∷ indented (txt "echo \"Databases in $DATA_DIR already exists; skipping initialization.\"")
    ∷ indented (txt "exit 0")
    ∷ txt "fi"
    ∷ []
    ∷ script
    ∷ []
    ∷ txt "echo \"$DATA_DIR initialized.\""
    ∷ [])

abbrev pub shell : List Text → Command
shell args = (txt "sh", txt "-c" ∷ args)

-- `DownloadGenesisCommand`, of the scripts that download the genesis and that use the one of the init.
unfoldable pub download_genesis_command : Text → Text → ChainSpec → Command
download_genesis_command download use_init cfg = elim cfg.genesis_script [
  | some s ↦ shell (wrap_genesis_script s ∷ [])
  | none ↦ elim cfg.genesis_url [
    | some url ↦ shell (wrap_genesis_script download ∷ txt "-s" ∷ url ∷ [])
    | none ↦ shell (wrap_genesis_script use_init ∷ [])
  ]
]

-- `DownloadAddrbookCommand`.
unfoldable pub download_addrbook_command : Text → ChainSpec → Command
download_addrbook_command download cfg = elim cfg.addrbook_script [
  | some s ↦ shell (wrap_addrbook_script s ∷ [])
  | none ↦ elim cfg.addrbook_url [
    | some url ↦ shell (wrap_addrbook_script download ∷ txt "-s" ∷ url ∷ [])
    | none ↦ shell (txt "echo Using default address book" ∷ [])
  ]
]

-- `DownloadSnapshotCommand`.
unfoldable pub download_snapshot_command : Text → ChainSpec → Checked Command
download_snapshot_command download cfg = elim cfg.snapshot_script [
  | some s ↦ ok (shell (wrap_snapshot_script s ∷ []))
  | none ↦ elim cfg.snapshot_url [
    | some url ↦ ok (shell (wrap_snapshot_script download ∷ txt "-s" ∷ url ∷ []))
    | none ↦ panic
  ]
]

-- The command panics exactly where the pod has no container for it.
pub download_snapshot_command-panic_iff :
    (download : Text)
    → (crd : FullNode)
    → (download_snapshot_command download crd.body.spec.chain ≡ panic)
      ↔ (will_restore_from_snapshot crd ≡ false)
unfolding download_snapshot_command
download_snapshot_command-panic_iff download crd = ground arith
