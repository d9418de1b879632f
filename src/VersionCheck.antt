-- ===== src/VersionCheck.antt =====
-- cmd/versioncheck.go: the command of an init container, and of a sidecar, that reads the height of the
-- node's database, writes it to the status of the full node, and fails where the pod runs an image
-- that is not the one for the height. What the command asks of others is the record `CheckApi`; the
-- output is left out, and a context that is done ends the daemon as the end of its ticks.

pub mod Choice
pub mod Images
pub mod Upgrade
use cosmos_operator.Common.{
  ℕ, Text, txt, text_eq, text_Eq, List, [], ◌∷◌, Bool, true, false, Option, none, some, lookup,
  insert, ltb, ◌==◌, if◌then◌else◌, Checked, panic, ok,
}
use cosmos_operator.Kube.Client.{ApiError, Answer, found, failed}
use cosmos_operator.Kube.Pod.{Pod, Container}
use cosmos_operator.FullNode.{ChainVersion, FullNode, FullNodeBody, FullNodeStatus}

pub data Backend : Type 0 where
  go_level_db mem_db rocks_db pebble_db : Backend

-- What the command asks: the full node, the latest version in the database, where it can be opened,
-- and the patch of the status to the heights that are given.
pub record CheckApi : Type 0 where
  pub get_crd : Answer FullNode
  pub open_db : Backend → Option ℕ
  pub patch_status : List (Text × ℕ) → Option ApiError

pub data CheckError : Type 0 where
  db_closed : CheckError
  no_crd : ApiError → CheckError
  not_patched : ApiError → CheckError
  image_mismatch : ℕ → Text → Text → CheckError

pub data Verdict : Type 0 where
  node_running : Verdict
  verified : ℕ → Text → Verdict
  refused : CheckError → Verdict

-- The patches that a check sent, each the heights that the status shall have, and its verdict.
abbrev pub Check : Type 0
Check = List (List (Text × ℕ)) × Verdict

unfoldable pub get_backend : Text → Checked Backend
get_backend backend =
    if text_eq backend (txt "goleveldb")
    then ok go_level_db
    else (if text_eq backend (txt "memdb")
        then ok mem_db
        else (if text_eq backend (txt "rocksdb")
            then ok rocks_db
            else (if text_eq backend (txt "pebbledb") then ok pebble_db else panic)))

-- The image of the versions for a height, from the image so far: the loop ends at the first version
-- whose upgrade is to come.
unfoldable pub image_for : Text → List ChainVersion → ℕ → Text
image_for image [] h = image
image_for image (v ∷ vs) h =
    let rest = image_for v.image vs h in if ltb h v.upgrade_height then image else rest

-- The image of the last container that is named `node`, from the one so far.
unfoldable pub this_pod_image : Text → List Container → Text
this_pod_image image [] = image
this_pod_image image (c ∷ cs) =
    this_pod_image (if text_eq c.name (txt "node") then c.image else image) cs

-- The recorded heights; the map may be nil.
abbrev pub heights_in : Option (List (Text × ℕ)) → List (Text × ℕ)
heights_in none = []
heights_in (some m) = m

abbrev pub heights_of : FullNode → List (Text × ℕ)
heights_of crd = heights_in crd.body.status.height

abbrev pub is_recorded : Option ℕ → ℕ → Bool
is_recorded none h = false
is_recorded (some k) h = k == h

abbrev pub to_verdict : Option ApiError → Verdict → Verdict
to_verdict none next = next
to_verdict (some e) next = refused (not_patched e)

module _ (api : CheckApi) where
  -- `patchStatusHeightIfNecessary`, with what follows it.
  unfoldable pub patch_status_height_if_necessary : FullNode → Text → ℕ → Verdict → Check
  patch_status_height_if_necessary crd name h next =
      if is_recorded (lookup name (heights_of crd)) h
      then ([], next)
      else (let patch = insert name h (heights_of crd) in
          (patch ∷ [], to_verdict (api.patch_status patch) next))

  -- The comparison of the images.
  unfoldable pub compare_images : FullNode → Pod → ℕ → Verdict
  unfolding image_for this_pod_image
  compare_images crd pod h =
      let image = image_for crd.body.spec.image crd.body.spec.chain.versions h in
      let this = this_pod_image [] pod.body.containers in
      if text_eq this image then verified h image else refused (image_mismatch h this image)

  abbrev pub check_height : Pod → ℕ → Answer FullNode → Check
  check_height pod h (failed e) = ([], refused (no_crd e))
  check_height pod h (found crd) =
      patch_status_height_if_necessary crd pod.meta.name h (compare_images crd pod h)

  -- The full node of a check: the one that the command has, or, in the daemon, a new one.
  abbrev pub crd_or_get : Option FullNode → Answer FullNode
  crd_or_get (some crd) = found crd
  crd_or_get none = api.get_crd

  -- A database that cannot be opened is an error, but for the daemon.
  abbrev pub closed : Option FullNode → Verdict
  closed none = node_running
  closed (some crd) = refused db_closed

  unfoldable pub check_version : Option FullNode → Pod → Text → Checked Check
  unfolding get_backend patch_status_height_if_necessary compare_images
  check_version crd pod backend = elim (get_backend backend) [
    | panic ↦ panic
    | ok b ↦ elim (api.open_db b) [
      | none ↦ ok ([], closed crd)
      | some h ↦ ok (check_height pod h (crd_or_get crd))
    ]
  ]

-- How the command ends, after the checks it made.
pub data Exit : Type 0 where
  returned panicked : Exit

abbrev pub Run : Type 0
Run = List Check × Exit

abbrev pub is_error : Verdict → Bool
is_error (refused e) = true
is_error _ = false

-- The end of a check, and what the command does after it.
abbrev pub end_check : Checked Check → Run → Run
end_check panic next = ([], panicked)
end_check (ok c) next = if is_error c.1 then (c ∷ [], panicked) else (c ∷ next.0, next.1)

-- The loop of the daemon: the answers at each of its ticks.
unfoldable pub run_daemon : Pod → Text → List CheckApi → Run
unfolding check_version
run_daemon pod backend [] = ([], returned)
run_daemon pod backend (api ∷ ticks) =
    end_check (check_version api none pod backend) (run_daemon pod backend ticks)

-- What the command finds before it checks: its pod, and whether `DATA_DIR` is a directory, `none` for
-- an error of `os.Stat`. Its files and clients are there.
pub record Start : Type 0 where
  pub pod : Answer Pod
  pub data_dir : Option Bool
  pub backend : Text
  pub is_daemon : Bool

abbrev pub run_checks : Start → CheckApi → List CheckApi → Pod → FullNode → Option Bool → Run
run_checks s api ticks pod crd (some true) =
    if s.is_daemon
    then run_daemon pod s.backend ticks
    else end_check (check_version api (some crd) pod s.backend) ([], returned)
run_checks s api ticks pod crd _ = ([], panicked)

-- The command.
unfoldable pub version_check : Start → CheckApi → List CheckApi → Run
unfolding check_version run_daemon
version_check s api ticks = elim s.pod [
  | failed e ↦ ([], panicked)
  | found pod ↦ elim api.get_crd [
    | failed e ↦ ([], panicked)
    | found crd ↦ elim crd.body.spec.chain.versions [
      | [] ↦ ([], returned)
      | v ∷ vs ↦ run_checks s api ticks pod crd s.data_dir
    ]
  ]
]
