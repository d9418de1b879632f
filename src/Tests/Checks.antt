-- ===== src/Tests/Checks.antt =====
-- The version check and the way to an image, at concrete inputs.
use cosmos_operator.Common.{
  ℕ, Text, txt, text_eq, text_Eq, List, [], ◌∷◌, Bool, true, false, ◌≡◌, refl, none, some, Option,
  lookup, insert, if◌then◌else◌, ok, panic, arith, ◌⊎◌, inl, inr, ◌≤◌, ◌<◌, ◌↔◌,
}
use cosmos_operator.Kube.Client.{found}
use cosmos_operator.Kube.Pod.{Pod}
use cosmos_operator.FullNode.{
  ChainVersion, ChainSpec, InstanceOverride, FullNode, FullNodeBody, FullNodeSpec, override_of,
}
use cosmos_operator.FullNode.Pods.{find_version}
use cosmos_operator.FullNode.Pods.Layout.{with_ordinal, to_pod}
use cosmos_operator.FullNode.ConfigMaps.{halt_height}
use cosmos_operator.FullNode.ConfigMaps.Halts.{halt_height-keeps_version_iff}
use cosmos_operator.VersionCheck.{
  refused, image_mismatch, node_running, get_backend, go_level_db, image_for, check_version,
}
use cosmos_operator.VersionCheck.Choice.{image_or, image_for-find_version}
use cosmos_operator.VersionCheck.Upgrade.{World, granting, restart, rounds}
use cosmos_operator.VersionCheck.Upgrade.Settles.{rounds-total}
use cosmos_operator.VersionCheck.Upgrade.Overrides.{rounds-overridden}
use cosmos_operator.Tests.Reconciles.{node}
use cosmos_operator.Tests.Layouts.{joined}

abbrev halting : ℕ → Text → ChainVersion
halting h image = record {
  upgrade_height = h;
  image = image;
  init_containers = [];
  containers = [];
  set_halt_height = true;
}

abbrev rising : List ChainVersion
rising = halting 40 (txt "v2") ∷ halting 90 (txt "v3") ∷ []

image_at_50 : image_for (txt "v1") rising 50 ≡ txt "v2"
unfolding image_for
image_at_50 = refl

-- Where the heights do not rise, the check asks for another image than the pod is built with.
image_unsorted :
    image_for (txt "v1") (halting 90 (txt "v3") ∷ halting 40 (txt "v2") ∷ []) 50 ≡ txt "v1"
unfolding image_for
image_unsorted = refl

built_unsorted :
    find_version (halting 90 (txt "v3") ∷ halting 40 (txt "v2") ∷ []) 50
    ≡ some (halting 40 (txt "v2"))
unfolding find_version
built_unsorted = refl

halts_at_90 : halt_height rising 50 ≡ 90
unfolding halt_height
halts_at_90 = refl

image_for-find_version_example :
    image_for (txt "v1") rising 50 ≡ image_or (txt "v1") (find_version rising 50)
image_for-find_version_example = image_for-find_version (txt "v1") rising 50 (omega arith)

halt_height-keeps_version_iff_example :
    (find_version rising 89 ≡ find_version rising 50)
    ↔ ((halt_height rising 50 ≡ 0) ⊎ (89 < halt_height rising 50))
halt_height-keeps_version_iff_example =
    halt_height-keeps_version_iff rising 50 89 (omega arith) (refl, (refl, tt)) (omega arith)

abbrev with_overrides : List (Text × InstanceOverride) → FullNode
with_overrides overrides =
    let b = node.body in
    let s = b.spec in
    let c = s.chain in
    record node {
      body = record b {
        spec = record s { chain = record c { versions = rising }; instance_overrides = overrides };
      };
    }

abbrev upgraded : FullNode
upgraded = with_overrides []

abbrev laid : FullNode → Pod
laid crd = to_pod (with_ordinal joined (txt "v0.9") crd 0)

abbrev started : FullNode → World
started crd = record { crd = crd; pod = laid crd }

mismatch :
    check_version (granting upgraded 50) (some upgraded) (laid upgraded) (txt "goleveldb")
    ≡ ok (((txt "hub-0", 50) ∷ []) ∷ [], refused (image_mismatch 50 (txt "v1") (txt "v2")))
unfolding check_version with_ordinal text_eq lookup cosmos_operator.FullNode.instance_name
    cosmos_operator.Kube.Labels.to_name cosmos_operator.Common.format_nat insert
mismatch = refl

locked :
    check_version
      (record { get_crd = found upgraded; open_db = λ b. none; patch_status = λ m. none })
      none
      (laid upgraded)
      (txt "rocksdb")
    ≡ ok ([], node_running)
unfolding check_version with_ordinal text_eq
locked = refl

unknown :
    check_version (granting upgraded 50) (some upgraded) (laid upgraded) (txt "cleveldb") ≡ panic
unfolding check_version with_ordinal text_eq
unknown = refl

rounds-total_example :
    (n : ℕ) × (rounds (found (laid upgraded)) (txt "goleveldb") 0 50 2 0 (started upgraded)
      ≡ some n)
unfolding get_backend text_eq lookup with_ordinal
rounds-total_example =
    rounds-total (found (laid upgraded)) (txt "goleveldb") 0 50 (laid upgraded) refl
      {b = go_level_db} refl (started upgraded) refl
      (record { rising = omega arith; kept = (tt, (tt, tt)); plain = tt; node = refl })

abbrev override : InstanceOverride
override = record {
  disable_strategy = none;
  volume_claim_template = none;
  image = txt "debug";
  external_address = none;
}

abbrev overridden : FullNode
overridden = with_overrides ((txt "hub-0", override) ∷ [])

rounds-overridden_example :
    rounds
      (found (laid overridden))
      (txt "goleveldb")
      0
      50
      9
      0
      (restart (found (laid overridden)) (txt "goleveldb") 0 50 (started overridden))
    ≡ none
unfolding get_backend text_eq lookup with_ordinal image_for cosmos_operator.FullNode.instance_name
    cosmos_operator.Kube.Labels.to_name cosmos_operator.Common.format_nat
rounds-overridden_example =
    rounds-overridden (found (laid overridden)) (txt "goleveldb") 0 50 (laid overridden) override
      refl {b = go_level_db} refl 9 0 (started overridden)
      (record {
        overrides = refl;
        enabled = refl;
        image = refl;
        differs = cc;
        kept = (tt, (tt, tt));
        node = refl;
      })
