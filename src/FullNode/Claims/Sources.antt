-- ===== src/FullNode/Claims/Sources.antt =====
-- internal/fullnode/pvc_control.go: the data source of a claim, `findDataSource`, and the loop of
-- `Reconcile` that collects the sources. The API server's answers are the record `ClaimApi`; the
-- reported errors are left out. A nil status or restore size panics.
use cosmos_operator.Common.{
  ℕ, Text, txt, text_eq, text_Eq, List, [], ◌∷◌, Bool, true, false, ◌&&◌, Option, none, some,
  insert, if◌then◌else◌, Checked, panic, ok,
}
use cosmos_operator.Kube.Client.{ApiError, Answer, found, failed}
use cosmos_operator.Kube.Pod.{Pod}
use cosmos_operator.Kube.VolumeSnapshot.{
  VolumeSnapshot, VolumeSnapshotStatus, RecentResult, recent, none_ready, list_error,
  recent_volume_snapshot,
}
use cosmos_operator.FullNode.{
  TypedReference, AutoDataSource, ClaimTemplate, FullNode, instance_name, instance_label,
}
use cosmos_operator.FullNode.Claims.{
  Claim, DataSource, quantity_of, find_claim, pvc_name, template_of,
}

pub record ClaimApi : Type 0 where
  pub list_claims : Answer (List Claim)
  pub list_pods : Answer (List Pod)
  pub get_snapshot : Text → Answer VolumeSnapshot
  pub get_claim : Text → Answer Claim
  pub list_snapshots : List (Text × Text) → Answer (List VolumeSnapshot)
  pub set_owner : Claim → Option ApiError
  pub create : Claim → Option ApiError
  pub delete : Claim → Option ApiError

-- `*vs.Status.RestoreSize`, with the reference to the snapshot.
abbrev pub restored : TypedReference → Option VolumeSnapshotStatus → Checked (Option DataSource)
restored ref none = panic
restored ref (some st) = elim st.restore_size [
  | none ↦ panic
  | some q ↦ ok (some (record { reference = some ref; size = q }))
]

abbrev pub is_snapshot : TypedReference → Bool
is_snapshot ref =
    text_eq ref.kind (txt "VolumeSnapshot")
    && elim ref.api_group [ none ↦ false | some g ↦ text_eq g (txt "snapshot.storage.k8s.io") ]

abbrev pub is_claim : TypedReference → Bool
is_claim ref =
    text_eq ref.kind (txt "PersistentVolumeClaim")
    && elim ref.api_group [ none ↦ true | some g ↦ text_eq g [] ]

abbrev pub snapshot_reference : Text → TypedReference
snapshot_reference name = record {
  api_group = some (txt "snapshot.storage.k8s.io");
  kind = txt "VolumeSnapshot";
  name = name;
}

abbrev pub recent_source : RecentResult → Checked (Option DataSource)
recent_source (recent v) = restored (snapshot_reference v.name) v.status
recent_source none_ready = ok none
recent_source (list_error e) = ok none

-- The selector of an instance. The source writes the label into the map of the resource, where the
-- next instance replaces it.
abbrev pub selector_of : FullNode → ℕ → AutoDataSource → List (Text × Text)
selector_of crd i spec =
    if spec.match_instance
    then insert instance_label (instance_name crd i) spec.volume_snapshot_selector
    else spec.volume_snapshot_selector

abbrev pub equal_texts : Option Text → Option Text → Bool
equal_texts none none = true
equal_texts (some a) (some b) = text_eq a b
equal_texts _ _ = false

unfoldable pub data_source_equal : Option TypedReference → Option TypedReference → Bool
data_source_equal none none = true
data_source_equal none (some b) = false
data_source_equal (some a) none = false
data_source_equal (some a) (some b) =
    text_eq a.kind b.kind && (text_eq a.name b.name && equal_texts a.api_group b.api_group)

module _ (api : ClaimApi) (crd : FullNode) where
  unfoldable pub find_referenced : TypedReference → Checked (Option DataSource)
  find_referenced ref =
      if is_snapshot ref
      then elim (api.get_snapshot ref.name) [
        | failed e ↦ ok none
        | found vs ↦ restored ref vs.status
      ]
      else if is_claim ref
      then elim (api.get_claim ref.name) [
        | failed e ↦ ok none
        | found c ↦
            ok (some (record { reference = some ref; size = quantity_of (some c.body.capacity) }))
      ]
      else ok none

  unfoldable pub find_auto : ℕ → Option AutoDataSource → Checked (Option DataSource)
  find_auto i none = ok none
  find_auto i (some spec) = elim spec.volume_snapshot_selector [
    | [] ↦ ok none
    | _ ∷ _ ↦ recent_source (recent_volume_snapshot (api.list_snapshots (selector_of crd i spec)))
  ]

  unfoldable pub find_data_source_with_pvc_spec : ClaimTemplate → ℕ → Checked (Option DataSource)
  unfolding find_referenced find_auto
  find_data_source_with_pvc_spec tpl i = elim tpl.data_source [
    | some ref ↦ find_referenced ref
    | none ↦ find_auto i tpl.auto_data_source
  ]

  unfoldable pub find_data_source : ℕ → Checked (Option DataSource)
  unfolding find_data_source_with_pvc_spec
  find_data_source i = find_data_source_with_pvc_spec (template_of crd i) i

  -- The source that a round of the loop puts into the map: for an existing claim only where it
  -- differs, for a new one at least the size of the template.
  abbrev pub source_for : Option Claim → Option DataSource → Option DataSource
  source_for (some c) none = none
  source_for (some c) (some ds) =
      if data_source_equal c.body.data_source ds.reference then none else some ds
  source_for none (some ds) = some ds
  source_for none none =
      some (record {
        reference = none;
        size = quantity_of crd.body.spec.volume_claim_template.requests;
      })

  unfoldable pub find_sources : List Claim → List ℕ → Checked (List (ℕ × DataSource))
  unfolding find_data_source
  find_sources current [] = ok []
  find_sources current (i ∷ is) =
      let rest = find_sources current is in
      elim (find_data_source i) [
        | panic ↦ panic
        | ok ds ↦ elim rest [
          | panic ↦ panic
          | ok m ↦ elim (source_for (find_claim (pvc_name crd i) current) ds) [
            | none ↦ ok m
            | some s ↦ ok ((i, s) ∷ m)
          ]
        ]
      ]
