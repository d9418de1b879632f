-- ===== src/FullNode/Claims.antt =====
-- internal/fullnode/pvc_builder.go: the volume claims that a full node wants. The hash of an object
-- is the parameter `hash` of the diff. A write to a nil map panics.
pub mod Sources
pub mod Control
pub mod Sizes
pub mod Deletion
use cosmos_operator.Common.{
  ℕ, ◌*◌, ◌/◌, Text, txt, text_eq, text_Eq, nat_Eq, List, [], ◌∷◌, ◌++◌, Bool, true, false, Option,
  none, some, is_some, find, lookup, insert, format_nat, ltb, pos, if◌then◌else◌, Checked, panic,
  ok,
}
use cosmos_operator.Kube.Labels.{to_name, normalize_metadata}
use cosmos_operator.Kube.Meta.{ObjectMeta, Object}
use cosmos_operator.Diff.{Resource, adapted}
use cosmos_operator.FullNode.{
  new_meta, Quantity, Quantities, TypedReference, ClaimTemplate, DisableStrategy, disable_all,
  disable_pod, InstanceOverride, PvcAutoScaleStatus, FullNode, FullNodeBody, app_name,
  instance_name, instance_label, default_labels, preserve_merge_into, override_of, ordinals,
}

-- `PersistentVolumeClaim`: its spec, and its status.
pub record ClaimBody : Type 0 where
  pub access_modes : List Text
  pub requests : Option Quantities
  pub storage_class_name : Text
  pub volume_mode : Text
  pub data_source : Option TypedReference
  pub phase : Text
  pub capacity : Quantities

abbrev pub Claim : Type 0
Claim = Object ClaimBody

-- `dataSource`.
pub record DataSource : Type 0 where
  pub reference : Option TypedReference
  pub size : Quantity

abbrev pub storage : Text
storage = txt "storage"

-- The value of a key of a map of quantities: zero where there is none.
abbrev pub or_zero : Option Quantity → Quantity
or_zero none = 0
or_zero (some q) = q

abbrev pub quantity_of : Option Quantities → Quantity
quantity_of none = 0
quantity_of (some m) = or_zero (lookup storage m)

-- A write to the requests.
abbrev pub set_storage : Quantity → Option Quantities → Checked (Option Quantities)
set_storage q none = panic
set_storage q (some m) = ok (some (insert storage q m))

-- A write of a quantity that is larger than the one there.
unfoldable pub raise_storage : Quantity → Option Quantities → Checked (Option Quantities)
raise_storage q reqs = if ltb (quantity_of reqs) q then set_storage q reqs else ok reqs

unfoldable pub pvc_name : FullNode → ℕ → Text
pvc_name crd i = to_name (txt "pvc-" ++ (app_name crd ++ (txt "-" ++ format_nat i)))

abbrev pub is_disable_all : Option DisableStrategy → Bool
is_disable_all (some disable_all) = true
is_disable_all _ = false

unfoldable pub pvc_disabled : FullNode → ℕ → Bool
pvc_disabled crd i = elim (override_of crd i) [
  | none ↦ false
  | some o ↦ is_disable_all o.disable_strategy
]

-- The size that the auto scaler asks for, with the growth factor 102.
abbrev pub scaled_size : FullNode → Text → Option Quantity
scaled_size crd name = elim crd.body.status.pvc_auto_scale [
  | none ↦ none
  | some m ↦ elim (lookup name m) [ none ↦ none | some st ↦ some (st.requested_size * 102 / 100) ]
]

-- The two steps of `pvcResources` after the data source.
abbrev pub raise_scaled : Option Quantity → Option Quantities → Checked (Option Quantities)
raise_scaled none reqs = ok reqs
raise_scaled (some q) reqs = raise_storage q reqs

abbrev pub raise_existing : Quantity → Checked (Option Quantities) → Checked (Option Quantities)
raise_existing q panic = panic
raise_existing q (ok reqs) = raise_storage q reqs

unfoldable pub pvc_resources :
    FullNode → Text → Option DataSource → Quantity → Checked (Option Quantities)
unfolding raise_storage
pvc_resources crd name (some ds) existing_size =
    set_storage ds.size crd.body.spec.volume_claim_template.requests
pvc_resources crd name none existing_size =
    raise_existing existing_size
      (raise_scaled (scaled_size crd name) crd.body.spec.volume_claim_template.requests)

abbrev pub template_or : ClaimTemplate → Option InstanceOverride → ClaimTemplate
template_or tpl none = tpl
template_or tpl (some o) = elim o.volume_claim_template [ none ↦ tpl | some t ↦ t ]

-- The template of an instance.
abbrev pub template_of : FullNode → ℕ → ClaimTemplate
template_of crd i = template_or crd.body.spec.volume_claim_template (override_of crd i)

abbrev pub is_bound : Claim → Bool
is_bound c = text_eq c.body.phase (txt "Bound")

-- The first current claim of a name.
abbrev pub find_claim : Text → List Claim → Option Claim
find_claim name claims = find (λ c. text_eq c.meta.name name) claims

-- What a claim keeps of the existing one: its capacity and its source, where it is bound and stays.
unfoldable pub kept_of : Option Claim → Quantity × Option TypedReference
kept_of none = (0, none)
kept_of (some c) = elim c.meta.deletion_timestamp [
  | some _ ↦ (0, none)
  | none ↦
      if is_bound c then (quantity_of (some c.body.capacity), c.body.data_source) else (0, none)
]

abbrev pub slice_or_default : List Text → List Text → List Text
slice_or_default [] d = d
slice_or_default (x ∷ xs) d = x ∷ xs

abbrev pub value_or_default : Option Text → Text → Text
value_or_default none d = d
value_or_default (some v) d = v

unfoldable pub claim_meta : FullNode → ℕ → ObjectMeta
claim_meta crd i =
    let tpl = template_of crd i in
    normalize_metadata (
      new_meta crd.meta.namespace (pvc_name crd i)
        (preserve_merge_into (insert instance_label (instance_name crd i) (default_labels crd))
          tpl.metadata.labels)
        (preserve_merge_into [] tpl.metadata.annotations))

-- The claim of an instance, before its data source is set.
unfoldable pub wanted_claim : FullNode → ℕ → Option Quantities → Claim
unfolding claim_meta
wanted_claim crd i reqs =
    let tpl = template_of crd i in
    record {
      meta = claim_meta crd i;
      body = record {
        access_modes = slice_or_default tpl.access_modes (txt "ReadWriteOnce" ∷ []);
        requests = reqs;
        storage_class_name = tpl.storage_class_name;
        volume_mode = value_or_default tpl.volume_mode (txt "Filesystem");
        data_source = none;
        phase = [];
        capacity = [];
      };
    }

abbrev pub set_data_source : Option TypedReference → Claim → Claim
set_data_source ref c = let b = c.body in record c { body = record b { data_source = ref } }

-- The source of a claim and the size of the existing one: that of the map, or what is kept.
abbrev pub source_and_size : Option DataSource → Option Claim → Option TypedReference × Quantity
source_and_size (some ds) existing = (ds.reference, 0)
source_and_size none existing = ((kept_of existing).1, (kept_of existing).0)

module _ (hash : Claim → Text) (crd : FullNode) where
  -- `Adapt` hashes the claim, and then its data source is set.
  abbrev pub adapt_pvc :
      ℕ → Option TypedReference → Checked (Option Quantities) → Checked (Resource ClaimBody)
  adapt_pvc i ref panic = panic
  adapt_pvc i ref (ok reqs) =
      let c = wanted_claim crd i reqs in ok (adapted (set_data_source ref c) (pos i) (hash c))

  -- A round of `BuildPVCs`.
  unfoldable pub build_pvc : Option DataSource → Option Claim → ℕ → Checked (Resource ClaimBody)
  build_pvc ds existing i =
      let kept = source_and_size ds existing in
      adapt_pvc i kept.0 (pvc_resources crd (pvc_name crd i) ds kept.1)

  unfoldable pub build_each :
      List (ℕ × DataSource) → List Claim → List ℕ → Checked (List (Resource ClaimBody))
  unfolding build_pvc
  build_each sources current [] = ok []
  build_each sources current (i ∷ is) =
      let rest = build_each sources current is in
      if pvc_disabled crd i
      then rest
      else elim (build_pvc (lookup i sources) (find_claim (pvc_name crd i) current) i) [
        | panic ↦ panic
        | ok r ↦ elim rest [ panic ↦ panic | ok rs ↦ ok (r ∷ rs) ]
      ]

  unfoldable pub build_pvcs :
      List (ℕ × DataSource) → List Claim → Checked (List (Resource ClaimBody))
  unfolding build_each
  build_pvcs sources current = build_each sources current (ordinals crd)
