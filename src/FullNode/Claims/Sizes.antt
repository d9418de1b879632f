-- ===== src/FullNode/Claims/Sizes.antt =====
-- The storage that the claims of internal/fullnode/pvc_builder.go ask for.
use cosmos_operator.Common.{
  ℕ, ◌≤◌, Text, text_Eq, ◌≡◌, ◌⊎◌, refl, ap, Option, none, some, insert, lookup-insert_self, arith,
  Option-cases, inl, inr, pos, ok, Checked-cases,
}
use cosmos_operator.Diff.{Resource, adapted, object, revision}
use cosmos_operator.FullNode.{Quantity, Quantities, FullNode}
use cosmos_operator.FullNode.Claims.{
  ClaimBody, Claim, DataSource, storage, or_zero, quantity_of, raise_storage, scaled_size,
  pvc_resources, wanted_claim, build_pvc, adapt_pvc, set_data_source, set_storage,
}

-- A quantity is raised where there is a map, or nothing to raise.
raise_storage-le :
    (q : Quantity) (reqs : Option Quantities) {out : Option Quantities}
    → raise_storage q reqs ≡ ok out
    → (q ≤ quantity_of out)
      × (quantity_of reqs ≤ quantity_of out)
      × ((quantity_of out ≡ q) ⊎ (quantity_of out ≡ quantity_of reqs))
unfolding raise_storage
raise_storage-le q none e = ground arith
raise_storage-le q (some m) e = ground (arith, lookup-insert_self storage q m)

-- Without a data source, the storage of a claim is no less than the request of the template, the
-- capacity of the existing claim, and the size that the auto scaler asks for grown by two percent.
pub pvc_resources-le :
    (crd : FullNode) (name : Text) (existing : Quantity) {out : Option Quantities}
    → pvc_resources crd name none existing ≡ ok out
    → (quantity_of crd.body.spec.volume_claim_template.requests ≤ quantity_of out)
      × (existing ≤ quantity_of out)
      × (or_zero (scaled_size crd name) ≤ quantity_of out)
unfolding pvc_resources
pvc_resources-le crd name existing {out} e =
    let reqs = crd.body.spec.volume_claim_template.requests in
    elim (Option-cases (scaled_size crd name)) [
      | inl s ↦
          let r = raise_storage-le existing reqs {out = out} (ground arith) in
          (r.1, r.0, rw s (omega arith))
      | inr (q, s) ↦ elim (Checked-cases (raise_storage q reqs)) [
        | inl p ↦ ground arith
        | inr (mid, p) ↦
            let one = raise_storage-le q reqs {out = mid} p in
            let two = raise_storage-le existing mid {out = out} (ground arith) in
            (omega (arith, one.1, two.1), two.0, rw s (omega (arith, one.0, two.1)))
      ]
    ]

-- With a data source, the storage is the size of the source, whatever the capacity of the existing
-- claim and the size that the auto scaler asks for, and the revision does not depend on the source.
pub build_pvc-source :
    (hash : Claim → Text) (crd : FullNode) (ds : DataSource) (existing : Option Claim) (i : ℕ)
    {m : Quantities}
    → crd.body.spec.volume_claim_template.requests ≡ some m
    → (r : Resource ClaimBody) × (build_pvc hash crd (some ds) existing i ≡ ok r)
      × ((object r).body.data_source ≡ ds.reference)
      × (quantity_of (object r).body.requests ≡ ds.size)
      × (revision r ≡ hash (wanted_claim crd i (some (insert storage ds.size m))))
unfolding build_pvc object revision pvc_resources wanted_claim
build_pvc-source hash crd ds existing i {m} e =
    let c = wanted_claim crd i (some (insert storage ds.size m)) in
    (
      adapted (set_data_source ds.reference c) (pos i) (hash c),
      ap (adapt_pvc hash crd i ds.reference) (ap (set_storage ds.size) e),
      refl,
      ground (arith, lookup-insert_self storage ds.size m),
      refl,
    )
