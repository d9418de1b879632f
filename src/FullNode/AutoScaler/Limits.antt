-- ===== src/FullNode/AutoScaler/Limits.antt =====
-- The bounds of the sizes that internal/fullnode/pvc_auto_scaler.go asks for, and what the volume
-- claims of internal/fullnode/pvc_builder.go make of them.
use mathlib.Core.List.{Memᴰ}
use mathlib.Core.List.Memᴰ.{head, tail}
use mathlib.Core.Path.{subst}
use cosmos_operator.Common.{
  ℕ, ◌*◌, ◌/◌, ◌≤◌, ◌<◌, Text, text_Eq, List, [], ◌∷◌, Bool, false, true, ◌≡◌, ◌≢◌, ◌⊎◌, refl,
  Option, none, some, lookup, insert, lookup-insert, arith, text_eq, pos, ◌≤ℤ◌, Bool-cases, inl,
  inr, ok, text_eq_iff,
}
use cosmos_operator.FullNode.{
  Quantity, Quantities, PvcAutoScaleSpec, PvcAutoScaleStatus, FullNodeStatus, FullNode,
}
use cosmos_operator.FullNode.AutoScaler.{
  DiskUsage, Requested, Resize, keep, bad_increase, resize, limit_size, next_size, collect_patches,
  signal_pvc_resize,
}
use cosmos_operator.FullNode.Claims.{quantity_of, scaled_size, pvc_resources}
use cosmos_operator.FullNode.Claims.Sizes.{pvc_resources-le}

limit_size-le :
    (max capacity size q : Quantity)
    → limit_size max capacity size ≡ resize q
    → max ≢ 0
    → (q ≤ max) × (capacity < max)
unfolding limit_size
limit_size-le max capacity size q e n = ground arith

Resize-cases : (r : Resize) → (r ≡ keep) ⊎ ((r ≡ bad_increase) ⊎ ((q : Quantity) × (r ≡ resize q)))
Resize-cases keep = inl refl
Resize-cases bad_increase = inr (inl refl)
Resize-cases (resize q) = inr (inr (q, refl))

-- A property of the entries of a map, one of which is written.
insert-All :
    (P : Text → PvcAutoScaleStatus → Type 0) (k : Text) (v : PvcAutoScaleStatus) (m : Requested)
    → P k v
    → ((name : Text) (st : PvcAutoScaleStatus) → lookup name m ≡ some st → P name st)
    → (name : Text) (st : PvcAutoScaleStatus) → lookup name (insert k v m) ≡ some st
    → P name st
insert-All P k v m p h name st e = elim (Bool-cases (text_eq k name)) [
  | inl y ↦
      let same : k ≡ name = ground (arith, text_eq_iff k name) in
      let equal : v ≡ st = ground (arith, lookup-insert k name v m) in
      subst (λ n. P n st) same (subst (P k) equal p)
  | inr y ↦ h name st (ground (arith, lookup-insert k name v m))
]

absent :
    {P : Type 0} (name : Text) (st : PvcAutoScaleStatus)
    → lookup {V = PvcAutoScaleStatus} name [] ≡ some st
    → P
unfolding lookup
absent name st e = ground arith

-- A pod whose claim is due: the used share reaches the trigger, the capacity is below the maximum
-- and the size is not above it, if there is a maximum.
pub record IsDue (spec : PvcAutoScaleSpec) (u : DiskUsage) (q : Quantity) : Type 0 where
  pub triggered : pos spec.used_space_percentage ≤ℤ u.percent_used
  pub limited : spec.max_size ≢ 0 → (q ≤ spec.max_size) × (u.capacity < spec.max_size)

module _ (percent_of : Text → Option ℕ) (parse_quantity : Text → Option Quantity)
    (share_of : ℕ → ℕ → ℕ) (now : ℕ) (spec : PvcAutoScaleSpec) where
  next_size-IsDue :
      (status : Option Requested) (u : DiskUsage) (q : Quantity)
      → next_size percent_of parse_quantity share_of spec status u ≡ resize q
      → IsDue spec u q
  unfolding next_size
  next_size-IsDue status u q e = record {
    triggered = ground (arith, u.percent_used);
    limited = ground (arith, limit_size-le spec.max_size u.capacity);
  }

  collect_patches-All :
      (status : Option Requested) (P : Text → PvcAutoScaleStatus → Type 0) (us : List DiskUsage)
      (patches : Requested) (bad : Bool)
      → ((u : DiskUsage) (q : Quantity)
          → Memᴰ u us
          → IsDue spec u q
          → P u.name (record { requested_size = q; requested_at = now }))
      → ((name : Text) (st : PvcAutoScaleStatus) → lookup name patches ≡ some st → P name st)
      → (name : Text) (st : PvcAutoScaleStatus)
      → lookup name
          (collect_patches percent_of parse_quantity share_of now spec status us patches bad).0
        ≡ some st
      → P name st
  unfolding collect_patches
  collect_patches-All status P [] patches bad p h name st e = h name st e
  collect_patches-All status P (u ∷ us) patches bad p h name st e =
      let later : (v : DiskUsage) (q : Quantity)
          → Memᴰ v us
          → IsDue spec v q
          → P v.name (record { requested_size = q; requested_at = now }) =
        λ v q m. p v q (tail m) in
      let size = next_size percent_of parse_quantity share_of spec status u in
      elim (Resize-cases size) [
        | inl x ↦ collect_patches-All status P us patches bad later h name st (ground arith)
        | inr (inl x) ↦ collect_patches-All status P us patches true later h name st (ground arith)
        | inr (inr (q, x)) ↦
            let st' : PvcAutoScaleStatus = record { requested_size = q; requested_at = now } in
            let due : P u.name st' = p u q (head refl) (next_size-IsDue status u q x) in
            collect_patches-All status P us (insert u.name st' patches) bad later
              (λ name' st'' f. insert-All P u.name st' patches due h name' st'' f) name st
              (ground arith)
      ]

  -- Each size that is signalled is for a claim among the measured ones: its used share reaches the
  -- trigger and, where there is a maximal size, its capacity is below it and the signalled size is
  -- not above it.
  pub signal_pvc_resize-IsDue :
      (status : FullNodeStatus) (results : List DiskUsage) (name : Text) (st : PvcAutoScaleStatus)
      → lookup name (signal_pvc_resize percent_of parse_quantity share_of now spec status results).0
        ≡ some st
      → (u : DiskUsage) × Memᴰ u results × (u.name ≡ name) × IsDue spec u st.requested_size
  unfolding signal_pvc_resize
  signal_pvc_resize-IsDue status results name st e =
      collect_patches-All status.pvc_auto_scale
        (λ name' st'.
          (u : DiskUsage) × Memᴰ u results × (u.name ≡ name') × IsDue spec u st'.requested_size)
        results [] false (λ u q m due. (u, m, refl, due)) (λ name' st' f. absent name' st' f) name
        st e

-- The storage of a claim without a data source is above the size that the auto scaler requested,
-- the maximal size included.
pub capped-exceeds :
    (crd : FullNode) (name : Text) (existing : Quantity) {m : Requested} {st : PvcAutoScaleStatus}
    {out : Option Quantities}
    → crd.body.status.pvc_auto_scale ≡ some m
    → lookup name m ≡ some st
    → 100 ≤ st.requested_size
    → pvc_resources crd name none existing ≡ ok out
    → st.requested_size < quantity_of out
capped-exceeds crd name existing {m} {st} {out} e f h r =
    let le = (pvc_resources-le crd name existing {out = out} r).2 in
    let size : scaled_size crd name ≡ some (st.requested_size * 102 / 100) = ground arith in
    let grown : st.requested_size * 102 / 100 ≤ quantity_of out = ground (arith, le, size) in
    omega (arith, grown)
