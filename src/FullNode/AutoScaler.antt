-- ===== src/FullNode/AutoScaler.antt =====
-- internal/fullnode/pvc_auto_scaler.go: the sizes that the self healing asks for. Parameters are
-- `intstr.GetScaledValueFromIntOrPercent` of a text and 100 (`percent_of`), `resource.ParseQuantity`
-- (`parse_quantity`), each with `none` for an error, and the floating point share of a value by a
-- percentage, rounded (`share_of`).
pub mod Limits
use cosmos_operator.Common.{
  ℕ, ◌+◌, ◌-◌, ◌*◌, ◌/◌, Text, text_Eq, List, [], ◌∷◌, Bool, true, false, not, Option, none, some,
  lookup, insert, leb, ◌==◌, if◌then◌else◌, ℤ, pos, ltb_ℤ,
}
use cosmos_operator.FullNode.{Quantity, PvcAutoScaleSpec, PvcAutoScaleStatus, FullNodeStatus}

-- `PVCDiskUsage`.
pub record DiskUsage : Type 0 where
  pub name : Text
  pub percent_used : ℤ
  pub capacity : Quantity

-- One, as a quantity.
abbrev pub one : Quantity
one = 100000000000

-- `Quantity.Value`, rounded up, and `NewQuantity`.
abbrev pub value : Quantity → ℕ
value q = (q + 99999999999) / one

abbrev pub new_quantity : ℕ → Quantity
new_quantity n = n * one

abbrev pub Requested : Type 0
Requested = List (Text × PvcAutoScaleStatus)

-- What a round of the loop does: nothing, an error, or a new size.
pub data Resize : Type 0 where
  keep : Resize
  bad_increase : Resize
  resize : Quantity → Resize

abbrev pub is_requested : Option Requested → Text → Quantity → Bool
is_requested none name q = false
is_requested (some m) name q = elim (lookup name m) [
  | none ↦ false
  | some st ↦ value st.requested_size == value q
]

-- The part of a round that follows the maximal size; zero is no maximum.
unfoldable pub limit_size : Quantity → Quantity → Quantity → Resize
limit_size max capacity size =
    if max == 0
    then resize size
    else if leb max capacity
    then keep
    else if leb max size
    then resize max
    else resize size

abbrev pub put_all : Requested → Requested → Requested
put_all [] m = m
put_all ((k, v) ∷ patches) m = put_all patches (insert k v m)

-- What `SignalPVCResize` does to the status.
unfoldable pub apply_patches : Requested → FullNodeStatus → FullNodeStatus
apply_patches patches st = elim st.pvc_auto_scale [
  | none ↦ record st { pvc_auto_scale = some patches }
  | some m ↦ record st { pvc_auto_scale = some (put_all patches m) }
]

module _ (percent_of : Text → Option ℕ) (parse_quantity : Text → Option Quantity)
    (share_of : ℕ → ℕ → ℕ) where
  unfoldable pub calc_next_capacity : Quantity → Text → Option Quantity
  calc_next_capacity current increase = elim (percent_of increase) [
    | some percent ↦ some (new_quantity (value current + share_of (value current) percent))
    | none ↦ elim (parse_quantity increase) [
      | none ↦ none
      | some more ↦ some (new_quantity (value current + value more))
    ]
  ]

  unfoldable pub next_size : PvcAutoScaleSpec → Option Requested → DiskUsage → Resize
  unfolding limit_size calc_next_capacity
  next_size spec status usage =
      if ltb_ℤ usage.percent_used (pos spec.used_space_percentage)
      then keep
      else elim (calc_next_capacity usage.capacity spec.increase_quantity) [
        | none ↦ bad_increase
        | some size ↦
            if is_requested status usage.name size
            then keep
            else limit_size spec.max_size usage.capacity size
      ]

  -- The loop, from the patches so far and whether an increase was bad.
  unfoldable pub collect_patches :
      ℕ → PvcAutoScaleSpec → Option Requested → List DiskUsage → Requested → Bool → Requested × Bool
  unfolding next_size
  collect_patches now spec status [] patches bad = (patches, bad)
  collect_patches now spec status (u ∷ us) patches bad = elim (next_size spec status u) [
    | keep ↦ collect_patches now spec status us patches bad
    | bad_increase ↦ collect_patches now spec status us patches true
    | resize q ↦
        let st : PvcAutoScaleStatus = record { requested_size = q; requested_at = now } in
        collect_patches now spec status us (insert u.name st patches) bad
  ]

  -- `SignalPVCResize`: the patches, which are written if there are any, and whether a joined error
  -- is returned besides that of the write.
  unfoldable pub signal_pvc_resize :
      ℕ → PvcAutoScaleSpec → FullNodeStatus → List DiskUsage → Requested × Bool
  unfolding collect_patches
  signal_pvc_resize now spec status results =
      collect_patches now spec status.pvc_auto_scale results [] false
