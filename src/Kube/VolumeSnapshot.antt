-- ===== src/Kube/VolumeSnapshot.antt =====
-- internal/kube/volume_snapshot.go, and the VolumeSnapshot it reads. A time counts from the zero of
-- `time.Time`. The lists are sorted by insertion, the newest first: Go leaves open the order of
-- snapshots of the same time.
pub mod Newest
use cosmos_operator.Common.{
  ℕ, Text, List, [], ◌∷◌, Bool, false, Option, none, some, ltb, if◌then◌else◌, select,
}
use cosmos_operator.Kube.Client.{ApiError, Answer, found, failed}

pub record VolumeSnapshotStatus : Type 0 where
  pub creation_time : Option ℕ
  pub ready_to_use : Option Bool
  pub restore_size : Option ℕ

pub record VolumeSnapshot : Type 0 where
  pub name : Text
  pub namespace : Text
  pub labels : List (Text × Text)
  pub claim_name : Text
  pub class_name : Text
  pub status : Option VolumeSnapshotStatus

abbrev pub volume_snapshot_is_ready : Option VolumeSnapshotStatus → Bool
volume_snapshot_is_ready none = false
volume_snapshot_is_ready (some st) = elim st.ready_to_use [ none ↦ false | some b ↦ b ]

abbrev pub status_creation_time : Option VolumeSnapshotStatus → ℕ
status_creation_time none = 0
status_creation_time (some st) = elim st.creation_time [ none ↦ 0 | some t ↦ t ]

abbrev pub creation_time_of : VolumeSnapshot → ℕ
creation_time_of v = status_creation_time v.status

unfoldable pub insert_newest : VolumeSnapshot → List VolumeSnapshot → List VolumeSnapshot
insert_newest v [] = v ∷ []
insert_newest v (u ∷ us) =
    if ltb (creation_time_of v) (creation_time_of u) then u ∷ insert_newest v us else v ∷ u ∷ us

-- `sort.Slice` with `!lhs.Before(rhs)` on the creation times.
unfoldable pub sort_newest : List VolumeSnapshot → List VolumeSnapshot
unfolding insert_newest
sort_newest [] = []
sort_newest (v ∷ vs) = insert_newest v (sort_newest vs)

-- The results of `RecentVolumeSnapshot`.
pub data RecentResult : Type 0 where
  recent : VolumeSnapshot → RecentResult
  none_ready : RecentResult
  list_error : ApiError → RecentResult

abbrev pub is_ready : VolumeSnapshot → Bool
is_ready v = volume_snapshot_is_ready v.status

abbrev pub recent_of : List VolumeSnapshot → RecentResult
recent_of [] = none_ready
recent_of (v ∷ vs) = recent v

unfoldable pub recent_volume_snapshot : Answer (List VolumeSnapshot) → RecentResult
unfolding sort_newest
recent_volume_snapshot (failed e) = list_error e
recent_volume_snapshot (found items) = recent_of (sort_newest (select is_ready items))
