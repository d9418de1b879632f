-- ===== src/Kube/VolumeSnapshot/Newest.antt =====
-- Sorting by age in internal/kube/volume_snapshot.go: the order, and that nothing is lost.
use mathlib.Core.List.{Permᴰ}
use cosmos_operator.Common.{
  ℕ, ◌≤◌, List, [], ◌∷◌, ◌≡◌, refl, Bool-cases, inl, inr, arith, ltb, select, sym,
}
use cosmos_operator.Kube.VolumeSnapshot.{
  VolumeSnapshot, creation_time_of, insert_newest, sort_newest, recent, recent_of,
  recent_volume_snapshot, is_ready,
}
use cosmos_operator.Kube.Client.{found}

-- Every snapshot is no newer than `n`.
abbrev pub AllUntil : ℕ → List VolumeSnapshot → Type 0
AllUntil n [] = Unit
AllUntil n (v ∷ vs) = (creation_time_of v ≤ n) × AllUntil n vs

-- The newest first.
abbrev pub IsNewestFirst : List VolumeSnapshot → Type 0
IsNewestFirst [] = Unit
IsNewestFirst (v ∷ vs) = AllUntil (creation_time_of v) vs × IsNewestFirst vs

pub AllUntil-trans : (m n : ℕ) (vs : List VolumeSnapshot) → m ≤ n → AllUntil m vs → AllUntil n vs
AllUntil-trans m n [] le h = tt
AllUntil-trans m n (v ∷ vs) le h = (omega arith, AllUntil-trans m n vs le h.1)

AllUntil-insert_newest :
    (n : ℕ) (v : VolumeSnapshot) (vs : List VolumeSnapshot)
    → creation_time_of v ≤ n
    → AllUntil n vs
    → AllUntil n (insert_newest v vs)
unfolding insert_newest
AllUntil-insert_newest n v [] le h = (le, tt)
AllUntil-insert_newest n v (u ∷ us) le h = ground (arith, AllUntil-insert_newest n v us le h.1)

insert_newest-IsNewestFirst :
    (v : VolumeSnapshot) (vs : List VolumeSnapshot)
    → IsNewestFirst vs
    → IsNewestFirst (insert_newest v vs)
unfolding insert_newest
insert_newest-IsNewestFirst v [] h = (tt, tt)
insert_newest-IsNewestFirst v (u ∷ us) h = ground (
  arith,
  insert_newest-IsNewestFirst v us h.1,
  AllUntil-insert_newest (creation_time_of u) v us,
  AllUntil-trans (creation_time_of u) (creation_time_of v) us,
)

pub sort_newest-IsNewestFirst : (vs : List VolumeSnapshot) → IsNewestFirst (sort_newest vs)
unfolding sort_newest
sort_newest-IsNewestFirst [] = tt
sort_newest-IsNewestFirst (v ∷ vs) =
    insert_newest-IsNewestFirst v (sort_newest vs) (sort_newest-IsNewestFirst vs)

pub refl_perm : (vs : List VolumeSnapshot) → Permᴰ vs vs
refl_perm [] = Permᴰ.nil
refl_perm (v ∷ vs) = Permᴰ.cons refl (refl_perm vs)

insert_newest-Perm :
    (v : VolumeSnapshot) (vs : List VolumeSnapshot) → Permᴰ (insert_newest v vs) (v ∷ vs)
unfolding insert_newest
insert_newest-Perm v [] = refl_perm (v ∷ [])
insert_newest-Perm v (u ∷ us) = elim (Bool-cases (ltb (creation_time_of v) (creation_time_of u))) [
  | inl e ↦ rw e (Permᴰ.trans (Permᴰ.cons refl (insert_newest-Perm v us)) (Permᴰ.swap refl refl))
  | inr e ↦ rw e (refl_perm (v ∷ u ∷ us))
]

pub sort_newest-Perm : (vs : List VolumeSnapshot) → Permᴰ (sort_newest vs) vs
unfolding sort_newest
sort_newest-Perm [] = Permᴰ.nil
sort_newest-Perm (v ∷ vs) =
    Permᴰ.trans (insert_newest-Perm v (sort_newest vs)) (Permᴰ.cons refl (sort_newest-Perm vs))

-- The case of `RecentVolumeSnapshot` after the sort.
recent_of-newest :
    (sorted all : List VolumeSnapshot) {v : VolumeSnapshot}
    → IsNewestFirst sorted
    → Permᴰ sorted all
    → recent_of sorted ≡ recent v
    → (rest : List VolumeSnapshot) × Permᴰ (v ∷ rest) all × AllUntil (creation_time_of v) rest
recent_of-newest [] all h p e = ground arith
recent_of-newest (u ∷ us) all {v} h p e =
    let same : u ≡ v = ground arith in rw (sym same) (us, p, h.0)

-- The snapshot that is returned is one of those that are ready, and none of these is newer.
pub recent_volume_snapshot-newest :
    (items : List VolumeSnapshot) {v : VolumeSnapshot}
    → recent_volume_snapshot (found items) ≡ recent v
    → (rest : List VolumeSnapshot) × Permᴰ (v ∷ rest) (select is_ready items)
      × AllUntil (creation_time_of v) rest
unfolding recent_volume_snapshot
recent_volume_snapshot-newest items {v} e =
    let ready = select is_ready items in
    recent_of-newest (sort_newest ready) ready (sort_newest-IsNewestFirst ready)
      (sort_newest-Perm ready) e
