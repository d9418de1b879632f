-- ===== src/VolSnapshot/Control/Choice.antt =====
-- What internal/volsnapshot/vol_snapshot_control.go chooses: the snapshots to delete, and the pod.
use mathlib.Core.List.{Permᴰ}
use cosmos_operator.Common.{
  ℕ, zero, suc, ◌≤◌, min, List, [], ◌∷◌, ◌++◌, true, ◌≡◌, refl, ◌≢◌, Option, none, some, inl, inr,
  Bool-cases, Option-cases, arith, leb, length, take, drop, select, find, take-append-drop, ℤ,
}
use cosmos_operator.Kube.Client.{ApiError, found}
use cosmos_operator.Kube.VolumeSnapshot.{VolumeSnapshot, creation_time_of, sort_newest}
use cosmos_operator.Kube.VolumeSnapshot.Newest.{
  AllUntil, IsNewestFirst, sort_newest-IsNewestFirst, sort_newest-Perm, refl_perm,
}
use cosmos_operator.VolSnapshot.{ScheduledVolumeSnapshot, SnapshotCandidate}
use cosmos_operator.VolSnapshot.Control.{
  SyncedPod, candidate, out_of_range, find_candidate, choose_pod, has_ordinal, to_candidate,
  or_else_default, has_creation_time, old_snapshots, delete_each, delete_old_snapshots,
}

-- No snapshot of the first list is older than one of the second.
abbrev pub IsNewer : List VolumeSnapshot → List VolumeSnapshot → Type 0
IsNewer [] vs = Unit
IsNewer (u ∷ us) vs = AllUntil (creation_time_of u) vs × IsNewer us vs

drop-AllUntil : (n t : ℕ) (vs : List VolumeSnapshot) → AllUntil t vs → AllUntil t (drop n vs)
drop-AllUntil zero t vs h = h
drop-AllUntil (suc n) t [] h = tt
drop-AllUntil (suc n) t (v ∷ vs) h = drop-AllUntil n t vs h.1

take-IsNewer :
    (n : ℕ) (vs : List VolumeSnapshot) → IsNewestFirst vs → IsNewer (take n vs) (drop n vs)
take-IsNewer zero vs h = tt
take-IsNewer (suc n) [] h = tt
take-IsNewer (suc n) (v ∷ vs) h =
    (drop-AllUntil n (creation_time_of v) vs h.0, take-IsNewer n vs h.1)

IsNewer-nil : (us : List VolumeSnapshot) → IsNewer us []
IsNewer-nil [] = tt
IsNewer-nil (u ∷ us) = (tt, IsNewer-nil us)

append_nil : (us : List VolumeSnapshot) → us ++ [] ≡ us
append_nil [] = refl
append_nil (u ∷ us) = cc (append_nil us)

Perm-length : {us vs : List VolumeSnapshot} → Permᴰ us vs → length us ≡ length vs
Perm-length Permᴰ.nil = refl
Perm-length (Permᴰ.cons e p) = omega (arith, Perm-length p)
Perm-length (Permᴰ.swap e f) = refl
Perm-length (Permᴰ.trans p q) = omega (arith, Perm-length p, Perm-length q)

length-take : (n : ℕ) (vs : List VolumeSnapshot) → length (take n vs) ≡ min n (length vs)
length-take zero vs = omega arith
length-take (suc n) [] = omega arith
length-take (suc n) (v ∷ vs) = omega (arith, length-take n vs)

delete_each-all :
    (delete : VolumeSnapshot → Option ApiError) (vs : List VolumeSnapshot)
    → (delete_each delete vs).0 ≡ vs
unfolding delete_each
delete_each-all delete [] = refl
delete_each-all delete (v ∷ vs) = ground (arith, delete_each-all delete vs)

-- The snapshots that stay: as many as the limit allows, none older than one that goes.
abbrev pub IsKept : ℕ → List VolumeSnapshot → List VolumeSnapshot → List VolumeSnapshot → Type 0
IsKept limit all gone kept =
    Permᴰ (kept ++ gone) all × (length kept ≡ min limit (length all)) × IsNewer kept gone

old_snapshots-IsKept :
    (limit : ℕ) (items : List VolumeSnapshot)
    → (kept : List VolumeSnapshot) × IsKept limit
        (select has_creation_time items)
        (old_snapshots limit items)
        kept
unfolding old_snapshots
old_snapshots-IsKept limit items =
    let all = select has_creation_time items in
    let sorted = sort_newest all in
    elim (Bool-cases (leb (length all) limit)) [
      | inl e ↦ rw e (all, (rw (append_nil all) (refl_perm all), ground arith, IsNewer-nil all))
      | inr e ↦ rw e (
        take limit sorted,
        (
          rw (take-append-drop limit sorted) (sort_newest-Perm all),
          omega (arith, length-take limit sorted, Perm-length (sort_newest-Perm all)),
          take-IsNewer limit sorted (sort_newest-IsNewestFirst all),
        ),
      )
    ]

-- Of the listed snapshots that have a creation time, all are asked to be deleted but the newest,
-- as many as the limit allows (3 where it is 0 or less), whatever the answers to the deletions.
pub delete_old_snapshots-IsKept :
    (items : List VolumeSnapshot) (delete : VolumeSnapshot → Option ApiError)
    (crd : ScheduledVolumeSnapshot)
    → (kept : List VolumeSnapshot) × IsKept
        (or_else_default 3 crd.spec.limit)
        (select has_creation_time items)
        (delete_old_snapshots (found items) delete crd).0
        kept
unfolding delete_old_snapshots
delete_old_snapshots-IsKept items delete crd =
    let limit = or_else_default 3 crd.spec.limit in
    rw (delete_each-all delete (old_snapshots limit items)) (old_snapshots-IsKept limit items)

-- The pod has the ordinal, if one is asked for.
abbrev pub HasOrdinal : Option ℤ → SyncedPod → Type 0
HasOrdinal none p = Unit
HasOrdinal (some n) p = has_ordinal n p ≡ true

abbrev pub IsAmong : SyncedPod → List SyncedPod → Type 0
IsAmong p ps = (before after : List SyncedPod) × (ps ≡ before ++ (p ∷ after))

find-IsAmong :
    (n : ℤ) (ps : List SyncedPod) (p : SyncedPod)
    → find (has_ordinal n) ps ≡ some p
    → IsAmong p ps × (has_ordinal n p ≡ true)
find-IsAmong n [] p e = ground arith
find-IsAmong n (q ∷ ps) p e = elim (Bool-cases (has_ordinal n q)) [
  | inl h ↦ let same : q ≡ p = ground arith in (([], ps, cc same), cc (same, h))
  | inr h ↦
      let rest = find-IsAmong n ps p (ground arith) in
      ((q ∷ rest.0.0, rest.0.1, cc rest.0.2), rest.1)
]

choose_pod-IsAmong :
    (o : Option ℤ) (ps : List SyncedPod) {c : SnapshotCandidate}
    → choose_pod o ps ≡ candidate c
    → (p : SyncedPod) × IsAmong p ps × (c ≡ to_candidate p) × HasOrdinal o p
unfolding choose_pod
choose_pod-IsAmong none [] e = ground arith
choose_pod-IsAmong none (p ∷ ps) e = (p, ([], ps, refl), ground arith, tt)
choose_pod-IsAmong (some n) ps e = elim (Option-cases (find (has_ordinal n) ps)) [
  | inl f ↦ ground arith
  | inr (p, f) ↦ let among = find-IsAmong n ps p f in (p, among.0, ground arith, among.1)
]

-- A candidate that is found is one of the pods in sync, with the ordinal that the resource asks for,
-- and there are at least the wanted number of pods in sync (2 where it is 0 or less).
pub find_candidate-IsAmong :
    (synced : List SyncedPod) (crd : ScheduledVolumeSnapshot) {c : SnapshotCandidate}
    → find_candidate synced crd ≡ candidate c
    → (or_else_default 2 crd.spec.min_available ≤ length synced)
      × ((p : SyncedPod) × IsAmong p synced
          × (c ≡ to_candidate p)
          × HasOrdinal crd.spec.full_node_ordinal p)
unfolding find_candidate
find_candidate-IsAmong synced crd {c} e =
    (ground arith, choose_pod-IsAmong crd.spec.full_node_ordinal synced {c = c} (ground arith))

-- `FindCandidate` does not index an empty list.
pub find_candidate-ne-out_of_range :
    (synced : List SyncedPod) (crd : ScheduledVolumeSnapshot)
    → find_candidate synced crd ≢ out_of_range
unfolding find_candidate choose_pod
find_candidate-ne-out_of_range [] crd e = ground arith
find_candidate-ne-out_of_range (p ∷ ps) crd e = ground arith
