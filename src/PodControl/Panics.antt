-- ===== src/PodControl/Panics.antt =====
-- The writes to the sync info in internal/fullnode/pod_control.go, which panic where the map has no such pod.
use cosmos_operator.Common.{
  ℕ, Text, txt, text_eq, text_eq_iff, text_Eq, List, [], ◌∷◌, ◌++◌, Bool, true, false, ◌≡◌, ◌≢◌,
  ◌↔◌, refl, Option, none, some, is_some, lookup, insert, lookup-insert, arith, ℤ, Checked,
  Checked-cases, panic, Option-cases, inl, inr, suc, if◌then◌else◌,
}
use cosmos_operator.Kube.Client.{ignore_not_found}
use cosmos_operator.PodControl.{
  Pod, PodApi, Session, SyncInfo, Outcome, Scan, panics, no_scan, pod_name, mark_updating,
  replace_pod, find_update, count_pod, is_reachable, scan_pods, roll_pods, roll_out, update_pods,
  ready_pods,
}

-- The sync info has an entry for a name, and for the names of the pods of a list.
abbrev pub HasInfo : SyncInfo → Text → Type 0
HasInfo m name = is_some (lookup name m) ≡ true

abbrev pub AllHaveInfo : SyncInfo → List Pod → Type 0
AllHaveInfo m [] = Unit
AllHaveInfo m (p ∷ ps) = HasInfo m (pod_name p) × AllHaveInfo m ps

-- No entry of the first is missing in the second.
abbrev IsKept : SyncInfo → SyncInfo → Type 0
IsKept m n = (name : Text) → HasInfo m name → HasInfo n name

AllHaveInfo-IsKept :
    (m n : SyncInfo) (ps : List Pod) → IsKept m n → AllHaveInfo m ps → AllHaveInfo n ps
AllHaveInfo-IsKept m n [] k h = tt
AllHaveInfo-IsKept m n (p ∷ ps) k h = (k (pod_name p) h.0, AllHaveInfo-IsKept m n ps k h.1)

AllHaveInfo-append :
    (m : SyncInfo) (ps : List Pod) (u : Pod)
    → AllHaveInfo m ps
    → HasInfo m (pod_name u)
    → AllHaveInfo m (ps ++ (u ∷ []))
AllHaveInfo-append m [] u h k = (k, tt)
AllHaveInfo-append m (p ∷ ps) u h k = (h.0, AllHaveInfo-append m ps u h.1 k)

mark_updating-HasInfo :
    (name message : Text) (m : SyncInfo)
    → HasInfo m name
    → (n : SyncInfo) × (mark_updating name message m ≡ some n) × IsKept m n
unfolding mark_updating
mark_updating-HasInfo name message m h = elim (Option-cases (lookup name m)) [
  | inl e ↦ ground (arith, e, h)
  | inr (st, e) ↦ (
    insert name (record st { in_sync = none; error = some message }) m,
    rw (mark_updating, e) refl,
    λ other k.
        ground (
          arith,
          k,
          lookup-insert name other (record st { in_sync = none; error = some message }) m,
        ),
  )
]

find_update-name :
    (name : Text) (us : List Pod) {u : Pod} → find_update name us ≡ some u → pod_name u ≡ name
find_update-name name [] {u} e = cc
find_update-name name (v ∷ us) {u} e =
    ground (arith, e, text_eq_iff name (pod_name v), find_update-name name us {u = u})

-- An outcome that is no panic, with the sync info kept.
abbrev IsCalm : Session → Option Outcome → Session → Type 0
IsCalm s o t = (o ≢ some panics) × IsKept s.sync_info t.sync_info

module _ (api : PodApi) where
  replace_pod-IsCalm :
      (name message : Text) (p : Pod) (s : Session)
      → HasInfo s.sync_info name
      → let out = replace_pod api name message p s in IsCalm s out.0 out.1
  unfolding replace_pod
  replace_pod-IsCalm name message p s h =
      let r = mark_updating-HasInfo name message s.sync_info h in
      elim (Option-cases (ignore_not_found (api.delete p))) [
        | inr (e, d) ↦ rw (replace_pod, d) ((λ x. cc), λ other k. k)
        | inl d ↦ rw (replace_pod, d, r.1) ((λ x. cc), r.2)
      ]

  -- A scan ends calmly, and the pods whose updates wait have an entry.
  abbrev IsScanned : Session → Option Outcome × Scan × Session → Type 0
  IsScanned s out = IsCalm s out.0 out.2 × AllHaveInfo out.2.sync_info out.1.other_updates

  IsScanned-if :
      (s : Session) (b : Bool) (x y : Option Outcome × Scan × Session)
      → IsScanned s x
      → IsScanned s y
      → IsScanned s (if b then x else y)
  IsScanned-if s true x y h k = h
  IsScanned-if s false x y h k = k

  -- What follows a deletion, unless the deletion ends the loop.
  IsScanned-then :
      (s : Session) (out : Option Outcome × Session) (c : Scan)
      (rest : Option Outcome × Scan × Session)
      → IsCalm s out.0 out.1
      → AllHaveInfo s.sync_info c.other_updates
      → IsScanned out.1 rest
      → IsScanned s (elim out.0 [ some o ↦ (some o, c, out.1) | none ↦ rest ])
  IsScanned-then s (some o, t) c rest calm h k =
      (calm, AllHaveInfo-IsKept s.sync_info t.sync_info c.other_updates calm.1 h)
  IsScanned-then s (none, t) c rest calm h k = ((k.0.0, λ name x. k.0.1 name (calm.1 name x)), k.1)

  scan_pods-IsScanned :
      (ps updates : List Pod) (c : Scan) (s : Session)
      → AllHaveInfo s.sync_info ps
      → AllHaveInfo s.sync_info c.other_updates
      → IsScanned s (scan_pods api ps updates c s)
  unfolding scan_pods
  scan_pods-IsScanned [] updates c s h o = (((λ x. cc), λ name k. k), o)
  scan_pods-IsScanned (p ∷ ps) updates c s h o = elim (Option-cases p.meta.deletion_timestamp) [
    | inr (t, e) ↦ rw (scan_pods, e) (scan_pods-IsScanned ps updates c s h.1 o)
    | inl e ↦
        let name = pod_name p in
        let st = lookup name s.sync_info in
        let c' = count_pod st c in
        elim (Option-cases (find_update name updates)) [
          | inl f ↦ rw (scan_pods, e, f) (scan_pods-IsScanned ps updates c' s h.1 o)
          | inr (u, f) ↦
              let named = find_update-name name updates {u = u} f in
              let others =
                AllHaveInfo-append s.sync_info c.other_updates u o (ground (arith, named, h.0)) in
              let later = record c' { other_updates = c'.other_updates ++ (u ∷ []) } in
              let wait = scan_pods-IsScanned ps updates later s h.1 others in
              let now = record c' { updated_pods = suc c'.updated_pods } in
              let out = replace_pod api name (txt "version upgrade in progress") u s in
              let calm = replace_pod-IsCalm name (txt "version upgrade in progress") u s h.0 in
              let rest =
                scan_pods-IsScanned ps updates now out.1
                  (AllHaveInfo-IsKept s.sync_info out.1.sync_info ps calm.1 h.1)
                  (AllHaveInfo-IsKept s.sync_info out.1.sync_info c.other_updates calm.1 o) in
              let waits = scan_pods api ps updates later s in
              let next = scan_pods api ps updates now out.1 in
              let go = IsScanned-then s out now next calm o rest in
              let away =
                if is_reachable st
                then waits
                else elim out.0 [ some x ↦ (some x, now, out.1) | none ↦ next ] in
              rw (scan_pods, e, f)
                (IsScanned-if s (text_eq p.body.image u.body.image) waits away wait (
                  IsScanned-if s (is_reachable st) waits
                    (elim out.0 [ some x ↦ (some x, now, out.1) | none ↦ next ]) wait go))
        ]
  ]

  roll_pods-calm :
      (n : ℤ) (ps : List Pod) (updated : ℕ) (s : Session)
      → AllHaveInfo s.sync_info ps
      → (roll_pods api n ps updated s).0 ≢ some panics
  unfolding roll_pods
  roll_pods-calm n [] updated s h = λ x. cc
  roll_pods-calm n (p ∷ ps) updated s h =
      let name = pod_name p in
      let out = replace_pod api name (txt "update in progress") p s in
      let calm = replace_pod-IsCalm name (txt "update in progress") p s h.0 in
      let rest =
        roll_pods-calm n ps (suc updated) out.1
          (AllHaveInfo-IsKept s.sync_info out.1.sync_info ps calm.1 h.1) in
      ground (arith, calm.0, rest)

  module _ (compute : ℕ → Checked ℤ) where
    roll_out-calm :
        (updates : List Pod) (c : Scan) (n : ℤ) (s : Session)
        → AllHaveInfo s.sync_info c.other_updates
        → (roll_out api compute updates c n s).0 ≢ panics
    unfolding roll_out
    roll_out-calm updates c n s h =
        ground (arith, roll_pods-calm n c.other_updates c.updated_pods s h)

    -- Where the sync info has an entry for each listed pod, a round of updates panics exactly where it
    -- comes to the rollout number and this cannot be computed, whatever the API server answers.
    pub update_pods-panics_iff :
        (items updates : List Pod) (s : Session)
        → AllHaveInfo s.sync_info items
        → let scan = scan_pods api items updates no_scan s in
          ((update_pods api compute items updates s).0 ≡ panics)
          ↔ ((scan.0 ≡ none) × (compute (ready_pods scan.1) ≡ panic))
    unfolding update_pods
    update_pods-panics_iff items updates s h =
        let scan = scan_pods api items updates no_scan s in
        let calm = scan_pods-IsScanned items updates no_scan s h tt in
        elim (Checked-cases (compute (ready_pods scan.1))) [
          | inl e ↦ ground (arith, calm.0.0, e)
          | inr (n, e) ↦ ground (arith, calm.0.0, e, roll_out-calm updates scan.1 n scan.2 calm.1)
        ]
