-- ===== src/FullNode/Pods/Versions.antt =====
-- Which version internal/fullnode/pod_builder.go chooses for a height.
use mathlib.Core.List.{Memᴰ}
use mathlib.Core.List.Memᴰ.{head, tail, cases_cons}
use cosmos_operator.Common.{
  ℕ, ◌≤◌, ◌<◌, List, [], ◌∷◌, true, false, ◌&&◌, ◌≡◌, ◌⊎◌, refl, ap, Option, none, some, arith,
  Bool-cases, inl, inr, leb,
}
use cosmos_operator.FullNode.{ChainVersion}
use cosmos_operator.FullNode.Pods.{is_newer, find_version_from, find_version}

-- The best of a set of versions for a height: one of them whose upgrade is due, with no newer one
-- that is due; or none, where no upgrade is due.
abbrev pub IsBest : (ChainVersion → Type 0) → ℕ → Option ChainVersion → Type 0
IsBest S h none = (w : ChainVersion) → S w → h < w.upgrade_height
IsBest S h (some v) =
    S v
    × (v.upgrade_height ≤ h)
    × ((w : ChainVersion) → S w → w.upgrade_height ≤ h → w.upgrade_height ≤ v.upgrade_height)

IsBest-cast :
    {S T : ChainVersion → Type 0} (h : ℕ) (o : Option ChainVersion)
    → ((w : ChainVersion) → S w → T w)
    → ((w : ChainVersion) → T w → S w)
    → IsBest S h o
    → IsBest T h o
IsBest-cast h none to from b = λ w t. b w (from w t)
IsBest-cast h (some v) to from b = (to v b.0, b.1, λ w t. b.2 w (from w t))

module _ (h : ℕ) (v : ChainVersion) (S : ChainVersion → Type 0) where
  -- The version joins the set, and is taken or not.
  take_it :
      (best : Option ChainVersion)
      → (leb v.upgrade_height h && is_newer v best) ≡ true
      → IsBest S h best
      → IsBest (λ w. S w ⊎ (w ≡ v)) h (some v)
  take_it none e b = (
    inr refl,
    ground arith,
    λ w s le. elim s [
      | inl s' ↦ omega (arith, b w s', le)
      | inr q ↦ omega (arith, ap (λ x. x.upgrade_height) q)
    ],
  )
  take_it (some u) e b = (
    inr refl,
    ground arith,
    λ w s le. elim s [
      | inl s' ↦ ground (arith, b.2 w s' le)
      | inr q ↦ omega (arith, ap (λ x. x.upgrade_height) q)
    ],
  )

  leave_it :
      (best : Option ChainVersion)
      → (leb v.upgrade_height h && is_newer v best) ≡ false
      → IsBest S h best
      → IsBest (λ w. S w ⊎ (w ≡ v)) h best
  leave_it none e b = λ w s. elim s [
    | inl s' ↦ b w s'
    | inr q ↦
        let same : w.upgrade_height ≡ v.upgrade_height = ap (λ x. x.upgrade_height) q in
        ground (arith, same)
  ]
  leave_it (some u) e b = (
    inl b.0,
    b.1,
    λ w s le. elim s [
      | inl s' ↦ b.2 w s' le
      | inr q ↦
          let same : w.upgrade_height ≡ v.upgrade_height = ap (λ x. x.upgrade_height) q in
          ground (arith, same)
    ],
  )

find_version_from-IsBest :
    (S : ChainVersion → Type 0) (best : Option ChainVersion) (vs : List ChainVersion) (h : ℕ)
    → IsBest S h best
    → IsBest (λ w. S w ⊎ Memᴰ w vs) h (find_version_from best vs h)
find_version_from-IsBest S best [] h b =
    IsBest-cast h best (λ w s. inl s) (λ w s. elim s [ inl s' ↦ s' | inr m ↦ elim m [ ] ]) b
find_version_from-IsBest S best (v ∷ vs) h b =
    let to : (w : ChainVersion) → (S w ⊎ (w ≡ v)) ⊎ Memᴰ w vs → S w ⊎ Memᴰ w (v ∷ vs) = λ w s.
      elim s [ inl s' ↦ elim s' [ inl x ↦ inl x | inr q ↦ inr (head q) ] | inr m ↦ inr (tail m) ] in
    let from : (w : ChainVersion) → S w ⊎ Memᴰ w (v ∷ vs) → (S w ⊎ (w ≡ v)) ⊎ Memᴰ w vs = λ w s.
      elim s [
        | inl x ↦ inl (inl x)
        | inr m ↦ elim (cases_cons m) [ inl q ↦ inl (inr q) | inr m' ↦ inr m' ]
      ] in
    elim (Bool-cases (leb v.upgrade_height h && is_newer v best)) [
      | inl e ↦
          rw (find_version_from, e)
            (IsBest-cast h (find_version_from (some v) vs h) to from (
              find_version_from-IsBest (λ w. S w ⊎ (w ≡ v)) (some v) vs h (take_it h v S best e b)))
      | inr e ↦
          rw (find_version_from, e)
            (IsBest-cast h (find_version_from best vs h) to from
              (find_version_from-IsBest (λ w. S w ⊎ (w ≡ v)) best vs h (leave_it h v S best e b)))
    ]

-- The version that is chosen is one of the list whose upgrade height is not above the height, and no
-- other such version has a higher one; none is chosen exactly where every upgrade is still to come.
pub find_version-IsBest :
    (vs : List ChainVersion) (h : ℕ) → IsBest (λ w. Memᴰ w vs) h (find_version vs h)
unfolding find_version
find_version-IsBest vs h =
    IsBest-cast h (find_version_from none vs h) (λ w s. elim s [ inl x ↦ elim x [ ] | inr m ↦ m ])
      (λ w m. inr m) (find_version_from-IsBest (λ w. ⊥) none vs h (λ w x. elim x [ ]))
