-- ===== src/FullNode/ConfigMaps/Halts.antt =====
-- The halt height of internal/fullnode/configmap_builder.go, and the versions of pod_builder.go.
use cosmos_operator.Common.{
  ℕ, ◌≤◌, ◌<◌, List, [], ◌∷◌, true, ◌≡◌, ◌⊎◌, refl, Option, none, some, arith, inl, inr, ◌↔◌, ◌≢◌,
  ltb, Bool-cases,
}
use cosmos_operator.FullNode.{ChainVersion}
use cosmos_operator.FullNode.ConfigMaps.{halt_height}
use cosmos_operator.FullNode.Pods.{find_version}
use cosmos_operator.VersionCheck.Choice.{AllAbove, IsAscending, last_due, find_version-last_due}

-- Each version of a list halts the one before it.
abbrev pub AllHalt : List ChainVersion → Type 0
AllHalt [] = Unit
AllHalt (v ∷ vs) = (v.set_halt_height ≡ true) × AllHalt vs

-- The version from some version on is that one, or one with a higher upgrade.
last_due-above :
    (v : ChainVersion) (vs : List ChainVersion) (k : ℕ)
    → AllAbove v.upgrade_height vs
    → IsAscending vs
    → (w : ChainVersion) × (last_due (some v) vs k ≡ some w) × (v.upgrade_height ≤ w.upgrade_height)
unfolding last_due
last_due-above v [] k above up = (v, refl, omega arith)
last_due-above v (u ∷ vs) k above up = elim (Bool-cases (ltb k u.upgrade_height)) [
  | inl later ↦ (v, rw later, omega arith)
  | inr due ↦
      let r = last_due-above u vs k up.0 up.1 in (r.0, rw (due) r.1, omega (arith, r.2, above.0))
]

-- The upgrade of a version is not to come.
abbrev IsDue : ℕ → Option ChainVersion → Type 0
IsDue h none = Unit
IsDue h (some v) = v.upgrade_height ≤ h

last_due-halted :
    (best : Option ChainVersion) (v : ChainVersion) (vs : List ChainVersion) (h k : ℕ)
    → AllAbove v.upgrade_height vs
    → IsAscending vs
    → IsDue h best
    → h < v.upgrade_height
    → last_due (some v) vs k ≢ best
last_due-halted none v vs h k above up due l e =
    let r = last_due-above v vs k above up in cc (e, r.1)
last_due-halted (some u) v vs h k above up due l e =
    let r = last_due-above v vs k above up in ground (arith, e, r.1, r.2, due, l)

last_due-same_iff :
    (best : Option ChainVersion) (vs : List ChainVersion) (h k : ℕ)
    → IsAscending vs
    → AllHalt vs
    → IsDue h best
    → h ≤ k
    → (last_due best vs k ≡ last_due best vs h) ↔ ((halt_height vs h ≡ 0) ⊎ (k < halt_height vs h))
unfolding last_due halt_height
last_due-same_iff best [] h k up halts due le = (λ e. inl refl, λ e. refl)
last_due-same_iff best (v ∷ vs) h k up halts due le = ground (
  arith,
  last_due-halted best v vs h k up.0 up.1 due,
  last_due-same_iff (some v) vs h k up.1 halts.1,
)

-- Where the upgrade heights rise along the versions and each version halts the one before it: from the
-- height of the status on, the version for a height is the one for the height of the status exactly as
-- long as the halt height is not reached, or where it is 0.
pub halt_height-keeps_version_iff :
    (vs : List ChainVersion) (h k : ℕ)
    → IsAscending vs
    → AllHalt vs
    → h ≤ k
    → (find_version vs k ≡ find_version vs h) ↔ ((halt_height vs h ≡ 0) ⊎ (k < halt_height vs h))
halt_height-keeps_version_iff vs h k up halts le =
    rw (find_version-last_due vs k up, find_version-last_due vs h up)
      (last_due-same_iff none vs h k up halts tt le)
