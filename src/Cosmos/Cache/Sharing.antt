-- ===== src/Cosmos/Cache/Sharing.antt =====
-- What internal/cosmos/cache_controller.go leaves in the cache: `Collect` writes into the cached
-- array, and `Invalidate` writes into copies.
use cosmos_operator.Common.{
  ℕ, Option, none, text_eq_iff, [], ◌∷◌, ◌≡◌, refl, ◌≢◌, some, arith, ObjectKey, key_Eq, lookup,
  elements, lookup-insert_self,
}
use cosmos_operator.Kube.Client.{found}
use cosmos_operator.Kube.Pod.{Pod}
use cosmos_operator.Cosmos.{StatusItem, StatusCollection, uid_of, upsert_pod, intersect_pods}
use cosmos_operator.Cosmos.Cache.{Cache, refresh, upsert_pods, collect}

module _ (now : ℕ) (p : Pod) (x y : StatusItem) where
  refresh-first :
      uid_of x ≢ uid_of y
      → uid_of y ≡ p.meta.uid
      → (elements (refresh now (p ∷ []) (x ∷ y ∷ [])) ≡ record y { pod = p } ∷ [])
        × ((refresh now (p ∷ []) (x ∷ y ∷ [])).other ≡ record y { pod = p } ∷ y ∷ [])
  unfolding refresh upsert_pods upsert_pod intersect_pods
  refresh-first ne e = ground (
    arith,
    text_eq_iff (uid_of x) p.meta.uid,
    text_eq_iff (uid_of y) p.meta.uid,
    text_eq_iff p.meta.uid (uid_of x),
    text_eq_iff p.meta.uid (uid_of y),
  )

  refresh-again :
      uid_of x ≡ p.meta.uid
      → uid_of y ≡ p.meta.uid
      → elements (refresh now (p ∷ []) (x ∷ y ∷ [])) ≡ record x { pod = p } ∷ y ∷ []
  unfolding refresh upsert_pods upsert_pod intersect_pods
  refresh-again d e = ground (
    arith,
    text_eq_iff (uid_of x) p.meta.uid,
    text_eq_iff (uid_of y) p.meta.uid,
    text_eq_iff p.meta.uid (uid_of x),
    text_eq_iff p.meta.uid (uid_of y),
  )

-- A node of two pods is cached and its first pod goes. The first `Collect` returns the item of the
-- second pod, but it leaves this item twice in the cached array: the next one returns it twice, for
-- a single pod.
pub collect_twice :
    (now later : ℕ) (p : Pod) (x y : StatusItem) (k : ObjectKey) (c : Cache)
    → lookup k c ≡ some (x ∷ y ∷ [])
    → uid_of x ≢ uid_of y
    → uid_of y ≡ p.meta.uid
    → let first = collect now (found (p ∷ [])) k c in
      (first.0 ≡ record y { pod = p } ∷ [])
      × ((collect later (found (p ∷ [])) k first.1).0 ≡ record y { pod = p } ∷ y ∷ [])
unfolding collect
collect_twice now later p x y k c cached ne e =
    let first = refresh-first now p x y ne e in
    let y' = record y { pod = p } in
    (
      rw (collect, cached) first.0,
      rw
          (
            collect,
            cached,
            lookup-insert_self k (refresh now (p ∷ []) (x ∷ y ∷ [])).other c,
            first.1,
          )
          (refresh-again later p y' y refl e),
    )

-- The collection of a key that is still cached.
abbrev pub replaced : StatusCollection → Option StatusCollection → Option StatusCollection
replaced coll none = none
replaced coll (some _) = some coll
