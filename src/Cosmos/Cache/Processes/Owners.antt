-- ===== src/Cosmos/Cache/Processes/Owners.antt =====
-- The life of the collectors of internal/cosmos/cache_controller.go: which of them run, and for which entry.
use cosmos_operator.Common.{
  ℕ, ◌≤◌, [], true, false, ◌≡◌, refl, none, some, arith, ObjectKey, key_eq, key_eq_iff, ◌==◌,
  Bool-cases, Option-cases, inl, inr, ap, ◌≢◌,
}
use cosmos_operator.Cosmos.{StatusCollection}
use cosmos_operator.Cosmos.Cache.Processes.{
  Entry, Collector, System, set_entry, set_running, init_entry, cancel, delete_entry, update_entry,
  delete_all, Step, start, gone, poll, write, stop, close, Reach, here, later, empty,
}

-- Each entry has a collector of its key that is not cancelled, each such collector has the entry of
-- its key, and the numbers from `next` on are free.
pub record IsOwned (s : System) : Type 0 where
  pub owned :
      (k : ObjectKey) (e : Entry)
      → s.entries k ≡ some e
      → s.running e.owner ≡ some (record { key = k; cancelled = false })
  pub live :
      (i : ℕ) (g : Collector)
      → s.running i ≡ some g
      → g.cancelled ≡ false
      → (e : Entry) × (s.entries g.key ≡ some e) × (e.owner ≡ i)
  pub fresh : (i : ℕ) → s.next ≤ i → s.running i ≡ none

module _ (s : System) (k : ObjectKey) (h : IsOwned s) where
  start-live :
      s.entries k ≡ none
      → (i : ℕ) (g : Collector) → (init_entry k s).running i ≡ some g
      → g.cancelled ≡ false
      → (e : Entry) × ((init_entry k s).entries g.key ≡ some e) × (e.owner ≡ i)
  start-live n i g q c = elim (Bool-cases (s.next == i)) [
    | inl y ↦
        let same : k ≡ g.key = ground arith in
        (record { owner = s.next; coll = [] }, ground (arith, key_eq_iff k g.key), ground arith)
    | inr w ↦
        let r = h.live i g (ground arith) c in
        let other : k ≢ g.key = λ z. ground (arith, r.1, ap s.entries z) in
        (r.0, ground (arith, r.1, key_eq_iff k g.key), r.2)
  ]

  start-IsOwned : s.entries k ≡ none → IsOwned (init_entry k s)
  start-IsOwned n = record {
    owned = λ j e q. ground (arith, h.owned j e, key_eq_iff k j, h.fresh e.owner);
    live = start-live n;
    fresh = λ i le. ground (arith, h.fresh i);
  }

  cut-live :
      (e : Entry)
      → s.entries k ≡ some e
      → let t =
          set_entry k none (set_running e.owner (some (record { key = k; cancelled = true })) s) in
        (i : ℕ) (g : Collector)
        → t.running i ≡ some g
        → g.cancelled ≡ false
        → (e' : Entry) × (t.entries g.key ≡ some e') × (e'.owner ≡ i)
  cut-live e n i g q c =
      let apart : (e.owner == i) ≡ false = ground arith in
      let r = h.live i g (ground arith) c in
      let other : k ≢ g.key = λ z. ground (arith, r.1, r.2, ap s.entries z) in
      (r.0, ground (arith, r.1, key_eq_iff k g.key), r.2)

  cut-IsOwned :
      (e : Entry)
      → s.entries k ≡ some e
      → IsOwned
          (set_entry k none (set_running e.owner (some (record { key = k; cancelled = true })) s))
  cut-IsOwned e n = record {
    owned = λ j e' q. ground (arith, h.owned j e', h.owned k e, key_eq_iff k j);
    live = cut-live e n;
    fresh = λ i le. ground (arith, h.fresh i, h.owned k e n);
  }

  delete-IsOwned : IsOwned (delete_entry k s)
  delete-IsOwned = elim (Option-cases (s.entries k)) [
    | inl e ↦ rw (delete_entry, e) h
    | inr (e, n) ↦ rw (delete_entry, n, cancel, h.owned k e n) (cut-IsOwned e n)
  ]

  update-live :
      (coll : StatusCollection) (e : Entry)
      → s.entries k ≡ some e
      → let t = set_entry k (some (record e { coll = coll })) s in
        (i : ℕ) (g : Collector)
        → t.running i ≡ some g
        → g.cancelled ≡ false
        → (e' : Entry) × (t.entries g.key ≡ some e') × (e'.owner ≡ i)
  update-live coll e n i g q c =
      let r = h.live i g q c in
      elim (Bool-cases (key_eq k g.key)) [
        | inl y ↦
            let same : k ≡ g.key = ground (arith, key_eq_iff k g.key) in
            (record e { coll = coll }, ground arith, ground (arith, r.1, r.2, ap s.entries same))
        | inr w ↦ (r.0, ground (arith, r.1), r.2)
      ]

  update-IsOwned : (coll : StatusCollection) → IsOwned (update_entry k coll s)
  update-IsOwned coll = elim (Option-cases (s.entries k)) [
    | inl e ↦ rw (update_entry, e) h
    | inr (e, n) ↦
        rw (update_entry, n)
          (record {
            owned = λ j e' q. ground (arith, h.owned j e', h.owned k e n, key_eq_iff k j);
            live = update-live coll e n;
            fresh = h.fresh;
          })
  ]

-- A collector that is cancelled may go.
end-IsOwned :
    (s : System) (i : ℕ) (g : Collector)
    → s.running i ≡ some g
    → g.cancelled ≡ true
    → IsOwned s
    → IsOwned (set_running i none s)
end-IsOwned s i g r c h = record {
  owned = λ k e q. ground (arith, h.owned k e);
  live = λ j g' q c'. h.live j g' (ground arith) c';
  fresh = λ j le. ground (arith, h.fresh j);
}

delete-running :
    (s : System) (k : ObjectKey) (i : ℕ) (g : Collector)
    → IsOwned s
    → s.running i ≡ some g
    → g.cancelled ≡ true
    → (delete_entry k s).running i ≡ some g
delete-running s k i g h r c = elim (Option-cases (s.entries k)) [
  | inl e ↦ rw (delete_entry, e) r
  | inr (e, n) ↦ rw (delete_entry, n, cancel, h.owned k e n) (ground (arith, h.owned k e n))
]

delete_all-cancelled :
    (s : System) (i : ℕ) (g : Collector)
    → IsOwned s
    → (delete_all s).running i ≡ some g
    → g.cancelled ≡ true
delete_all-cancelled s i g h r = elim (Option-cases (s.running i)) [
  | inl none_there ↦ ground (arith, none_there)
  | inr (c, there) ↦ elim (Bool-cases c.cancelled) [
    | inl old ↦ elim (Option-cases (s.entries c.key)) [
      | inl gone_already ↦ ground (arith, there, old, gone_already)
      | inr (e, n) ↦ ground (arith, there, old, n)
    ]
    | inr live ↦ let l = h.live i c there live in ground (arith, there, l.1, l.2)
  ]
]

delete_all-IsOwned : (s : System) → IsOwned s → IsOwned (delete_all s)
delete_all-IsOwned s h = record {
  owned = λ k e q. cc;
  live = λ i g q c. absurd (let d = delete_all-cancelled s i g h q in cc);
  fresh = λ i le. rw (h.fresh i le);
}

Step-IsOwned : {s t : System} → Step s t → IsOwned s → IsOwned t
Step-IsOwned (start s k n) h = start-IsOwned s k h n
Step-IsOwned (gone s k) h = delete-IsOwned s k h
Step-IsOwned (poll s i g coll r) h = update-IsOwned s g.key h coll
Step-IsOwned (write s k coll) h = update-IsOwned s k h coll
Step-IsOwned (stop s i g r c) h =
    end-IsOwned (delete_entry g.key s) i g (delete-running s g.key i g h r c) c
      (delete-IsOwned s g.key h)
Step-IsOwned (close s) h = delete_all-IsOwned s h

empty-IsOwned : IsOwned empty
empty-IsOwned = record {
  owned = λ k e q. ground arith;
  live = λ i g q c. ground arith;
  fresh = λ i le. refl;
}

-- In every state that is reached from the empty cache, whatever the order of the reconciles, the
-- polls, the ends of the collectors and `Close`: the collector that an entry cancels runs for the key of the
-- entry and is not cancelled, each collector that is not cancelled belongs to the entry of its
-- key, so that none runs for a node that is not cached, and the numbers from `next` on are free.
pub Reach-IsOwned : {s : System} → Reach empty s → IsOwned s
Reach-IsOwned here = empty-IsOwned
Reach-IsOwned (later r w) = Step-IsOwned w (Reach-IsOwned r)
