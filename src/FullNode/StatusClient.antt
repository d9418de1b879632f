-- ===== src/FullNode/StatusClient.antt =====
-- internal/fullnode/status_client.go: concurrent calls of `SyncUpdate` for one full node, as a step
-- relation. A call takes the semaphore of the key, reads the node, changes its status, writes it and
-- lets the semaphore go. A read may be from a cache: it is of some version, and of the stored status
-- if that version is the stored one. The API server takes a write of the stored version only.
use cosmos_operator.Common.{
  ℕ, suc, ◌≤◌, List, [], ◌∷◌, Bool, true, false, ◌≡◌, refl, ap, ◌∙◌, arith, ◌==◌, if◌then◌else◌,
}
use cosmos_operator.FullNode.{FullNodeStatus}

abbrev pub Update : Type 0
Update = FullNodeStatus → FullNodeStatus

-- Where a call stands.
pub data Stage : Type 0 where
  idle : Stage
  waiting : Update → Stage
  holding : Update → Stage
  loaded : Update → FullNodeStatus → ℕ → Stage

pub record System : Type 0 where
  pub status : FullNodeStatus
  pub version : ℕ
  pub acquired : Bool
  pub stage : ℕ → Stage
  pub log : List Update  -- the updates that were written, the latest first

abbrev pub set_stage : ℕ → Stage → System → System
set_stage i g s = record s { stage = λ j. if i == j then g else s.stage j }

abbrev pub acquire : ℕ → Update → System → System
acquire i u s = record (set_stage i (holding u) s) { acquired = true }

-- The end of a call, with its deferred release.
abbrev pub release : ℕ → System → System
release i s = record (set_stage i idle s) { acquired = false }

-- A write of the status.
abbrev pub write : Update → FullNodeStatus → System → System
write u st s = record s { status = u st; version = suc s.version; log = u ∷ s.log }

pub data Step : System → System → Type 0 where
  call : (s : System) (i : ℕ) (u : Update) → s.stage i ≡ idle → Step s (set_stage i (waiting u) s)
  take :
      (s : System) (i : ℕ) (u : Update)
      → s.stage i ≡ waiting u
      → s.acquired ≡ false
      → Step s (acquire i u s)
  get :
      (s : System) (i : ℕ) (u : Update) (st : FullNodeStatus) (v : ℕ)
      → s.stage i ≡ holding u
      → v ≤ s.version
      → (v ≡ s.version → st ≡ s.status)
      → Step s (set_stage i (loaded u st v) s)
  get_fails : (s : System) (i : ℕ) (u : Update) → s.stage i ≡ holding u → Step s (release i s)
  update :
      (s : System) (i : ℕ) (u : Update) (st : FullNodeStatus)
      → s.stage i ≡ loaded u st s.version
      → Step s (release i (write u st s))
  update_fails :
      (s : System) (i : ℕ) (u : Update) (st : FullNodeStatus) (v : ℕ)
      → s.stage i ≡ loaded u st v
      → Step s (release i s)
  -- A write of another client.
  other : (s : System) (u : Update) → Step s (write u s.status s)

pub data Reach (s : System) : System → Type 0 where
  here : Reach s s
  later : {t u : System} → Reach s t → Step t u → Reach s u

abbrev pub initial : FullNodeStatus → System
initial st = record { status = st; version = 1; acquired = false; stage = λ i. idle; log = [] }

-- The updates one after another, the earliest first.
abbrev pub run_all : List Update → FullNodeStatus → FullNodeStatus
run_all [] st = st
run_all (u ∷ us) st = u (run_all us st)

abbrev pub is_active : Stage → Bool
is_active (holding u) = true
is_active (loaded u st v) = true
is_active _ = false

-- The status is the effect of the written updates, what a call has read of the stored version is the
-- stored status, and only a single call is between its read and its write.
pub record IsSynced (st : FullNodeStatus) (s : System) : Type 0 where
  pub ordered : s.status ≡ run_all s.log st
  pub current :
      (i : ℕ) (u : Update) (r : FullNodeStatus) (v : ℕ)
      → s.stage i ≡ loaded u r v
      → v ≡ s.version
      → r ≡ s.status
  pub bounded :
      (i : ℕ) (u : Update) (r : FullNodeStatus) (v : ℕ) → s.stage i ≡ loaded u r v → v ≤ s.version
  pub taken : (i : ℕ) → is_active (s.stage i) ≡ true → s.acquired ≡ true
  pub single : (i j : ℕ) → is_active (s.stage i) ≡ true → is_active (s.stage j) ≡ true → i ≡ j

Step-IsSynced : (st : FullNodeStatus) {s t : System} → Step s t → IsSynced st s → IsSynced st t
Step-IsSynced st (call s i u e) h = record {
  ordered = h.ordered;
  current = λ j u' r v q. ground (arith, h.current j u' r v);
  bounded = λ j u' r v q. ground (arith, h.bounded j u' r v);
  taken = λ j a. ground (arith, h.taken j);
  single = λ j k a b. ground (arith, h.single j k);
}
Step-IsSynced st (take s i u e f) h = record {
  ordered = h.ordered;
  current = λ j u' r v q. ground (arith, h.current j u' r v);
  bounded = λ j u' r v q. ground (arith, h.bounded j u' r v);
  taken = λ j a. refl;
  single = λ j k a b. ground (arith, h.taken j, h.taken k);
}
Step-IsSynced st (get s i u r v e le same) h = record {
  ordered = h.ordered;
  current = λ j u' r' v' q. ground (arith, h.current j u' r' v', same);
  bounded = λ j u' r' v' q. ground (arith, h.bounded j u' r' v');
  taken = λ j a. ground (arith, h.taken j, h.taken i);
  single = λ j k a b. ground (arith, h.single j k, h.single i k, h.single j i);
}
Step-IsSynced st (get_fails s i u e) h = record {
  ordered = h.ordered;
  current = λ j u' r v q. ground (arith, h.current j u' r v);
  bounded = λ j u' r v q. ground (arith, h.bounded j u' r v);
  taken = λ j a. ground (arith, h.single i j);
  single = λ j k a b. ground (arith, h.single j k);
}
Step-IsSynced st (update s i u r e) h = record {
  ordered = ap u (h.current i u r s.version e refl ∙ h.ordered);
  current = λ j u' r' v q. ground (arith, h.bounded j u' r' v);
  bounded = λ j u' r' v q. ground (arith, h.bounded j u' r' v);
  taken = λ j a. ground (arith, h.single i j);
  single = λ j k a b. ground (arith, h.single j k);
}
Step-IsSynced st (update_fails s i u r v e) h = record {
  ordered = h.ordered;
  current = λ j u' r' v' q. ground (arith, h.current j u' r' v');
  bounded = λ j u' r' v' q. ground (arith, h.bounded j u' r' v');
  taken = λ j a. ground (arith, h.single i j);
  single = λ j k a b. ground (arith, h.single j k);
}
Step-IsSynced st (other s u) h = record {
  ordered = ap u h.ordered;
  current = λ j u' r v q. ground (arith, h.bounded j u' r v);
  bounded = λ j u' r v q. ground (arith, h.bounded j u' r v);
  taken = λ j a. h.taken j a;
  single = λ j k a b. h.single j k a b;
}

initial-IsSynced : (st : FullNodeStatus) → IsSynced st (initial st)
initial-IsSynced st = record {
  ordered = refl;
  current = λ i u r v q. ground arith;
  bounded = λ i u r v q. ground arith;
  taken = λ i a. ground arith;
  single = λ i j a b. ground arith;
}

-- Whatever the order of calls, failures and writes of other clients: the stored status is that of the
-- written updates one after another, so that none is lost, and at most one call is between its read
-- and its write.
pub Reach-IsSynced : (st : FullNodeStatus) {s : System} → Reach (initial st) s → IsSynced st s
Reach-IsSynced st here = initial-IsSynced st
Reach-IsSynced st (later r w) = Step-IsSynced st w (Reach-IsSynced st r)
