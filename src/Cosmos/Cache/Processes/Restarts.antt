-- ===== src/Cosmos/Cache/Processes/Restarts.antt =====
-- A collector of internal/cosmos/cache_controller.go that ends after its node came again.
use cosmos_operator.Common.{suc, true, ◌≡◌, refl, none, some, arith, ObjectKey, key_eq, key_eq_iff}
use cosmos_operator.Cosmos.Cache.Processes.{
  System, init_entry, delete_entry, stop_collector, Step, stop,
}

-- A node that is deleted and made again before its first collector sees its cancellation: the end
-- of the first collector deletes the new entry and cancels the new collector. From a state without
-- the node, the steps start, gone, start and the end of the first collector leave the key without an
-- entry, and the second collector cancelled.
pub stop-restarted :
    (s : System) (k : ObjectKey)
    → s.entries k ≡ none
    → let first = init_entry k s in
      let again = init_entry k (delete_entry k first) in
      let last = stop_collector s.next k again in
      (Step again last)
      × (last.entries k ≡ none)
      × (last.running (suc s.next) ≡ some (record { key = k; cancelled = true }))
stop-restarted s k n =
    let same : key_eq k k ≡ true = ground (arith, key_eq_iff k k) in
    let first = init_entry k s in
    let again = init_entry k (delete_entry k first) in
    let cancelled : again.running s.next ≡ some (record { key = k; cancelled = true }) =
      ground arith in
    (
      stop again s.next (record { key = k; cancelled = true }) cancelled refl,
      ground arith,
      ground arith,
    )
