-- ===== src/VolSnapshot/FullNode/Signals.antt =====
-- The round of the signals in internal/volsnapshot/fullnode_control.go.
use cosmos_operator.Common.{
  Text, ◌≡◌, some, arith, ok, lookup-insert_self, lookup-delete, text_Eq, ◌≢◌, lookup, insert,
  delete, none, lookup-insert, text_eq_iff, text_eq_refl,
}
use cosmos_operator.Kube.Client.{found}
use cosmos_operator.VolSnapshot.{SnapshotCandidate, ScheduledVolumeSnapshot, Report}
use cosmos_operator.VolSnapshot.FullNode.{
  PodSignals, confirmed, unconfirmed, source_key, signal_pod_deletion, signal_pod_restoration,
  confirm_pod_restoration,
}

module _ (crd : ScheduledVolumeSnapshot) (m : PodSignals) where
  -- While the deletion of the candidate is signalled, its restoration is not confirmed; once the
  -- restoration is signalled, it is, and the entries of the other resources are as they were.
  pub signal_pod_restoration-confirmed :
      {c : SnapshotCandidate} {m' : PodSignals}
      → crd.status.candidate ≡ some c
      → signal_pod_deletion crd m ≡ ok m'
      → (confirm_pod_restoration (found m') crd
          ≡ ok (unconfirmed (Report.pod_not_deleted c.pod_name)))
        × (confirm_pod_restoration (found (signal_pod_restoration crd m')) crd ≡ ok confirmed)
        × ((k : Text) → k ≢ source_key crd → lookup k (signal_pod_restoration crd m') ≡ lookup k m)
  unfolding signal_pod_deletion signal_pod_restoration confirm_pod_restoration
  signal_pod_restoration-confirmed {c} {m'} e h =
      let key = source_key crd in
      let same : m' ≡ insert key c.pod_name m = ground arith in
      let there : lookup key m' ≡ some c.pod_name =
        ground (arith, same, lookup-insert_self key c.pod_name m) in
      let gone : lookup key (delete key m') ≡ none =
        ground (arith, lookup-delete key key m', text_eq_refl key) in
      (
        ground (arith, there, e),
        ground (arith, gone),
        λ k ne. ground (
          arith,
          same,
          lookup-delete key k m',
          lookup-insert key k c.pod_name m,
          text_eq_iff key k,
        ),
      )
