-- ===== src/Cosmos/Collectors.antt =====
-- internal/cosmos/status_collector.go: one request to each pod, then the items by their ordinals.
-- The HTTP client with its parser is the parameter `fetch`, of the host; an error is its text.
use cosmos_operator.Common.{
  ℕ, Text, txt, text_eq, List, [], ◌∷◌, ◌++◌, map, none, some, ltb_ℤ, if◌then◌else◌,
}
use cosmos_operator.Kube.Pod.{Pod}
use cosmos_operator.Cosmos.{CometStatus, no_status, StatusItem, StatusCollection, ordinal_of}

-- What a request returns.
pub data Fetched : Type 0 where
  fetched : CometStatus → Fetched
  unfetched : Text → Fetched

abbrev pub to_item : ℕ → Pod → Fetched → StatusItem
to_item now p (fetched st) = record { pod = p; status = st; timestamp = now; error = none }
to_item now p (unfetched e) = record {
  pod = p;
  status = no_status;
  timestamp = now;
  error = some e;
}

-- The function that runs for each pod.
unfoldable pub collect_pod : (Text → Fetched) → ℕ → Pod → StatusItem
collect_pod fetch now p =
    if text_eq p.body.pod_ip []
    then to_item now p (unfetched (txt "pod has no IP"))
    else to_item now p (fetch (txt "http://" ++ (p.body.pod_ip ++ txt ":26657")))

-- `sort.Sort`, which leaves open the order of equal ordinals, is an insertion sort.
unfoldable pub insert_item : StatusItem → StatusCollection → StatusCollection
insert_item a [] = a ∷ []
insert_item a (b ∷ bs) =
    if ltb_ℤ (ordinal_of b) (ordinal_of a) then b ∷ insert_item a bs else a ∷ b ∷ bs

unfoldable pub sort_items : StatusCollection → StatusCollection
unfolding insert_item
sort_items [] = []
sort_items (a ∷ items) = insert_item a (sort_items items)

unfoldable pub collect : (Text → Fetched) → ℕ → List Pod → StatusCollection
unfolding collect_pod sort_items
collect fetch now pods = sort_items (map (collect_pod fetch now) pods)
