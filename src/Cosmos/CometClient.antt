-- ===== src/Cosmos/CometClient.antt =====
-- The request of internal/cosmos/comet_client.go, and the collector of status_collector.go over it: a
-- field that is nil in the response is read all the same, and the read panics. `url.ParseRequestURI`
-- with the path of the status is the parameter `status_url`, HTTP is `http_do`, and JSON is `decode`.
pub mod Absent
use cosmos_operator.Common.{
  ℕ, Text, txt, text_eq, List, [], ◌∷◌, ◌++◌, Bool, true, false, Option, none, some, is_some, ◌==◌,
  if◌then◌else◌, Checked, panic, ok,
}
use cosmos_operator.Kube.Pod.{Pod}
use cosmos_operator.Cosmos.{CometStatus, StatusItem, StatusCollection}
use cosmos_operator.Cosmos.Collectors.{Fetched, fetched, unfetched, to_item, sort_items}

-- The three objects of a response. Of the node's and the validator's no field is read.
pub record Infos : Type 0 where
  pub node_info : Option Text
  pub sync_info : Option CometStatus
  pub validator_info : Option Text

-- `rpcCometStatusResponse`: the objects stand at the top, or in the result.
pub record RpcResponse : Type 0 where
  pub result : Infos
  pub top : Infos

-- An error, or the code, the status line and the body.
pub data HttpAnswer : Type 0 where
  unanswered : Text → HttpAnswer
  answered : ℕ → Text → Text → HttpAnswer

-- The reads through the three pointers.
abbrev pub copy_infos : Option Text → Option CometStatus → Option Text → Checked Fetched
copy_infos (some v) (some s) (some n) = ok (fetched s)
copy_infos _ _ _ = panic

abbrev pub infos_of : RpcResponse → Infos
infos_of r = if is_some r.top.validator_info then r.top else r.result

abbrev pub read_infos : Infos → Checked Fetched
read_infos i = copy_infos i.validator_info i.sync_info i.node_info

abbrev pub read_response : Option RpcResponse → Checked Fetched
read_response none = ok (unfetched (txt "malformed json"))
read_response (some r) = read_infos (infos_of r)

abbrev pub item_or_panic : ℕ → Pod → Checked Fetched → Checked StatusItem
item_or_panic now p panic = panic
item_or_panic now p (ok f) = ok (to_item now p f)

abbrev pub rpc_host_of : Pod → Text
rpc_host_of p = txt "http://" ++ (p.body.pod_ip ++ txt ":26657")

abbrev pub cons_item : Checked StatusItem → Checked StatusCollection → Checked StatusCollection
cons_item (ok a) (ok items) = ok (a ∷ items)
cons_item (ok a) panic = panic
cons_item panic items = panic

abbrev pub sort_checked : Checked StatusCollection → Checked StatusCollection
sort_checked panic = panic
sort_checked (ok items) = ok (sort_items items)

module _ (status_url : Text → Option Text) (http_do : Text → HttpAnswer)
    (decode : Text → Option RpcResponse) where
  abbrev pub read_answer : HttpAnswer → Checked Fetched
  read_answer (unanswered e) = ok (unfetched e)
  read_answer (answered code line body) =
      if code == 200 then read_response (decode body) else ok (unfetched line)

  abbrev pub request_status : Option Text → Checked Fetched
  request_status none = ok (unfetched (txt "malformed host"))
  request_status (some url) = read_answer (http_do url)

  -- `Status`.
  unfoldable pub status : Text → Checked Fetched
  status rpc_host = request_status (status_url rpc_host)

  -- The function that runs for each pod.
  unfoldable pub collect_pod : ℕ → Pod → Checked StatusItem
  unfolding status
  collect_pod now p =
      if text_eq p.body.pod_ip []
      then ok (to_item now p (unfetched (txt "pod has no IP")))
      else item_or_panic now p (status (rpc_host_of p))

  -- A panic of one function is one of the process.
  unfoldable pub collect_items : ℕ → List Pod → Checked StatusCollection
  unfolding collect_pod
  collect_items now [] = ok []
  collect_items now (p ∷ pods) = cons_item (collect_pod now p) (collect_items now pods)

  -- `Collect`.
  unfoldable pub collect : ℕ → List Pod → Checked StatusCollection
  unfolding collect_items
  collect now pods = sort_checked (collect_items now pods)
