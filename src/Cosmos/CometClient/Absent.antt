-- ===== src/Cosmos/CometClient/Absent.antt =====
-- A response without its objects, in internal/cosmos/comet_client.go and status_collector.go.
use mathlib.Core.List.{Memᴰ}
use mathlib.Core.List.Memᴰ.{cases_cons}
use cosmos_operator.Common.{
  ℕ, Text, text_eq, List, [], ◌∷◌, Bool, false, ◌&&◌, ◌≡◌, refl, ap, sym, ◌∙◌, Option, none, some,
  is_some, inl, inr, Checked, panic, ok,
}
use cosmos_operator.Kube.Pod.{Pod}
use cosmos_operator.Cosmos.{CometStatus, StatusItem}
use cosmos_operator.Cosmos.CometClient.{
  Infos, RpcResponse, HttpAnswer, answered, copy_infos, infos_of, status, collect_pod, rpc_host_of,
  cons_item, collect_items, collect,
}

abbrev pub has_all : Infos → Bool
has_all i = is_some i.node_info && (is_some i.sync_info && is_some i.validator_info)

copy_infos-panic :
    (v : Option Text) (s : Option CometStatus) (n : Option Text)
    → (is_some n && (is_some s && is_some v)) ≡ false
    → copy_infos v s n ≡ panic
copy_infos-panic none s n e = refl
copy_infos-panic (some v) none n e = refl
copy_infos-panic (some v) (some s) none e = refl
copy_infos-panic (some v) (some s) (some n) e = cc

cons_item-panics : (a : Checked StatusItem) → cons_item a panic ≡ panic
cons_item-panics (ok a) = refl
cons_item-panics panic = refl

module _ (status_url : Text → Option Text) (http_do : Text → HttpAnswer)
    (decode : Text → Option RpcResponse) where
  -- A node that answers, with a body that is JSON, but has not all objects where they are read.
  pub record IsLacking (p : Pod) : Type 0 where
    pub url : Text
    pub line : Text
    pub body : Text
    pub response : RpcResponse
    pub has_ip : text_eq p.body.pod_ip [] ≡ false
    pub asked : status_url (rpc_host_of p) ≡ some url
    pub answers : http_do url ≡ answered 200 line body
    pub decoded : decode body ≡ some response
    pub lacks : has_all (infos_of response) ≡ false

  collect_pod-panics :
      (now : ℕ) (p : Pod) → IsLacking p → collect_pod status_url http_do decode now p ≡ panic
  unfolding collect_pod status
  collect_pod-panics now p l =
      let i = infos_of l.response in
      rw (
        l.has_ip,
        l.asked,
        l.answers,
        l.decoded,
        copy_infos-panic i.validator_info i.sync_info i.node_info l.lacks,
      )

  collect_items-panics :
      (now : ℕ) (p : Pod) (pods : List Pod)
      → Memᴰ p pods
      → IsLacking p
      → collect_items status_url http_do decode now pods ≡ panic
  unfolding collect_items
  collect_items-panics now p [] m l = elim m [ ]
  collect_items-panics now p (q ∷ pods) m l = elim (cases_cons m) [
    | inl same ↦
        let e : collect_pod status_url http_do decode now q ≡ panic =
          ap (collect_pod status_url http_do decode now) (sym same) ∙ collect_pod-panics now p l in
        rw e
    | inr there ↦
        rw (collect_items-panics now p pods there l)
          (cons_item-panics (collect_pod status_url http_do decode now q))
  ]

  -- One pod whose node answers with a JSON object that lacks one of the three objects it is read for
  -- ends the collection for all pods with a panic.
  pub collect-panics :
      (now : ℕ) (p : Pod) (pods : List Pod)
      → Memᴰ p pods
      → IsLacking p
      → collect status_url http_do decode now pods ≡ panic
  unfolding collect
  collect-panics now p pods m l = rw (collect_items-panics now p pods m l)
