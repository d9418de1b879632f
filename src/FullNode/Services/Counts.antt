-- ===== src/FullNode/Services/Counts.antt =====
-- How many services of internal/fullnode/service_builder.go are open to the outside.
use cosmos_operator.Common.{
  ℕ, zero, suc, ◌+◌, ◌-◌, ◌≤◌, Text, text_eq, text_eq_refl, List, [], ◌∷◌, ◌++◌, map, Bool, false,
  ◌≡◌, refl, none, arith, ltb, length, Bool-cases, inl, inr, if◌then◌else◌, min,
}
use cosmos_operator.Diff.{Resource, object}
use cosmos_operator.FullNode.{FullNode, ordinals_from, ordinals}
use cosmos_operator.FullNode.Services.{
  ServiceBody, Service, cluster_ip, load_balancer, max_external, p2p_service, sentry_service,
  rpc_service, is_sentry, sentry_services, adapt_service, build_services,
}

abbrev pub is_external : Resource ServiceBody → Bool
is_external r = text_eq (object r).body.kind load_balancer

abbrev pub count_external : List (Resource ServiceBody) → ℕ
count_external [] = 0
count_external (r ∷ rs) = if is_external r then suc (count_external rs) else count_external rs

count_external-append :
    (rs ss : List (Resource ServiceBody))
    → count_external (rs ++ ss) ≡ count_external rs + count_external ss
count_external-append [] ss = omega arith
count_external-append (r ∷ rs) ss = ground (arith, count_external-append rs ss)

internal : text_eq cluster_ip load_balancer ≡ false
unfolding text_eq
internal = refl

module _ (hash : Service → Text) (crd : FullNode) where
  p2p-external :
      (i : ℕ)
      → crd.body.spec.service.p2p_template.kind ≡ none
      → is_external (adapt_service hash crd (p2p_service crd i) i) ≡ ltb i (max_external crd)
  unfolding object p2p_service
  p2p-external i e = ground (arith, internal, text_eq_refl load_balancer)

  count-p2p :
      (i n : ℕ)
      → crd.body.spec.service.p2p_template.kind ≡ none
      → count_external (map (λ j. adapt_service hash crd (p2p_service crd j) j) (ordinals_from i n))
        ≡ min (max_external crd) (i + n) - i
  count-p2p i zero e = ground arith
  count-p2p i (suc n) e = ground (arith, p2p-external i e, count-p2p (suc i) n e)

  count-sentry :
      (is : List ℕ)
      → count_external
          (map (λ i. adapt_service hash crd (sentry_service crd i) (crd.body.spec.replicas + i)) is)
        ≡ 0
  unfolding object sentry_service
  count-sentry [] = refl
  count-sentry (i ∷ is) = rw internal (count-sentry is)

  count-sentries : count_external (sentry_services hash crd) ≡ 0
  count-sentries = elim (Bool-cases (is_sentry crd)) [
    | inl e ↦ rw (sentry_services, e) (count-sentry (ordinals crd))
    | inr e ↦ rw (sentry_services, e) refl
  ]

  count-rpc :
      (n : ℕ)
      → crd.body.spec.service.rpc_template.kind ≡ none
      → count_external (adapt_service hash crd (rpc_service crd) n ∷ []) ≡ 0
  unfolding object rpc_service
  count-rpc n e = ground (arith, internal)

  max_external-le : max_external crd ≤ crd.body.spec.replicas
  unfolding max_external
  max_external-le = ground arith

  -- With the default types of services, as many are load balancers as the resource allows, 1 where it
  -- says nothing, and no more than there are replicas; whatever the type of the node.
  pub build_services-external :
      crd.body.spec.service.p2p_template.kind ≡ none
      → crd.body.spec.service.rpc_template.kind ≡ none
      → count_external (build_services hash crd) ≡ max_external crd
  unfolding build_services
  build_services-external e f =
      let p2p = map (λ i. adapt_service hash crd (p2p_service crd i) i) (ordinals crd) in
      let svcs = p2p ++ sentry_services hash crd in
      let last = adapt_service hash crd (rpc_service crd) (length svcs) ∷ [] in
      omega (
        arith,
        count_external-append svcs last,
        count_external-append p2p (sentry_services hash crd),
        count-p2p 0 crd.body.spec.replicas e,
        count-sentries,
        count-rpc (length svcs) f,
        max_external-le,
      )
