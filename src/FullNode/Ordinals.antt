-- ===== src/FullNode/Ordinals.antt =====
-- `instanceName` of internal/fullnode/labels.go, and the keys of the objects of an ordinal.
use cosmos_operator.Common.{
  ObjectKey, ℕ, ◌<◌, ◌^◌, ◌++◌, ◌≡◌, ◌≢◌, ap, sym, ◌∙◌, refl, arith, format_nat, inl, txt,
}
use cosmos_operator.Common.Decimal.Digits.{
  format_nat-IsNumeral, format_nat-injective, length-format_nat-le,
}
use cosmos_operator.Kube.Labels.{to_name}
use cosmos_operator.Kube.Labels.Ordinals.{EndsIn, after_dash, to_name-EndsIn, after_dash-EndsIn}
use cosmos_operator.FullNode.{FullNode, app_name, instance_name}

module _ (crd : FullNode) (i : ℕ) (l : i < 2 ^ 31) where
  instance_name-EndsIn : EndsIn (format_nat i) (instance_name crd i)
  unfolding instance_name
  instance_name-EndsIn =
      to_name-EndsIn (app_name crd ++ (txt "-" ++ format_nat i)) (format_nat i)
        (format_nat-IsNumeral i) (omega (arith, length-format_nat-le i l))
        (inl (app_name crd, refl))

  -- Also after the second normalization, of the object's metadata.
  normalized-EndsIn : EndsIn (format_nat i) (to_name (instance_name crd i))
  normalized-EndsIn =
      to_name-EndsIn (instance_name crd i) (format_nat i) (format_nat-IsNumeral i)
        (omega (arith, length-format_nat-le i l)) instance_name-EndsIn

  -- Whatever the name of the resource and however much of it is cut: the name of the instance of an
  -- ordinal below 2^31 has the ordinal in decimal after the last dash, also after the name was
  -- normalized once more.
  pub after_dash-instance_name :
      (after_dash (instance_name crd i) ≡ format_nat i)
      × (after_dash (to_name (instance_name crd i)) ≡ format_nat i)
  after_dash-instance_name = (
    after_dash-EndsIn (format_nat i) (instance_name crd i) (format_nat-IsNumeral i).1
        instance_name-EndsIn,
    after_dash-EndsIn (format_nat i) (to_name (instance_name crd i)) (format_nat-IsNumeral i).1
        normalized-EndsIn,
  )

-- Whatever the name of the resource: two ordinals below 2^31 whose objects have one normalized name are
-- the same.
pub instance_name-injective :
    (crd : FullNode) (i j : ℕ)
    → i < 2 ^ 31
    → j < 2 ^ 31
    → to_name (instance_name crd i) ≡ to_name (instance_name crd j)
    → i ≡ j
instance_name-injective crd i j l k e = format_nat-injective i j (
    sym (after_dash-instance_name crd i l).1
    ∙ ap after_dash e
    ∙ (after_dash-instance_name crd j k).1)

-- The key of the objects of an ordinal: their normalized name.
abbrev pub key_of : FullNode → ℕ → ObjectKey
key_of crd i = record { namespace = crd.meta.namespace; name = to_name (instance_name crd i) }

pub key_of-differs : (crd : FullNode) (i j : ℕ) → i < j → j < 2 ^ 31 → key_of crd j ≢ key_of crd i
key_of-differs crd i j l k e =
    omega (arith, instance_name-injective crd j i k (omega (arith, l, k)) (ap (λ x. x.name) e), l)
