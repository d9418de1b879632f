-- ===== src/Kube/Meta.antt =====
-- The part of a Kubernetes object that the operator reads and writes: `metav1.ObjectMeta`, with a
-- body of any type beside it.
use cosmos_operator.Common.{ℕ, Text, List, Option, ObjectKey}

pub record ObjectMeta : Type 0 where
  pub namespace : Text
  pub name : Text
  pub resource_version : Text
  pub uid : Text
  pub generation : ℕ
  pub owner_references : List Text
  pub labels : List (Text × Text)
  pub annotations : List (Text × Text)
  pub deletion_timestamp : Option ℕ

pub record Object {ℓ} (B : Type ℓ) : Type ℓ where
  pub meta : ObjectMeta
  pub body : B

-- `client.ObjectKeyFromObject`.
abbrev pub object_key {ℓ} : {B : Type ℓ} → Object B → ObjectKey
object_key o = record { namespace = o.meta.namespace; name = o.meta.name }
