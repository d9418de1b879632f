-- ===== src/FullNode/Objects.antt =====
-- The controls of internal/fullnode that bring one kind of object to what is wanted:
-- service_control.go, role_control.go, role_binding_control.go and service_account_control.go, which
-- differ in the kind only, configmap_control.go and node_key_control.go; and
-- internal/kube/create_or_update.go. The wanted objects come as what the builders return.
pub mod Steps
use cosmos_operator.Common.{
  Text, key_Eq, List, [], ◌∷◌, ◌++◌, map, Option, none, some, ObjectKey, insert, if◌then◌else◌,
  Checked, panic, ok,
}
use cosmos_operator.Kube.Client.{
  ApiError, Answer, found, failed, is_already_exists, ignore_already_exists,
}
use cosmos_operator.Kube.Errors.{ReconcileError, transient_error, unrecoverable_error}
use cosmos_operator.Kube.Meta.{Object, object_key}
use cosmos_operator.Diff.{Diff, Resource, object, revision, new}

pub data Request {ℓ} (B : Type ℓ) : Type ℓ where
  create_object : Object B → Request B
  update_object : Object B → Request B
  delete_object : Object B → Request B

-- The answers of the API server for one kind of object.
pub record ObjectApi {ℓ} (B : Type ℓ) : Type ℓ where
  pub list : Answer (List (Object B))
  pub set_owner : Object B → Option ApiError
  pub create : Object B → Option ApiError
  pub update : Object B → Option ApiError
  pub delete : Object B → Option ApiError

-- What a loop, or a control, returns, and what it sent, in order.
abbrev pub Sent {ℓ} : Type 0 → Type ℓ → Type ℓ
Sent R B = R × List (Request B)

-- `ConfigChecksums`.
abbrev pub ConfigChecksums : Type 0
ConfigChecksums = List (ObjectKey × Text)

abbrev pub to_transient : Option ApiError → Option ReconcileError
to_transient none = none
to_transient (some e) = some (transient_error e)

-- One part of a control after another, unless that one ends in an error.
abbrev pub then_loop {ℓ} :
    {B : Type ℓ} → Sent (Option ApiError) B → Sent (Option ApiError) B → Sent (Option ApiError) B
then_loop a b = elim a.0 [ some e ↦ a | none ↦ (b.0, a.1 ++ b.1) ]

-- A loop whose rounds end it by an error.
abbrev pub for_each {ℓ} :
    {B : Type ℓ}
    → (Object B → Sent (Option ApiError) B)
    → List (Object B)
    → Sent (Option ApiError) B
for_each f [] = (none, [])
for_each f (o ∷ os) = let rest = for_each f os in then_loop (f o) rest

module _ {ℓ} {B : Type ℓ} where
  -- The loop over the wanted config maps, from the checksums so far.
  unfoldable pub put_checksums : ConfigChecksums → List (Resource B) → ConfigChecksums
  put_checksums m [] = m
  put_checksums m (r ∷ rs) = put_checksums (insert (object_key (object r)) (revision r) m) rs

  abbrev pub checksums_or_error :
      List (Resource B) → Option ApiError → ConfigChecksums × Option ReconcileError
  checksums_or_error want none = (put_checksums [] want, none)
  checksums_or_error want (some e) = ([], some (transient_error e))

module _ {ℓ} {B : Type ℓ} (api : ObjectApi B) where
  unfoldable pub create_or_update : Object B → Sent (Option ApiError) B
  create_or_update o =
      if is_already_exists (api.create o)
      then (api.update o, create_object o ∷ update_object o ∷ [])
      else (api.create o, create_object o ∷ [])

  -- A round of the loop over the creates, with `CreateOrUpdate`.
  unfoldable pub own_and_apply : Object B → Sent (Option ApiError) B
  unfolding create_or_update
  own_and_apply o = elim (api.set_owner o) [ some e ↦ (some e, []) | none ↦ create_or_update o ]

  -- The round of the node keys, with `Create`.
  unfoldable pub own_and_create : Object B → Sent (Option ApiError) B
  own_and_create o = elim (api.set_owner o) [
    | some e ↦ (some e, [])
    | none ↦ (ignore_already_exists (api.create o), create_object o ∷ [])
  ]

  abbrev pub update_one : Object B → Sent (Option ApiError) B
  update_one o = (api.update o, update_object o ∷ [])

  abbrev pub delete_one : Object B → Sent (Option ApiError) B
  delete_one o = (api.delete o, delete_object o ∷ [])

  -- `Reconcile` of the services, the roles, the role bindings and the service accounts.
  unfoldable pub apply_objects : Diff B → Sent (Option ApiError) B
  unfolding own_and_apply
  apply_objects d = then_loop (for_each own_and_apply d.creates) (for_each update_one d.updates)

  unfoldable pub reconcile_objects : List (Resource B) → Sent (Checked (Option ReconcileError)) B
  unfolding apply_objects
  reconcile_objects want = elim api.list [
    | failed e ↦ (ok (some (transient_error e)), [])
    | found current ↦ elim (new current want) [
      | panic ↦ (panic, [])
      | ok d ↦ let out = apply_objects d in (ok (to_transient out.0), out.1)
    ]
  ]

  unfoldable pub apply_node_keys : Diff B → Sent (Option ApiError) B
  unfolding own_and_create
  apply_node_keys d = then_loop (for_each own_and_create d.creates) (for_each update_one d.updates)

  -- `NodeKeyControl.Reconcile`.
  unfoldable pub reconcile_node_keys :
      Answer (List (Resource B)) → Sent (Checked (Option ReconcileError)) B
  unfolding apply_node_keys
  reconcile_node_keys want = elim api.list [
    | failed e ↦ (ok (some (transient_error e)), [])
    | found current ↦ elim want [
      | failed e ↦ (ok (some (unrecoverable_error e)), [])
      | found resources ↦ elim (new current resources) [
        | panic ↦ (panic, [])
        | ok d ↦ let out = apply_node_keys d in (ok (to_transient out.0), out.1)
      ]
    ]
  ]

  unfoldable pub apply_config_maps : Diff B → Sent (Option ApiError) B
  unfolding own_and_apply
  apply_config_maps d =
      then_loop (for_each own_and_apply d.creates)
        (then_loop (for_each delete_one d.deletes) (for_each update_one d.updates))

  -- `ConfigMapControl.Reconcile`; nil checksums are empty ones.
  unfoldable pub reconcile_config_maps :
      Answer (List (Resource B)) → Sent (Checked (ConfigChecksums × Option ReconcileError)) B
  unfolding apply_config_maps put_checksums
  reconcile_config_maps want = elim api.list [
    | failed e ↦ (ok ([], some (transient_error e)), [])
    | found current ↦ elim want [
      | failed e ↦ (ok ([], some (unrecoverable_error e)), [])
      | found resources ↦ elim (new current resources) [
        | panic ↦ (panic, [])
        | ok d ↦ let out = apply_config_maps d in (ok (checksums_or_error resources out.0), out.1)
      ]
    ]
  ]
