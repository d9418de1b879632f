-- ===== src/FullNode/Objects/Steps.antt =====
-- What the controls of internal/fullnode send for a diff.
use cosmos_operator.Common.{List, [], ◌∷◌, ◌++◌, map, ◌≡◌, refl, ap, ◌∙◌, Option, none, Checked, ok}
use cosmos_operator.Kube.Client.{ApiError, found, is_already_exists}
use cosmos_operator.Kube.Errors.{ReconcileError}
use cosmos_operator.Kube.Meta.{Object}
use cosmos_operator.Diff.{Diff, Resource, new}
use cosmos_operator.Diff.Converge.{IsApplied, new_converges}
use cosmos_operator.FullNode.Objects.{
  Request, create_object, update_object, ObjectApi, Sent, for_each, then_loop, create_or_update,
  own_and_apply, to_transient, update_one, apply_objects, reconcile_objects,
}

-- An API server that grants every request for a kind of object.
pub record Grants {ℓ} {B : Type ℓ} (api : ObjectApi B) : Type ℓ where
  pub owns : (o : Object B) → api.set_owner o ≡ none
  pub creates : (o : Object B) → api.create o ≡ none
  pub updates : (o : Object B) → api.update o ≡ none

module _ {ℓ} {B : Type ℓ} where
  -- A loop whose rounds send one request each and succeed.
  for_each-sends :
      (f : Object B → Sent (Option ApiError) B) (q : Object B → Request B)
      → ((o : Object B) → f o ≡ (none, q o ∷ []))
      → (os : List (Object B)) → for_each f os ≡ (none, map q os)
  for_each-sends f q h [] = refl
  for_each-sends f q h (o ∷ os) =
      ap (λ a. then_loop a (for_each f os)) (h o)
      ∙ ap (then_loop (none, q o ∷ [])) (for_each-sends f q h os)

  module _ (api : ObjectApi B) (g : Grants api) where
    own_and_apply-grants : (o : Object B) → own_and_apply api o ≡ (none, create_object o ∷ [])
    unfolding own_and_apply create_or_update is_already_exists
    own_and_apply-grants o = rw (own_and_apply, g.owns o, create_or_update, g.creates o) refl

    apply_objects-grants :
        (d : Diff B)
        → apply_objects api d ≡ (none, map create_object d.creates ++ map update_object d.updates)
    unfolding apply_objects
    apply_objects-grants d =
        let cs = for_each-sends (own_and_apply api) create_object own_and_apply-grants d.creates in
        let us =
          for_each-sends (update_one api) update_object (λ o. rw (update_one, g.updates o) refl)
            d.updates in
        rw (apply_objects, cs, us) refl

  abbrev finish : Sent (Option ApiError) B → Sent (Checked (Option ReconcileError)) B
  finish out = (ok (to_transient out.0), out.1)

  nothing :
      (api : ObjectApi B) (d : Diff B)
      → d.creates ≡ []
      → d.updates ≡ []
      → apply_objects api d ≡ (none, [])
  unfolding apply_objects
  nothing api d c u = rw (apply_objects, c, u) refl

  reconcile_objects-of :
      (api : ObjectApi B) (cur : List (Object B)) (want : List (Resource B)) {d : Diff B}
      → api.list ≡ found cur
      → new cur want ≡ ok d
      → reconcile_objects api want ≡ finish (apply_objects api d)
  unfolding reconcile_objects
  reconcile_objects-of api cur want {d} l n = rw (reconcile_objects, l, n) refl

  -- Against an API server that grants every request, the control of a kind of object sends a creation
  -- for each create of the diff and an update for each update, and returns no error; once these
  -- steps, and the deletes of the diff, were carried out, it sends nothing.
  pub reconcile_objects-settles :
      (api later : ObjectApi B) (cur cur' : List (Object B)) (want : List (Resource B))
      {d d' : Diff B}
      → Grants api
      → api.list ≡ found cur
      → new cur want ≡ ok d
      → IsApplied cur d cur'
      → later.list ≡ found cur'
      → new cur' want ≡ ok d'
      → (reconcile_objects api want
          ≡ (ok none, map create_object d.creates ++ map update_object d.updates))
        × (reconcile_objects later want ≡ (ok none, []))
  reconcile_objects-settles api later cur cur' want {d} {d'} g l n a l' n' =
      let quiet = new_converges cur cur' want {d = d} {d' = d'} n a n' in
      (
        reconcile_objects-of api cur want {d = d} l n ∙ ap finish (apply_objects-grants api g d),
        reconcile_objects-of later cur' want {d = d'} l' n'
            ∙ ap finish (nothing later d' quiet.0 quiet.2),
      )
