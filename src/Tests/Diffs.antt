-- ===== src/Tests/Diffs.antt =====
-- The diff of internal/diff at a small cluster: one object to create, one to delete, one to update.
use cosmos_operator.Common.{
  ℕ, Text, txt, text_eq, List, [], ◌∷◌, ◌++◌, map, ◌≡◌, refl, none, arith, ObjectKey, key_eq,
  lookup, insert, pos, parse_int, format_int, format_nat, Checked, panic, ok,
}
use cosmos_operator.Kube.Client.{found}
use cosmos_operator.FullNode.Objects.{ObjectApi, create_object, update_object, reconcile_objects}
use cosmos_operator.FullNode.Objects.Steps.{reconcile_objects-settles}
use cosmos_operator.Kube.Meta.{Object}
use cosmos_operator.Diff.{
  Resource, current, adapted, Diff, new, revision_label, object, revision, ordinal, adopt,
}
use cosmos_operator.Diff.Sets.{pick}
use cosmos_operator.Diff.Sort.{find_object}
use cosmos_operator.Diff.Steps.{created, updated, new_lem}
use cosmos_operator.Diff.Converge.{IsApplied, new_converges}

abbrev named : Text → List (Text × Text) → Object ℕ
named n ls = record {
  meta = record {
    namespace = txt "ns";
    name = n;
    resource_version = txt "7";
    uid = txt "u";
    generation = 1;
    owner_references = [];
    labels = ls;
    annotations = [];
    deletion_timestamp = none;
  };
  body = 0;
}

abbrev old : List (Object ℕ)
old = named (txt "a") ((revision_label, txt "r1") ∷ []) ∷ named (txt "b") [] ∷ []

abbrev wanted : List (Resource ℕ)
wanted =
    adapted (named (txt "a") []) (pos 1) (txt "r2")
    ∷ adapted (named (txt "c") []) (pos 0) (txt "r3")
    ∷ []

program : Unit {0}
unfolding new lookup insert key_eq text_eq parse_int format_int format_nat object revision ordinal
    adopt
program = tt

abbrev diff_of : Checked (Diff ℕ) → Diff ℕ
diff_of panic = record { creates = []; deletes = []; updates = [] }
diff_of (ok d) = d

old_steps : new old wanted ≡ ok (diff_of (new old wanted))
unfolding program
old_steps = refl

new_twice : new (named (txt "a") [] ∷ named (txt "a") [] ∷ []) wanted ≡ panic
unfolding program
new_twice = refl

names : map (λ (o : Object ℕ). o.meta.name) (diff_of (new old wanted)).updates ≡ txt "a" ∷ []
unfolding program
names = refl

decimal : parse_int (format_int (pos 1204)) ≡ pos 1204
unfolding program
decimal = refl

new_lem_example :
    let d = diff_of (new old wanted) in
    let k : ObjectKey = record { namespace = txt "ns"; name = txt "c" } in
    (find_object k d.creates ≡ created (pick k (map current old)) (pick k wanted))
    × (find_object k d.deletes ≡ created (pick k wanted) (pick k (map current old)))
    × (find_object k d.updates ≡ updated (pick k (map current old)) (pick k wanted))
new_lem_example =
    new_lem old wanted {d = diff_of (new old wanted)}
      (record { namespace = txt "ns"; name = txt "c" }) old_steps

-- One object is wanted and none is there; it is created.
abbrev one : List (Resource ℕ)
one = adapted (named (txt "a") []) (pos 1) (txt "r2") ∷ []

abbrev first : Diff ℕ
first = diff_of (new [] one)

first_steps : new [] one ≡ ok first
unfolding program
first_steps = refl

new_second : new first.creates one ≡ ok (diff_of (new first.creates one))
unfolding program
new_second = refl

first-IsApplied : IsApplied [] first first.creates
unfolding program
first-IsApplied = record { holds = λ k. ground arith }

new_converges_example :
    let d' = diff_of (new first.creates one) in
    (d'.creates ≡ []) × (d'.deletes ≡ []) × (d'.updates ≡ [])
new_converges_example =
    new_converges [] first.creates one {d = first} {d' = diff_of (new first.creates one)}
      first_steps first-IsApplied new_second

abbrev granting : List (Object ℕ) → ObjectApi ℕ
granting os = record {
  list = found os;
  set_owner = λ o. none;
  create = λ o. none;
  update = λ o. none;
  delete = λ o. none;
}

reconcile_objects-settles_example :
    (reconcile_objects (granting []) one
      ≡ (ok none, map create_object first.creates ++ map update_object first.updates))
    × (reconcile_objects (granting first.creates) one ≡ (ok none, []))
reconcile_objects-settles_example =
    reconcile_objects-settles (granting []) (granting first.creates) [] first.creates one
      {d = first} {d' = diff_of (new first.creates one)}
      (record { owns = λ o. refl; creates = λ o. refl; updates = λ o. refl }) refl first_steps
      first-IsApplied refl new_second
