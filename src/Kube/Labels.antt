-- ===== src/Kube/Labels.antt =====
-- internal/kube/labels.go: the names of the shared labels, and how a name or a label key is made
-- to keep the limits of Kubernetes. A Go string is its bytes.
pub mod Bounds
pub mod Ordinals
use cosmos_operator.Common.{
  ℕ, ◌+◌, ◌-◌, ◌/◌, ◌%◌, Text, txt, List, [], ◌∷◌, ◌++◌, Bool, ◌&&◌, ◌||◌, leb, ◌==◌, if◌then◌else◌,
  length, take, drop, select, any, insert, text_Eq,
}
use cosmos_operator.Kube.Meta.{ObjectMeta}

abbrev pub controller_label : Text
controller_label = txt "app.kubernetes.io/created-by"

abbrev pub component_label : Text
component_label = txt "app.kubernetes.io/component"

abbrev pub between : ℕ → ℕ → ℕ → Bool
between low high c = leb low c && leb c high

abbrev pub is_alphanumeric : ℕ → Bool
is_alphanumeric c = between b'a' b'z' c || between b'A' b'Z' c || between b'0' b'9' c

-- `bytes.IndexByte(allowed, char) != -1`, and `bytes.ContainsRune` on ASCII.
abbrev pub is_among : List ℕ → ℕ → Bool
is_among allowed c = any (λ a. a == c) allowed

-- `bytes.TrimLeftFunc`.
unfoldable pub trim_left : List ℕ → Text → Text
trim_left allowed [] = []
trim_left allowed (c ∷ s) = if is_among allowed c then trim_left allowed s else c ∷ s

-- `bytes.TrimRightFunc`: a byte goes if it is to go and nothing is left after it.
unfoldable pub trim_right : List ℕ → Text → Text
trim_right allowed [] = []
trim_right allowed (c ∷ s) = elim (trim_right allowed s) [
  | [] ↦ if is_among allowed c then [] else c ∷ []
  | d ∷ t ↦ c ∷ d ∷ t
]

-- `trimMiddle`: a prefix and a suffix that make up the limit.
unfoldable pub trim_middle : Text → ℕ → Text
trim_middle val limit =
    if leb (length val) limit
    then val
    else let left = limit / 2 in
      let right = if limit % 2 == 0 then limit / 2 else limit / 2 + 1 in
      take left val ++ drop (length val - right) val

unfoldable pub normalize_value : Text → ℕ → List ℕ → Text
unfolding trim_left trim_right trim_middle
normalize_value val limit allowed =
    let kept = select (λ c. is_alphanumeric c || is_among allowed c) val in
    trim_middle (trim_right allowed (trim_left allowed kept)) limit

unfoldable pub to_label_key : Text → Text
unfolding normalize_value
to_label_key val = normalize_value val 63 (txt "-_./")

unfoldable pub to_name : Text → Text
unfolding normalize_value
to_name val = normalize_value val 253 (txt "-.")

-- The loops of `NormalizeMetadata`, from the new map so far.
unfoldable pub normalize_pairs : List (Text × Text) → List (Text × Text) → List (Text × Text)
unfolding to_label_key trim_middle
normalize_pairs out [] = out
normalize_pairs out ((k, v) ∷ m) =
    normalize_pairs (insert (to_label_key k) (trim_middle v 63) out) m

unfoldable pub normalize_metadata : ObjectMeta → ObjectMeta
unfolding to_name normalize_pairs
normalize_metadata m = record m {
  name = to_name m.name;
  annotations = normalize_pairs [] m.annotations;
  labels = normalize_pairs [] m.labels;
}
