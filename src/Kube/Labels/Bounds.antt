-- ===== src/Kube/Labels/Bounds.antt =====
-- The limits that the names of internal/kube/labels.go keep.
use cosmos_operator.Common.{
  ℕ, ◌+◌, ◌-◌, ◌≤◌, suc, zero, ◌/◌, ◌%◌, ◌==◌, Text, List, [], ◌∷◌, ◌++◌, ◌≡◌, Bool, true, ◌||◌,
  arith, length, take, drop, length-append, length-take-le, length-drop, select, if◌then◌else◌,
}
use cosmos_operator.Kube.Labels.{
  is_alphanumeric, is_among, trim_left, trim_right, trim_middle, normalize_value,
}

-- A predicate on each byte.
abbrev pub AllBytes : (ℕ → Type 0) → Text → Type 0
AllBytes P [] = Unit
AllBytes P (c ∷ s) = P c × AllBytes P s

-- What is kept: a letter, a digit, or one of the allowed bytes.
abbrev pub IsKept : List ℕ → ℕ → Type 0
IsKept allowed c = (is_alphanumeric c || is_among allowed c) ≡ true

select-AllBytes : (p : ℕ → Bool) (s : Text) → AllBytes (λ c. p c ≡ true) (select p s)
select-AllBytes p [] = tt
select-AllBytes p (c ∷ s) = ground (arith, select-AllBytes p s)

module _ (P : ℕ → Type 0) where
  take-AllBytes : (n : ℕ) (s : Text) → AllBytes P s → AllBytes P (take n s)
  take-AllBytes zero s h = tt
  take-AllBytes (suc n) [] h = tt
  take-AllBytes (suc n) (c ∷ s) h = (h.0, take-AllBytes n s h.1)

  drop-AllBytes : (n : ℕ) (s : Text) → AllBytes P s → AllBytes P (drop n s)
  drop-AllBytes zero s h = h
  drop-AllBytes (suc n) [] h = tt
  drop-AllBytes (suc n) (c ∷ s) h = drop-AllBytes n s h.1

  append-AllBytes : (s t : Text) → AllBytes P s → AllBytes P t → AllBytes P (s ++ t)
  append-AllBytes [] t h k = k
  append-AllBytes (c ∷ s) t h k = (h.0, append-AllBytes s t h.1 k)

  trim_left-AllBytes :
      (allowed : List ℕ) (s : Text) → AllBytes P s → AllBytes P (trim_left allowed s)
  unfolding trim_left
  trim_left-AllBytes allowed [] h = tt
  trim_left-AllBytes allowed (c ∷ s) h = ground (arith, trim_left-AllBytes allowed s h.1)

  trim_right-AllBytes :
      (allowed : List ℕ) (s : Text) → AllBytes P s → AllBytes P (trim_right allowed s)
  unfolding trim_right
  trim_right-AllBytes allowed [] h = tt
  trim_right-AllBytes allowed (c ∷ s) h = ground (arith, trim_right-AllBytes allowed s h.1)

  trim_middle-AllBytes : (s : Text) (limit : ℕ) → AllBytes P s → AllBytes P (trim_middle s limit)
  unfolding trim_middle
  trim_middle-AllBytes s limit h =
      let right = if limit % 2 == 0 then limit / 2 else limit / 2 + 1 in
      let both =
        append-AllBytes (take (limit / 2) s) (drop (length s - right) s)
          (take-AllBytes (limit / 2) s h) (drop-AllBytes (length s - right) s h) in
      ground (arith, both)

trim_middle-le : (s : Text) (limit : ℕ) → length (trim_middle s limit) ≤ limit
unfolding trim_middle
trim_middle-le s limit =
    let right = if limit % 2 == 0 then limit / 2 else limit / 2 + 1 in
    ground (
      arith,
      length-append (take (limit / 2) s) (drop (length s - right) s),
      length-take-le (limit / 2) s,
      length-drop (length s - right) s,
    )

module _ (val : Text) (limit : ℕ) (allowed : List ℕ) where
  -- Whatever the text: what it is normalized to is no longer than the limit, and holds only letters,
  -- digits and the allowed bytes.
  pub normalize_value-le :
      (length (normalize_value val limit allowed) ≤ limit)
      × AllBytes (IsKept allowed) (normalize_value val limit allowed)
  unfolding normalize_value
  normalize_value-le =
      let kept = select (λ c. is_alphanumeric c || is_among allowed c) val in
      let left = trim_left allowed kept in
      (
        trim_middle-le (trim_right allowed left) limit,
        trim_middle-AllBytes (IsKept allowed) (trim_right allowed left) limit (
            trim_right-AllBytes (IsKept allowed) allowed left
              (trim_left-AllBytes (IsKept allowed) allowed kept (select-AllBytes _ val))),
      )
