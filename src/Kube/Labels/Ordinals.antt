-- ===== src/Kube/Labels/Ordinals.antt =====
-- Names that end in a dash and an ordinal, through `ToName` of internal/kube/labels.go.
use mathlib.Core.Path.{subst}
use cosmos_operator.Common.{
  ℕ, ◌-◌, ◌≤◌, ◌<◌, suc, zero, ◌==◌, Text, txt, List, [], ◌∷◌, ◌++◌, ◌≡◌, ◌⊎◌, Bool, true, false,
  ◌||◌, ap, sym, ◌∙◌, refl, arith, length, take, drop, length-append, select, any, if◌then◌else◌,
  inl, inr, append_assoc, Bool-cases, leb, leb-eq-false,
}
use cosmos_operator.Common.Decimal.Digits.{IsDigit, AllDigits, IsNumeral}
use cosmos_operator.Kube.Labels.{
  is_alphanumeric, is_among, trim_left, trim_right, trim_middle, normalize_value, to_name,
}

-- What `ToName` allows besides letters and digits, and what it keeps.
abbrev allowed : List ℕ
allowed = txt "-."

abbrev keep : ℕ → Bool
keep c = is_alphanumeric c || is_among allowed c

-- A text that ends in a dash and the given one, or is the given one.
abbrev pub EndsIn : Text → Text → Type 0
EndsIn d t = ((p : Text) × (t ≡ p ++ (b'-' ∷ d))) ⊎ (t ≡ d)

-- The part after the last dash.
abbrev pub after_dash : Text → Text
after_dash [] = []
after_dash (c ∷ s) = if any (λ x. x == b'-') (c ∷ s) then after_dash s else c ∷ s

any-AllDigits : (d : Text) → AllDigits d → any (λ x. x == b'-') d ≡ false
any-AllDigits [] h = refl
any-AllDigits (c ∷ d) h = ground (arith, any-AllDigits d h.1, h.0.0)

any-append : (p d : Text) → any (λ x. x == b'-') (p ++ (b'-' ∷ d)) ≡ true
any-append [] d = refl
any-append (c ∷ p) d = ground (arith, any-append p d)

after_dash-digits : (d : Text) → AllDigits d → after_dash d ≡ d
after_dash-digits [] h = refl
after_dash-digits (c ∷ d) h = rw (any-AllDigits (c ∷ d) h) refl

after_dash-append : (p d : Text) → AllDigits d → after_dash (p ++ (b'-' ∷ d)) ≡ d
after_dash-append [] d h = after_dash-digits d h
after_dash-append (c ∷ p) d h = rw (any-append (c ∷ p) d) (after_dash-append p d h)

-- What is after the last dash of a name is its ordinal.
pub after_dash-EndsIn : (d t : Text) → AllDigits d → EndsIn d t → after_dash t ≡ d
after_dash-EndsIn d t h (inl (p, e)) = ap after_dash e ∙ after_dash-append p d h
after_dash-EndsIn d t h (inr e) = ap after_dash e ∙ after_dash-digits d h

digit-keep : (c : ℕ) → IsDigit c → keep c ≡ true
digit-keep c h = ground (arith, h.0, h.1)

digit-not_allowed : (c : ℕ) → IsDigit c → is_among allowed c ≡ false
digit-not_allowed c h = ground (arith, h.0, h.1)

select-append : (p : ℕ → Bool) (s t : Text) → select p (s ++ t) ≡ select p s ++ select p t
select-append p [] t = refl
select-append p (c ∷ s) t = ground (arith, select-append p s t)

select-AllDigits : (d : Text) → AllDigits d → select keep d ≡ d
select-AllDigits [] h = refl
select-AllDigits (c ∷ d) h =
    let k : keep c ≡ true = digit-keep c h.0 in rw (k) (ap (◌∷◌ c) (select-AllDigits d h.1))

trim_left-AllDigits : (d : Text) → AllDigits d → trim_left allowed d ≡ d
unfolding trim_left
trim_left-AllDigits [] h = refl
trim_left-AllDigits (c ∷ d) h = ground (arith, digit-not_allowed c h.0)

trim_left-EndsIn : (p d : Text) → AllDigits d → EndsIn d (trim_left allowed (p ++ (b'-' ∷ d)))
unfolding trim_left
trim_left-EndsIn [] d h = inr (trim_left-AllDigits d h)
trim_left-EndsIn (c ∷ p) d h = elim (Bool-cases (is_among allowed c)) [
  | inl e ↦ rw (e) (trim_left-EndsIn p d h)
  | inr e ↦ rw (e) (inl (c ∷ p, refl))
]

trim_right-cons :
    (x y : ℕ) (t s : Text) → trim_right allowed s ≡ y ∷ t → trim_right allowed (x ∷ s) ≡ x ∷ y ∷ t
unfolding trim_right
trim_right-cons x y t s e = rw (e) refl

trim_right-AllDigits : (c : ℕ) (d : Text) → AllDigits (c ∷ d) → trim_right allowed (c ∷ d) ≡ c ∷ d
unfolding trim_right
trim_right-AllDigits c [] h = ground (arith, digit-not_allowed c h.0)
trim_right-AllDigits c (e ∷ d) h = trim_right-cons c e d (e ∷ d) (trim_right-AllDigits e d h.1)

trim_right-append :
    (p : Text) (c : ℕ) (d : Text)
    → AllDigits (c ∷ d)
    → trim_right allowed (p ++ (b'-' ∷ c ∷ d)) ≡ p ++ (b'-' ∷ c ∷ d)
trim_right-append [] c d h = trim_right-cons b'-' c d (c ∷ d) (trim_right-AllDigits c d h)
trim_right-append (a ∷ []) c d h =
    trim_right-cons a b'-' (c ∷ d) (b'-' ∷ c ∷ d) (trim_right-append [] c d h)
trim_right-append (a ∷ b ∷ p) c d h =
    trim_right-cons a b (p ++ (b'-' ∷ c ∷ d)) (b ∷ p ++ (b'-' ∷ c ∷ d))
      (trim_right-append (b ∷ p) c d h)

trim_right-EndsIn :
    (c : ℕ) (d t : Text) → AllDigits (c ∷ d) → EndsIn (c ∷ d) t → trim_right allowed t ≡ t
trim_right-EndsIn c d t h (inl (p, e)) =
    ap (trim_right allowed) e ∙ trim_right-append p c d h ∙ sym e
trim_right-EndsIn c d t h (inr e) = ap (trim_right allowed) e ∙ trim_right-AllDigits c d h ∙ sym e

drop-append : (n : ℕ) (p s : Text) → n ≤ length p → drop n (p ++ s) ≡ drop n p ++ s
drop-append zero p s l = refl
drop-append (suc n) [] s l = ground (arith, l)
drop-append (suc n) (c ∷ p) s l = drop-append n p s (omega (arith, l))

cut-EndsIn :
    (d t : Text)
    → length d < 127
    → 253 < length t
    → EndsIn d t
    → EndsIn d (take 126 t ++ drop (length t - 127) t)
cut-EndsIn d t l long (inr e) = ground (arith, ap length e)
cut-EndsIn d t l long (inl (p, e)) =
    let n = length t - 127 in
    let within : n ≤ length p = omega (arith, ap length e, length-append p (b'-' ∷ d)) in
    inl (
      take 126 t ++ drop n p,
      ap (λ x. take 126 t ++ x) (ap (drop n) e ∙ drop-append n p (b'-' ∷ d) within)
          ∙ sym (append_assoc (take 126 t) (drop n p) (b'-' ∷ d)),
    )

-- The end of a name is kept where it is shorter than the suffix.
trim_middle-EndsIn : (d t : Text) → length d < 127 → EndsIn d t → EndsIn d (trim_middle t 253)
unfolding trim_middle
trim_middle-EndsIn d t l e = elim (Bool-cases (leb (length t) 253)) [
  | inl short ↦ rw (short) e
  | inr long ↦ rw (long) (cut-EndsIn d t l (leb-eq-false (length t) 253 long) e)
]

-- The bytes that are dropped are not at the end.
trimmed-EndsIn :
    (t d : Text) → AllDigits d → EndsIn d t → EndsIn d (trim_left allowed (select keep t))
trimmed-EndsIn t d h (inr e) = inr (
    ap (λ x. trim_left allowed (select keep x)) e
    ∙ ap (trim_left allowed) (select-AllDigits d h)
    ∙ trim_left-AllDigits d h)
trimmed-EndsIn t d h (inl (p, e)) =
    let kept : select keep t ≡ select keep p ++ (b'-' ∷ d) =
      ap (select keep) e
      ∙ select-append keep p (b'-' ∷ d)
      ∙ ap (λ x. select keep p ++ (b'-' ∷ x)) (select-AllDigits d h) in
    subst (λ x. EndsIn d (trim_left allowed x)) (sym kept) (trim_left-EndsIn (select keep p) d h)

-- `ToName` keeps the ordinal at the end of a name.
pub to_name-EndsIn : (t d : Text) → IsNumeral d → length d < 127 → EndsIn d t → EndsIn d (to_name t)
unfolding to_name normalize_value
to_name-EndsIn t [] h l e = ground (arith, h.0)
to_name-EndsIn t (c ∷ d) h l e =
    let left = trim_left allowed (select keep t) in
    let ends = trimmed-EndsIn t (c ∷ d) h.1 e in
    trim_middle-EndsIn (c ∷ d) (trim_right allowed left) l
      (subst (EndsIn (c ∷ d)) (sym (trim_right-EndsIn c d left h.1 ends)) ends)
