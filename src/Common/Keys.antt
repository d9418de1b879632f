-- ===== src/Common/Keys.antt =====
-- Equality tests of keys.
use mathlib.Core.Path.{◌≡◌}
use mathlib.Core.Logic.{◌↔◌}
use mathlib.Core.Bool.{Bool, true, ◌&&◌}
use native.Mathlib.Omega.{arith}
use Prim.Native.Nat.{ℕ}
use cosmos_operator.Common.Tests.{◌==◌, ==_iff}
use cosmos_operator.Common.Texts.{Text, text_eq, text_eq_iff}

pub record Eq {ℓ} (A : Type ℓ) : Type ℓ where
  pub beq : A → A → Bool
  pub beq_iff : (a b : A) → (beq a b ≡ true) ↔ (a ≡ b)

instance abbrev pub text_Eq : Eq Text
text_Eq = record { beq = text_eq; beq_iff = text_eq_iff }

-- `types.NamespacedName`, which `client.ObjectKey` abbreviates.
pub record ObjectKey : Type 0 where
  pub namespace : Text
  pub name : Text

unfoldable pub key_eq : ObjectKey → ObjectKey → Bool
key_eq a b = text_eq a.namespace b.namespace && text_eq a.name b.name

pub key_eq_iff : (a b : ObjectKey) → (key_eq a b ≡ true) ↔ (a ≡ b)
unfolding key_eq
key_eq_iff a b = (
  λ h. ground (arith, text_eq_iff a.namespace b.namespace, text_eq_iff a.name b.name),
  λ h. ground (arith, text_eq_iff a.namespace b.namespace, text_eq_iff a.name b.name),
)

instance abbrev pub key_Eq : Eq ObjectKey
key_Eq = record { beq = key_eq; beq_iff = key_eq_iff }

instance abbrev pub nat_Eq : Eq ℕ
nat_Eq = record { beq = ◌==◌; beq_iff = ==_iff }
