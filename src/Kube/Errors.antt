-- ===== src/Kube/Errors.antt =====
-- internal/kube/error.go: errors of a reconcile, and a collection of them. The wrapped error is
-- the API server's; its text is left out.
pub mod Laws
use cosmos_operator.Common.{List, [], ◌∷◌, ◌++◌, Bool, true, false, not, if◌then◌else◌}
use cosmos_operator.Kube.Client.{ApiError}

pub data ReconcileError : Type 0 where
  transient_error : ApiError → ReconcileError
  unrecoverable_error : ApiError → ReconcileError

unfoldable pub is_transient : ReconcileError → Bool
is_transient (transient_error _) = true
is_transient (unrecoverable_error _) = false

-- `ReconcileErrors.IsTransient`.
unfoldable pub are_transient : List ReconcileError → Bool
unfolding is_transient
are_transient [] = true
are_transient (e ∷ es) = if not (is_transient e) then false else are_transient es

unfoldable pub append : List ReconcileError → ReconcileError → List ReconcileError
append es e = es ++ (e ∷ [])

unfoldable pub any : List ReconcileError → Bool
any [] = false
any (_ ∷ _) = true
