-- ===== src/Kube/Errors/Laws.antt =====
-- The collection of errors of internal/kube/error.go.
use cosmos_operator.Common.{List, [], ◌∷◌, ◌≡◌, refl, true, ◌&&◌, arith}
use cosmos_operator.Kube.Errors.{ReconcileError, is_transient, are_transient, append, any}

-- Appending an error keeps the collection transient exactly if the error is, and leaves it non-empty.
pub append_lem :
    (es : List ReconcileError) (e : ReconcileError)
    → (are_transient (append es e) ≡ are_transient es && is_transient e)
      × (any (append es e) ≡ true)
unfolding are_transient append any
append_lem [] e = (ground arith, refl)
append_lem (x ∷ es) e = (ground (arith, append_lem es e), refl)
