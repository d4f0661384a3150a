-- ===== src/Batch.antt =====
-- ReconcileBatch (internal/controller/dataprotectionapplication_controller.go): the steps of a
-- reconciliation, up to the first that returns false or an error.
pub mod Laws
use oadp_operator.Prelude.{Bool, true, false, List, [], ◌∷◌, if◌then◌else◌}
use oadp_operator.Cluster.{M, ◌>>=◌, pure}

module _ {W : Type 0} where
  unfoldable pub reconcile_batch : List (M W Bool) → M W Bool
  reconcile_batch [] = pure true
  reconcile_batch (f ∷ rest) = f >>= λ cont. if cont then reconcile_batch rest else pure cont
