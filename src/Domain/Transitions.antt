-- ===== src/Domain/Transitions.antt =====
-- backend/app/domain/operations.py: the transition tables and `validate_transition`.
pub mod Lifecycle
use harbor_transfer_portal.Base.{List, [], ◌∷◌, Result, refuse_if, not, if◌then◌else◌, ◌>>◌}
use harbor_transfer_portal.Domain.Status.{
  OperationType, OperationStatus, created, validating, running, packaging, verifying, uploaded,
  discovered, ready, importing, verifying_target, completed, failed, rejected, cancelled, status_in,
  is_export,
}

-- EXPORT_TRANSITIONS.get(current, set())
pub export_transitions : OperationStatus → List OperationStatus
export_transitions created = validating ∷ failed ∷ cancelled ∷ []
export_transitions validating = running ∷ failed ∷ cancelled ∷ []
export_transitions running = packaging ∷ failed ∷ cancelled ∷ []
export_transitions packaging = verifying ∷ failed ∷ cancelled ∷ []
export_transitions verifying = completed ∷ failed ∷ cancelled ∷ []
export_transitions _ = []

-- IMPORT_TRANSITIONS.get(current, set())
pub import_transitions : OperationStatus → List OperationStatus
import_transitions uploaded = verifying ∷ failed ∷ rejected ∷ cancelled ∷ []
import_transitions discovered = verifying ∷ failed ∷ rejected ∷ cancelled ∷ []
import_transitions verifying = ready ∷ failed ∷ rejected ∷ cancelled ∷ []
import_transitions ready = importing ∷ failed ∷ cancelled ∷ []
import_transitions importing = verifying_target ∷ failed ∷ cancelled ∷ []
import_transitions verifying_target = completed ∷ failed ∷ cancelled ∷ []
import_transitions _ = []

abbrev pub terminal_states : List OperationStatus
terminal_states = completed ∷ failed ∷ rejected ∷ cancelled ∷ []

pub data IllegalOperationTransition : Type 0 where
  terminal_state : OperationStatus → OperationStatus → IllegalOperationTransition
  illegal_transition :
      OperationType → OperationStatus → OperationStatus → IllegalOperationTransition

unfoldable pub validate_transition :
    OperationType → OperationStatus → OperationStatus → Result IllegalOperationTransition (Unit {0})
unfolding export_transitions import_transitions
validate_transition operation_type current target = do
  refuse_if (status_in current terminal_states) (terminal_state current target)
  let transitions =
      if is_export operation_type then export_transitions current else import_transitions current
  refuse_if (not (status_in target transitions)) (illegal_transition operation_type current target)
