-- ===== src/Agent/Transitions.antt =====
-- The states of a call job: `VALID_STATUS_TRANSITIONS` and `validate_job_status_transition` of
-- backend/app/agent/orchestrator.py.
use realesatecrm.Base.{String, Bool, false, not, ◌||◌, List, [], ◌∷◌, str_eq, if◌then◌else◌}
use realesatecrm.Core.Errors.{AppError}
use realesatecrm.Db.Action.{Action, raise_if}

-- `status in allowed`
unfoldable pub is_one_of : String → List String → Bool
is_one_of s [] = false
is_one_of s (a ∷ rest) = str_eq s a || is_one_of s rest

-- `VALID_STATUS_TRANSITIONS.get(current, set())`
unfoldable pub valid_status_transitions : String → List String
valid_status_transitions current =
    if str_eq current "queued"
    then "preparing" ∷ "cancelled" ∷ []
    else if str_eq current "scheduled"
    then "preparing" ∷ "cancelled" ∷ []
    else if str_eq current "preparing"
    then "ready" ∷ "retry_pending" ∷ "failed" ∷ "cancelled" ∷ []
    else if str_eq current "ready"
    then "calling" ∷ "cancelled" ∷ []
    else if str_eq current "calling"
    then "completed" ∷ "retry_pending" ∷ "failed" ∷ "cancelled" ∷ []
    else if str_eq current "retry_pending"
    then "preparing" ∷ "cancelled" ∷ []
    else []

unfoldable pub is_allowed : String → String → Bool
unfolding is_one_of valid_status_transitions
is_allowed current new_status = is_one_of new_status (valid_status_transitions current)

abbrev pub validate_job_status_transition : String → String → Action (Unit {0})
validate_job_status_transition current new_status =
    raise_if (not (is_allowed current new_status))
      (AppError.business_rule "INVALID_STATE_TRANSITION")
